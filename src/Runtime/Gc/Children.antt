-- ===== src/Runtime/Gc/Children.antt =====
-- The addresses that `mark_children` goes through, in their order.
use quick_js_swift.Base.{ℕ, ◌≡◌, refl, List, [], ◌∷◌, ◌++◌, true, false, Option, none, some}
use quick_js_swift.Runtime.Gc.{
  JsValue, object, bytecode, other, JsProperty, get_set, var_ref_property, autoinit, plain,
  GcObject, js_object, function_bytecode, var_ref, async_function, shape, js_context, js_mark_value,
  mark_values, mark_each, mark_pointer, mark_property, mark_properties, mark_children,
}

abbrev of_value : JsValue → List ℕ
of_value (object p) = p ∷ []
of_value (bytecode p) = p ∷ []
of_value other = []

abbrev of_values : List JsValue → List ℕ
of_values [] = []
of_values (v ∷ vs) = of_value v ++ of_values vs

abbrev of_pointer : Option ℕ → List ℕ
of_pointer none = []
of_pointer (some p) = p ∷ []

abbrev of_property : Option JsProperty → List ℕ
of_property none = []
of_property (some (get_set getter setter)) = of_pointer getter ++ of_pointer setter
of_property (some (var_ref_property true p)) = p ∷ []
of_property (some (var_ref_property false p)) = []
of_property (some (autoinit realm)) = realm ∷ []
of_property (some (plain v)) = of_value v

abbrev of_properties : List (Option JsProperty) → List ℕ
of_properties [] = []
of_properties (pr ∷ prop) = of_property pr ++ of_properties prop

-- What an object refers to, as often as it does.
unfoldable pub children : GcObject → List ℕ
children (js_object sh prop by_class) = sh ∷ (of_properties prop ++ by_class)
children (function_bytecode cpool realm) = of_values cpool ++ of_pointer realm
children (var_ref value) = of_value value
children (async_function true frame resolve reject) = frame ++ (of_value resolve ++ of_value reject)
children (async_function false frame resolve reject) = of_value resolve ++ of_value reject
children (shape proto) = of_pointer proto
children (js_context marked) = marked

module _ {S : Type 0} (f : S → ℕ → S) where
  mark_each-append :
      (s : S) (ps qs : List ℕ) → mark_each f s (ps ++ qs) ≡ mark_each f (mark_each f s ps) qs
  unfolding mark_each
  mark_each-append s [] qs = refl
  mark_each-append s (p ∷ ps) qs = mark_each-append (f s p) ps qs

  value_each : (s : S) (v : JsValue) → js_mark_value f s v ≡ mark_each f s (of_value v)
  unfolding js_mark_value mark_each
  value_each s (object p) = refl
  value_each s (bytecode p) = refl
  value_each s other = refl

  pointer_each : (s : S) (p : Option ℕ) → mark_pointer f s p ≡ mark_each f s (of_pointer p)
  unfolding mark_pointer mark_each
  pointer_each s none = refl
  pointer_each s (some p) = refl

  values_each : (s : S) (vs : List JsValue) → mark_values f s vs ≡ mark_each f s (of_values vs)
  unfolding mark_values mark_each
  values_each s [] = refl
  values_each s (v ∷ vs) =
      rw (values_each (js_mark_value f s v) vs, value_each s v, mark_each-append) refl

  property_each :
      (s : S) (pr : Option JsProperty) → mark_property f s pr ≡ mark_each f s (of_property pr)
  unfolding mark_property mark_each
  property_each s none = refl
  property_each s (some (get_set getter setter)) =
      rw (pointer_each (mark_pointer f s getter) setter, pointer_each s getter, mark_each-append)
        refl
  property_each s (some (var_ref_property true p)) = refl
  property_each s (some (var_ref_property false p)) = refl
  property_each s (some (autoinit realm)) = refl
  property_each s (some (plain v)) = value_each s v

  properties_each :
      (s : S) (prop : List (Option JsProperty))
      → mark_properties f s prop ≡ mark_each f s (of_properties prop)
  unfolding mark_properties mark_each
  properties_each s [] = refl
  properties_each s (pr ∷ prop) =
      rw (properties_each (mark_property f s pr) prop, property_each s pr, mark_each-append) refl

  -- `mark_children` calls the function on each of them.
  pub mark_children-children :
      (s : S) (o : GcObject) → mark_children f s o ≡ mark_each f s (children o)
  unfolding mark_children children mark_each
  mark_children-children s (js_object sh prop by_class) =
      rw (properties_each (f s sh) prop, mark_each-append) refl
  mark_children-children s (function_bytecode cpool realm) =
      rw (pointer_each (mark_values f s cpool) realm, values_each s cpool, mark_each-append) refl
  mark_children-children s (var_ref value) = value_each s value
  mark_children-children s (async_function true frame resolve reject) =
      rw
        (
          value_each (js_mark_value f (mark_each f s frame) resolve) reject,
          value_each (mark_each f s frame) resolve,
          mark_each-append,
          mark_each-append,
        )
        refl
  mark_children-children s (async_function false frame resolve reject) =
      rw (value_each (js_mark_value f s resolve) reject, value_each s resolve, mark_each-append)
        refl
  mark_children-children s (shape proto) = pointer_each s proto
  mark_children-children s (js_context marked) = refl
