-- ===== src/Runtime/Gc.antt =====
-- The collector of cycles: `mark_children`, `gc_decref` and `gc_scan` of
-- Sources/QuickJSC/quickjs.c, which take the references between objects off their counts, keep
-- what is still counted with all that it refers to, and put the references back. An object is the
-- address of its `JSGCObjectHeader`; an intrusive list is the list of the addresses on it.
pub mod Counts
pub mod Children
pub mod Decref
pub mod Scan
pub mod Garbage
use quick_js_swift.Base.{
  ℕ, zero, suc, ◌+◌, ◌-◌, List, [], ◌∷◌, ◌++◌, Bool, true, false, ◌&&◌, ◌||◌, not, Option, none,
  some, ltb, ◌==◌, if◌then◌else◌, get_elem?, length,
}

-- A `JSValue`, as far as `JS_MarkValue` looks at it.
pub data JsValue : Type 0 where
  object bytecode : ℕ → JsValue
  other : JsValue

-- A property that is in use, by the kind in its flags. NULL is `none`. A variable reference has
-- `is_detached`, and a property made on demand its realm.
pub data JsProperty : Type 0 where
  get_set : Option ℕ → Option ℕ → JsProperty
  var_ref_property : Bool → ℕ → JsProperty
  autoinit : ℕ → JsProperty
  plain : JsValue → JsProperty

-- What a collected object holds. A property slot is `none` where its atom is JS_ATOM_NULL. What
-- the `gc_mark` of a class, `async_func_mark` and `JS_MarkContext` go through is a list. A
-- variable reference is detached: the source asserts so.
pub data GcObject : Type 0 where
  js_object : ℕ → List (Option JsProperty) → List ℕ → GcObject
  function_bytecode : List JsValue → Option ℕ → GcObject
  var_ref : JsValue → GcObject
  async_function : Bool → List ℕ → JsValue → JsValue → GcObject
  shape : Option ℕ → GcObject
  js_context : List ℕ → GcObject

module _ {S : Type 0} (mark_func : S → ℕ → S) where
  pub js_mark_value : S → JsValue → S
  js_mark_value s (object p) = mark_func s p
  js_mark_value s (bytecode p) = mark_func s p
  js_mark_value s other = s

  pub mark_values : S → List JsValue → S
  unfolding js_mark_value
  mark_values s [] = s
  mark_values s (v ∷ vs) = mark_values (js_mark_value s v) vs

  pub mark_each : S → List ℕ → S
  mark_each s [] = s
  mark_each s (p ∷ ps) = mark_each (mark_func s p) ps

  pub mark_pointer : S → Option ℕ → S
  mark_pointer s none = s
  mark_pointer s (some p) = mark_func s p

  pub mark_property : S → Option JsProperty → S
  unfolding mark_pointer js_mark_value
  mark_property s none = s
  mark_property s (some (get_set getter setter)) = mark_pointer (mark_pointer s getter) setter
  mark_property s (some (var_ref_property true p)) = mark_func s p
  mark_property s (some (var_ref_property false p)) = s
  mark_property s (some (autoinit realm)) = mark_func s realm
  mark_property s (some (plain v)) = js_mark_value s v

  pub mark_properties : S → List (Option JsProperty) → S
  unfolding mark_property
  mark_properties s [] = s
  mark_properties s (pr ∷ prop) = mark_properties (mark_property s pr) prop

  unfoldable pub mark_children : S → GcObject → S
  unfolding mark_properties mark_each mark_values mark_pointer js_mark_value
  mark_children s (js_object sh prop by_class) =
      mark_each (mark_properties (mark_func s sh) prop) by_class
  mark_children s (function_bytecode cpool realm) = mark_pointer (mark_values s cpool) realm
  mark_children s (var_ref value) = js_mark_value s value
  mark_children s (async_function is_active frame resolve reject) =
      let active = if is_active then mark_each s frame else s in
      js_mark_value (js_mark_value active resolve) reject
  mark_children s (shape proto) = mark_pointer s proto
  mark_children s (js_context marked) = mark_each s marked

-- The headers and the lists of the runtime. `ref_count` and `mark` are those of the header at an
-- address. `aborted` tells that an assertion failed.
pub record GcState : Type 0 where
  pub ref_count : ℕ → ℕ
  pub mark : ℕ → ℕ
  pub gc_obj_list : List ℕ
  pub tmp_obj_list : List ℕ
  pub aborted : Bool

-- What `list_del` leaves, of a node that is on the list once.
abbrev pub unlinked : ℕ → List ℕ → List ℕ
unlinked p [] = []
unlinked p (q ∷ l) = if q == p then l else (q ∷ unlinked p l)

-- A write to the header at an address.
abbrev pub update : (ℕ → ℕ) → ℕ → ℕ → ℕ → ℕ
update f p v q = if q == p then v else f q

unfoldable pub assert : Bool → GcState → GcState
assert b s = record s { aborted = s.aborted || not b }

-- An object is moved to the end of `tmp_obj_list`.
unfoldable pub set_aside : ℕ → GcState → GcState
set_aside p s = record s {
  gc_obj_list = unlinked p s.gc_obj_list;
  tmp_obj_list = s.tmp_obj_list ++ (p ∷ []);
}

unfoldable pub gc_decref_child : GcState → ℕ → GcState
unfolding assert set_aside
gc_decref_child s0 p =
    let s = assert (ltb 0 (s0.ref_count p)) s0 in
    let counted = record s { ref_count = update s.ref_count p (s.ref_count p - 1) } in
    if counted.ref_count p == 0 && counted.mark p == 1 then set_aside p counted else counted

-- What is done after the children of an object.
unfoldable pub decref_done : ℕ → GcState → GcState
unfolding set_aside
decref_done p s =
    let marked = record s { mark = update s.mark p 1 } in
    if marked.ref_count p == 0 then set_aside p marked else marked

-- An object that is in `tmp_obj_list` is taken back to the end of the list.
unfoldable pub take_back : ℕ → GcState → GcState
take_back p s = record s {
  tmp_obj_list = unlinked p s.tmp_obj_list;
  gc_obj_list = s.gc_obj_list ++ (p ∷ []);
  mark = update s.mark p 0;
}

unfoldable pub gc_scan_incref_child : GcState → ℕ → GcState
unfolding take_back
gc_scan_incref_child s p =
    let counted = record s { ref_count = update s.ref_count p (s.ref_count p + 1) } in
    if counted.ref_count p == 1 then take_back p counted else counted

unfoldable pub gc_scan_incref_child2 : GcState → ℕ → GcState
gc_scan_incref_child2 s p = record s { ref_count = update s.ref_count p (s.ref_count p + 1) }

module _ (contents : ℕ → GcObject) where
  -- The loop over the objects that were on the list at first: one that goes off the list while
  -- it runs has been passed already.
  pub decref_loop : List ℕ → GcState → GcState
  unfolding mark_children gc_decref_child decref_done assert
  decref_loop [] s = s
  decref_loop (p ∷ rest) s =
      let fresh = assert (s.mark p == 0) s in
      decref_loop rest (decref_done p (mark_children gc_decref_child fresh (contents p)))

  unfoldable pub gc_decref : GcState → GcState
  unfolding decref_loop
  gc_decref s = decref_loop s.gc_obj_list (record s { tmp_obj_list = [] })

  -- The body of the first loop of `gc_scan`.
  unfoldable pub keep : ℕ → GcState → GcState
  unfolding mark_children gc_scan_incref_child assert
  keep p s0 =
      let s = assert (ltb 0 (s0.ref_count p)) s0 in
      mark_children gc_scan_incref_child (record s { mark = update s.mark p 0 }) (contents p)

  -- The loop over the list, which grows at its end, from the place `i` on; `none` is a lack of
  -- fuel.
  pub scan_loop : ℕ → ℕ → GcState → Option GcState
  unfolding keep
  scan_loop zero i s = none
  scan_loop (suc fuel) i s = elim (get_elem? s.gc_obj_list i) [
    | none ↦ some s
    | some p ↦ scan_loop fuel (i + 1) (keep p s)
  ]

  -- The loop over the objects to be deleted.
  pub restore_loop : List ℕ → GcState → GcState
  unfolding mark_children gc_scan_incref_child2
  restore_loop [] s = s
  restore_loop (p ∷ rest) s = restore_loop rest (mark_children gc_scan_incref_child2 s (contents p))

  unfoldable pub gc_scan : ℕ → GcState → Option GcState
  unfolding scan_loop restore_loop
  gc_scan fuel s = elim (scan_loop fuel 0 s) [
    | none ↦ none
    | some t ↦ some (restore_loop t.tmp_obj_list t)
  ]

  -- `JS_RunGC` up to `gc_free_cycles`. There is a round for each object, and the last test.
  unfoldable pub find_garbage : GcState → Option GcState
  unfolding gc_decref gc_scan
  find_garbage s = gc_scan (length s.gc_obj_list + 1) (gc_decref s)
