-- ===== src/Runtime/Promises/Resolving.antt =====
-- The functions that resolve and reject a promise: `js_promise_resolve_function_call` of
-- Sources/QuickJSC/quickjs.c, for the two functions that `js_create_resolving_functions` makes for
-- one promise. They share the flag `already_resolved`; neither is freed yet.
pub mod Once
use quick_js_swift.Base.{ℕ, List, [], ◌∷◌, Bool, true, false, ◌||◌, not, if◌then◌else◌}
use quick_js_swift.Runtime.Jobs.{Runtime, Engine, js_enqueue_job}
use quick_js_swift.Runtime.Promises.{PromiseData, Host, fulfill_or_reject_promise}

-- The promise with the rest of the runtime, and the flag of its functions.
pub record Resolving (W C V F : Type 0) : Type 0 where
  pub promise_data : PromiseData V
  pub runtime : Runtime W C V F
  pub already_resolved : Bool

-- What the functions call: `JS_IsObject`, `js_same_value`, `JS_GetProperty` of "then", which may
-- run any code, `JS_ThrowTypeError`, `JS_GetException`, and the function
-- `js_promise_resolve_thenable_job`.
pub record Scripts (W C V F : Type 0) : Type 0 where
  pub is_object : V → Bool
  pub same_value : V → V → Bool
  pub get_then : Resolving W C V F → C → V → Resolving W C V F × V
  pub throw_type_error : W → C → W
  pub get_exception : W → C → W × V
  pub resolve_thenable_job : F

-- The first argument, if there is one.
unfoldable pub first_or : {V : Type 0} → V → List V → V
first_or undefined [] = undefined
first_or undefined (v ∷ _) = v

module _ {W C V F : Type 0} (engine : Engine W C V F) (host : Host W C V F)
    (scripts : Scripts W C V F) (ctx : C) (promise : V) where
  abbrev pub State : Type 0
  State = Resolving W C V F

  abbrev pub in_world : State → W → State
  in_world st world = record st { runtime = record st.runtime { world = world } }

  pub settle_now : V → Bool → State → State
  settle_now v is_reject st =
      let (after, rt) =
        fulfill_or_reject_promise engine host ctx promise v is_reject st.promise_data st.runtime in
      record st { promise_data = after; runtime = rt }

  -- `fail_reject`
  pub fail_reject : State → State
  fail_reject st =
      let (world, error) = scripts.get_exception st.runtime.world ctx in
      let rejected = settle_now error true (in_world st world) in
      in_world rejected (engine.free_value rejected.runtime.world error)

  -- The job for a thenable. What `JS_EnqueueJob` returns is not looked at.
  pub enqueue_thenable : V → V → State → State
  enqueue_thenable resolution method st =
      let args = promise ∷ resolution ∷ method ∷ [] in
      let rt = (js_enqueue_job engine st.runtime ctx scripts.resolve_thenable_job args).0 in
      let enqueued = record st { runtime = rt } in
      in_world enqueued (engine.free_value rt.world method)

  -- What is done with the property "then".
  pub by_then : V → State × V → State
  by_then resolution (st, method) =
      let freed = in_world st (engine.free_value st.runtime.world method) in
      if engine.is_exception method
      then fail_reject st
      else if not (host.is_function method)
      then settle_now resolution false freed
      else enqueue_thenable resolution method st

  -- The promise has not been resolved.
  pub resolve_with : V → Bool → State → State
  resolve_with resolution is_reject st =
      if is_reject || not (scripts.is_object resolution)
      then settle_now resolution is_reject st
      else if scripts.same_value resolution promise
      then fail_reject (in_world st (scripts.throw_type_error st.runtime.world ctx))
      else by_then resolution (scripts.get_then st ctx resolution)

  unfoldable pub js_promise_resolve_function_call : Bool → List V → State → State
  js_promise_resolve_function_call is_reject argv st =
      let now =
        resolve_with (first_or host.undefined argv) is_reject
          (record st { already_resolved = true }) in
      if st.already_resolved then st else now
