-- ===== src/Runtime/Promises.antt =====
-- Promises: `JSPromiseData`, `fulfill_or_reject_promise` and `perform_promise_then` of
-- Sources/QuickJSC/quickjs.c, over the job queue. The promise is one that `JS_GetOpaque` finds.
pub mod Settling
pub mod Order
pub mod Resolving
use quick_js_swift.Base.{
  ℕ, List, [], ◌∷◌, ◌++◌, Bool, true, false, ◌&&◌, not, Option, none, some, if◌then◌else◌,
}
use quick_js_swift.Runtime.Jobs.{JobEntry, Runtime, Engine, js_enqueue_job}

pub data PromiseState : Type 0 where
  pending fulfilled rejected : PromiseState

-- The test of the state, with what is done in each.
pub by_state : {A : Type 0} → PromiseState → A → A → A → A
by_state pending x y z = x
by_state fulfilled x y z = y
by_state rejected x y z = z

-- `resolve` and `reject` are `resolving_funcs`.
pub record ReactionData (V : Type 0) : Type 0 where
  pub resolve : V
  pub reject : V
  pub handler : V

-- `fulfill_reactions` and `reject_reactions` are `promise_reactions`.
pub record PromiseData (V : Type 0) : Type 0 where
  pub promise_state : PromiseState
  pub fulfill_reactions : List (ReactionData V)
  pub reject_reactions : List (ReactionData V)
  pub is_handled : Bool
  pub promise_result : V

-- What promises call: JS_UNDEFINED, `JS_NewBool`, `JS_IsFunction`, `js_mallocz` of a reaction
-- (`false` is NULL) and `js_free_rt` of one, the function `promise_reaction_job`, and the
-- tracker of the host, if it has set one, which works on the runtime and not on the promise.
pub record Host (W C V F : Type 0) : Type 0 where
  pub undefined : V
  pub new_bool : Bool → V
  pub is_function : V → Bool
  pub malloc_reaction : W → W × Bool
  pub free_reaction : W → W
  pub promise_reaction_job : F
  pub rejection_tracker : Option (Runtime W C V F → C → V → V → Bool → Runtime W C V F)

module _ {W C V F : Type 0} (engine : Engine W C V F) (host : Host W C V F) where
  pub promise_reaction_data_free : W → ReactionData V → W
  promise_reaction_data_free world rd =
      let world1 = engine.free_value world rd.resolve in
      let world2 = engine.free_value world1 rd.reject in
      host.free_reaction (engine.free_value world2 rd.handler)

  -- A job for a reaction. What `JS_EnqueueJob` returns is not looked at.
  pub enqueue_reaction : Runtime W C V F → C → ReactionData V → Bool → V → Runtime W C V F
  enqueue_reaction rt ctx rd is_reject v =
      let args = rd.resolve ∷ rd.reject ∷ rd.handler ∷ host.new_bool is_reject ∷ v ∷ [] in
      (js_enqueue_job engine rt ctx host.promise_reaction_job args).0

  pub freed : Runtime W C V F → ReactionData V → Runtime W C V F
  unfolding promise_reaction_data_free
  freed rt rd = record rt { world = promise_reaction_data_free rt.world rd }

  -- The loop over the reactions of the kind that the promise is settled with.
  pub enqueue_loop : Runtime W C V F → C → List (ReactionData V) → Bool → V → Runtime W C V F
  unfolding enqueue_reaction freed
  enqueue_loop rt ctx [] is_reject v = rt
  enqueue_loop rt ctx (rd ∷ reactions) is_reject v =
      enqueue_loop (freed (enqueue_reaction rt ctx rd is_reject v) rd) ctx reactions is_reject v

  -- The loop over the other ones.
  pub free_loop : Runtime W C V F → List (ReactionData V) → Runtime W C V F
  unfolding freed
  free_loop rt [] = rt
  free_loop rt (rd ∷ reactions) = free_loop (freed rt rd) reactions

  unfoldable pub tracked :
      Option (Runtime W C V F → C → V → V → Bool → Runtime W C V F)
      → Runtime W C V F
      → C
      → V
      → V
      → Bool
      → Runtime W C V F
  tracked none rt ctx promise reason is_handled = rt
  tracked (some tracker) rt ctx promise reason is_handled = tracker rt ctx promise reason is_handled

  -- The promise is pending.
  pub settle : C → V → V → Bool → PromiseData V → Runtime W C V F → PromiseData V × Runtime W C V F
  unfolding enqueue_loop free_loop tracked
  settle ctx promise v is_reject s rt =
      let world = engine.free_value (engine.dup_value rt.world v) s.promise_result in
      let rt1 = record rt { world = world } in
      let told = tracked host.rejection_tracker rt1 ctx promise v false in
      let rt2 = if is_reject && not s.is_handled then told else rt1 in
      let mine = if is_reject then s.reject_reactions else s.fulfill_reactions in
      let others = if is_reject then s.fulfill_reactions else s.reject_reactions in
      (
        record s {
          promise_state = if is_reject then rejected else fulfilled;
          promise_result = v;
          fulfill_reactions = [];
          reject_reactions = [];
        },
        free_loop (enqueue_loop rt2 ctx mine is_reject v) others,
      )

  unfoldable pub fulfill_or_reject_promise :
      C → V → V → Bool → PromiseData V → Runtime W C V F → PromiseData V × Runtime W C V F
  unfolding settle by_state
  fulfill_or_reject_promise ctx promise v is_reject s rt =
      let done = settle ctx promise v is_reject s rt in
      by_state s.promise_state done (s, rt) (s, rt)

  -- A new reaction with its references.
  pub reaction : V → V → V → ReactionData V
  reaction resolve reject handler = record {
    resolve = resolve;
    reject = reject;
    handler = if host.is_function handler then handler else host.undefined;
  }

  pub dup_reaction : Runtime W C V F → ReactionData V → Runtime W C V F
  dup_reaction rt rd =
      let world1 = engine.dup_value (engine.dup_value rt.world rd.resolve) rd.reject in
      record rt { world = engine.dup_value world1 rd.handler }

  -- The promise is settled: a job for the reaction of its kind, with its result.
  pub react :
      C
      → V
      → ReactionData V
      → ReactionData V
      → Bool
      → PromiseData V
      → Runtime W C V F
      → Runtime W C V F
  unfolding enqueue_reaction freed tracked
  react ctx promise rd0 rd1 is_reject s rt =
      let told = tracked host.rejection_tracker rt ctx promise s.promise_result true in
      let rt1 = if is_reject && not s.is_handled then told else rt in
      let rd = if is_reject then rd1 else rd0 in
      freed (freed (enqueue_reaction rt1 ctx rd is_reject s.promise_result) rd0) rd1

  -- With both reactions.
  pub then_with :
      C
      → V
      → ReactionData V
      → ReactionData V
      → PromiseData V
      → Runtime W C V F
      → PromiseData V × Runtime W C V F
  unfolding react by_state
  then_with ctx promise rd0 rd1 s rt =
      let handled = record s { is_handled = true } in
      let waiting = record s {
        fulfill_reactions = s.fulfill_reactions ++ (rd0 ∷ []);
        reject_reactions = s.reject_reactions ++ (rd1 ∷ []);
        is_handled = true;
      } in
      by_state s.promise_state (waiting, rt) (handled, react ctx promise rd0 rd1 false s rt)
        (handled, react ctx promise rd0 rd1 true s rt)

  -- The promise, the runtime, and whether 0 (`true`) or -1 was returned.
  unfoldable pub perform_promise_then :
      C
      → V
      → V × V
      → V × V
      → PromiseData V
      → Runtime W C V F
      → (PromiseData V × Runtime W C V F) × Bool
  unfolding reaction dup_reaction then_with freed
  perform_promise_then ctx promise resolve_reject cap_resolving_funcs s rt =
      let rd0 = reaction cap_resolving_funcs.0 cap_resolving_funcs.1 resolve_reject.0 in
      let rd1 = reaction cap_resolving_funcs.0 cap_resolving_funcs.1 resolve_reject.1 in
      let (world0, granted0) = host.malloc_reaction rt.world in
      let rt0 = dup_reaction (record rt { world = world0 }) rd0 in
      let (world1, granted1) = host.malloc_reaction rt0.world in
      let rt1 = record rt0 { world = world1 } in
      let done = then_with ctx promise rd0 rd1 s (dup_reaction rt1 rd1) in
      if not granted0
      then ((s, record rt { world = world0 }), false)
      else if not granted1
      then ((s, freed rt1 rd0), false)
      else (done, true)
