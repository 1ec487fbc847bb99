-- ===== src/Runtime/Promises/Settling.antt =====
-- A promise is settled once, and its reactions become jobs in the order of the calls.
use quick_js_swift.Base.{
  ◌≡◌, ◌⊎◌, refl, sym, ap, ◌∙◌, inl, inr, List, [], ◌∷◌, ◌++◌, Bool, true, false, ◌&&◌, not,
  if◌then◌else◌, Bool-cases, map,
}
use mathlib.Core.List.{append_assoc, append-nil}
use quick_js_swift.Runtime.Jobs.{JobEntry, Runtime, Engine}
use quick_js_swift.Runtime.Jobs.Order.{Grants, enqueued}
use quick_js_swift.Runtime.Promises.{
  PromiseState, by_state, fulfilled, rejected, ReactionData, PromiseData, Host, enqueue_reaction,
  freed, tracked, fulfill_or_reject_promise, reaction, dup_reaction, react, then_with,
  perform_promise_then,
}

-- The arguments of `perform_promise_then`: the functions given to `then`, and those that resolve
-- and reject what it returned.
abbrev pub Then : Type 0 → Type 0
Then V = (V × V) × (V × V)

-- What may happen to a promise.
pub data Call (V : Type 0) : Type 0 where
  on_then : Then V → Call V
  on_settle : V → Bool → Call V

module _ {W C V F : Type 0} (engine : Engine W C V F) (host : Host W C V F) (ctx : C)
    (promise : V) where
  abbrev pub State : Type 0
  State = PromiseData V × Runtime W C V F

  unfoldable pub step : State → Call V → State
  step (s, rt) (on_then t) = (perform_promise_then engine host ctx promise t.0 t.1 s rt).0
  step (s, rt) (on_settle v is_reject) =
      fulfill_or_reject_promise engine host ctx promise v is_reject s rt

  unfoldable pub run : State → List (Call V) → State
  unfolding step
  run state [] = state
  run state (c ∷ calls) = run (step state c) calls

  abbrev pub settled_as : Bool → PromiseState
  settled_as is_reject = if is_reject then rejected else fulfilled

  -- The second of two things for a settled promise, or the third.
  by_settled :
      {A : Type 0} (is_reject : Bool) (p : PromiseState) (x y z : A)
      → p ≡ settled_as is_reject
      → by_state p x y z ≡ (if is_reject then z else y)
  unfolding by_state
  by_settled true p x y z e = ap (λ (q : PromiseState). by_state q x y z) e
  by_settled false p x y z e = ap (λ (q : PromiseState). by_state q x y z) e

  settle_again :
      (is_reject : Bool) (s : PromiseData V) (rt : Runtime W C V F) (v : V) (r : Bool)
      → s.promise_state ≡ settled_as is_reject
      → step (s, rt) (on_settle v r) ≡ (s, rt)
  unfolding step fulfill_or_reject_promise
  settle_again true s rt v r e = by_settled true s.promise_state _ (s, rt) (s, rt) e
  settle_again false s rt v r e = by_settled false s.promise_state _ (s, rt) (s, rt) e

  -- What `then` does to a settled promise, with memory for it.
  then_settled :
      (is_reject : Bool) (s : PromiseData V) (rt : Runtime W C V F) (rd0 rd1 : ReactionData V)
      → s.promise_state ≡ settled_as is_reject
      → then_with engine host ctx promise rd0 rd1 s rt
        ≡ (record s { is_handled = true }, react engine host ctx promise rd0 rd1 is_reject s rt)
  unfolding then_with
  then_settled true s rt rd0 rd1 e = by_settled true s.promise_state _ _ _ e
  then_settled false s rt rd0 rd1 e = by_settled false s.promise_state _ _ _ e

  abbrev pub first : Then V → ReactionData V
  first t = reaction engine host t.1.0 t.1.1 t.0.0

  abbrev pub second : Then V → ReactionData V
  second t = reaction engine host t.1.0 t.1.1 t.0.1

  -- The runtime in which both reactions have been made.
  pub made : Runtime W C V F → Then V → Runtime W C V F
  made rt t =
      let rt0 =
        dup_reaction engine host (record rt { world = (host.malloc_reaction rt.world).0 })
          (first t) in
      dup_reaction engine host (record rt0 { world = (host.malloc_reaction rt0.world).0 })
        (second t)

  pub made_list : (rt : Runtime W C V F) (t : Then V) → (made rt t).job_list ≡ rt.job_list
  unfolding made dup_reaction
  made_list rt t = refl

  both_given :
      (g0 g1 : Bool) (a b d : State × Bool)
      → g0 ≡ true
      → g1 ≡ true
      → (if not g0 then a else if not g1 then b else d) ≡ d
  both_given g0 g1 a b d one two = rw (one, two) refl

  none_given : (g0 : Bool) (a x : State × Bool) → g0 ≡ false → (if not g0 then a else x) ≡ a
  none_given g0 a x no_first = rw no_first refl

  one_given :
      (g0 g1 : Bool) (a b d : State × Bool)
      → g0 ≡ true
      → g1 ≡ false
      → (if not g0 then a else if not g1 then b else d) ≡ b
  one_given g0 g1 a b d one two = rw (one, two) refl

  -- `then` makes both reactions, or it is refused and leaves the promise.
  then_cases :
      (s : PromiseData V) (rt : Runtime W C V F) (t : Then V)
      → (step (s, rt) (on_then t)
          ≡ then_with engine host ctx promise (first t) (second t) s (made rt t))
        ⊎ ((step (s, rt) (on_then t)).0 ≡ s)
  unfolding step perform_promise_then made dup_reaction reaction
  then_cases s rt t =
      let rt0 =
        dup_reaction engine host (record rt { world = (host.malloc_reaction rt.world).0 })
          (first t) in
      elim (Bool-cases (host.malloc_reaction rt.world).1) [
        | inr no_first ↦ inr (ap (λ (q : State × Bool). q.0.0) (none_given _ _ _ no_first))
        | inl one ↦ elim (Bool-cases (host.malloc_reaction rt0.world).1) [
          | inr no_second ↦
              inr (ap (λ (q : State × Bool). q.0.0) (one_given _ _ _ _ _ one no_second))
          | inl two ↦ inl (ap (λ (q : State × Bool). q.0) (both_given _ _ _ _ _ one two))
        ]
      ]

  -- There is memory for every reaction.
  abbrev pub Gives : Type 0
  Gives = (w : W) → (host.malloc_reaction w).1 ≡ true

  pub then_given :
      Gives
      → (s : PromiseData V) (rt : Runtime W C V F) (t : Then V)
      → step (s, rt) (on_then t)
        ≡ then_with engine host ctx promise (first t) (second t) s (made rt t)
  unfolding step perform_promise_then made dup_reaction reaction
  then_given gives s rt t =
      let rt0 =
        dup_reaction engine host (record rt { world = (host.malloc_reaction rt.world).0 })
          (first t) in
      ap (λ (q : State × Bool). q.0) (both_given _ _ _ _ _ (gives rt.world) (gives rt0.world))

  settled_step :
      (is_reject : Bool) (s : PromiseData V) (rt : Runtime W C V F) (c : Call V)
      → s.promise_state ≡ settled_as is_reject
      → ((step (s, rt) c).0.promise_state ≡ settled_as is_reject)
        × ((step (s, rt) c).0.promise_result ≡ s.promise_result)
  settled_step is_reject s rt (on_settle v r) e =
      let same = settle_again is_reject s rt v r e in
      (ap (λ (q : State). q.0.promise_state) same ∙ e, ap (λ (q : State). q.0.promise_result) same)
  settled_step is_reject s rt (on_then t) e = elim (then_cases s rt t) [
    | inl made_both ↦
        let q = made_both ∙ then_settled is_reject s (made rt t) (first t) (second t) e in
        (ap (λ (q : State). q.0.promise_state) q ∙ e, ap (λ (q : State). q.0.promise_result) q)
    | inr refused ↦ (
      ap (λ (p : PromiseData V). p.promise_state) refused ∙ e,
      ap (λ (p : PromiseData V). p.promise_result) refused,
    )
  ]

  -- A settled promise stays as it is settled, with its result, through any calls and whether or
  -- not there is memory for them.
  pub settled-run :
      (is_reject : Bool) (s : PromiseData V) (rt : Runtime W C V F) (calls : List (Call V))
      → s.promise_state ≡ settled_as is_reject
      → ((run (s, rt) calls).0.promise_state ≡ settled_as is_reject)
        × ((run (s, rt) calls).0.promise_result ≡ s.promise_result)
  unfolding run
  settled-run is_reject s rt [] e = (e, refl)
  settled-run is_reject s rt (c ∷ calls) e =
      let (now, same) = settled_step is_reject s rt c e in
      let r = step (s, rt) c in
      let (at, kept) = settled-run is_reject r.0 r.1 calls now in (at, kept ∙ same)

  -- The job for a reaction to `v`.
  abbrev pub job_of : Bool → V → Then V → JobEntry C V F
  job_of is_reject v t =
      let rd = if is_reject then second t else first t in
      record {
        ctx = ctx;
        job_func = host.promise_reaction_job;
        argv = rd.resolve ∷ rd.reject ∷ rd.handler ∷ host.new_bool is_reject ∷ v ∷ [];
      }

  -- The calls of `then` among others.
  abbrev pub thens : List (Call V) → List (Then V)
  thens [] = []
  thens (on_then t ∷ calls) = t ∷ thens calls
  thens (on_settle v r ∷ calls) = thens calls

  -- The tracker of the host leaves the job queue.
  abbrev pub LeavesQueue : Type 0
  LeavesQueue =
      (rt : Runtime W C V F) (reason : V) (handled : Bool)
      → (tracked engine host host.rejection_tracker rt ctx promise reason handled).job_list
        ≡ rt.job_list

  pub told_or_not :
      (b : Bool) (told rt : Runtime W C V F)
      → told.job_list ≡ rt.job_list
      → (if b then told else rt).job_list ≡ rt.job_list
  told_or_not true told rt e = e
  told_or_not false told rt e = refl

  react_list :
      Grants engine
      → LeavesQueue
      → (is_reject : Bool) (s : PromiseData V) (rt : Runtime W C V F) (t : Then V)
      → (react engine host ctx promise (first t) (second t) is_reject s rt).job_list
        ≡ rt.job_list ++ (job_of is_reject s.promise_result t ∷ [])
  unfolding react freed enqueue_reaction
  react_list grants quiet is_reject s rt t =
      let told = tracked engine host host.rejection_tracker rt ctx promise s.promise_result true in
      let rt1 = if is_reject && not s.is_handled then told else rt in
      enqueued engine grants rt1 (job_of is_reject s.promise_result t)
      ∙ ap (λ (l : List (JobEntry C V F)). l ++ (job_of is_reject s.promise_result t ∷ []))
          (told_or_not (is_reject && not s.is_handled) told rt (quiet rt s.promise_result true))

  -- A promise that is settled makes a job of each `then`, in their order.
  pub settled_jobs :
      Grants engine
      → LeavesQueue
      → Gives
      → (is_reject : Bool) (s : PromiseData V) (rt : Runtime W C V F) (calls : List (Call V))
      → s.promise_state ≡ settled_as is_reject
      → (run (s, rt) calls).1.job_list
        ≡ rt.job_list ++ map (job_of is_reject s.promise_result) (thens calls)
  unfolding run
  settled_jobs grants quiet gives is_reject s rt [] e = sym (append-nil rt.job_list)
  settled_jobs grants quiet gives is_reject s rt (on_settle v r ∷ calls) e =
      ap (λ (q : State). (run q calls).1.job_list) (settle_again is_reject s rt v r e)
      ∙ settled_jobs grants quiet gives is_reject s rt calls e
  settled_jobs grants quiet gives is_reject s rt (on_then t ∷ calls) e =
      let s1 : PromiseData V = record s { is_handled = true } in
      let rt1 = react engine host ctx promise (first t) (second t) is_reject s (made rt t) in
      let job = job_of is_reject s.promise_result in
      ap (λ (q : State). (run q calls).1.job_list)
        (then_given gives s rt t ∙ then_settled is_reject s (made rt t) (first t) (second t) e)
      ∙ settled_jobs grants quiet gives is_reject s1 rt1 calls e
      ∙ ap (λ (l : List (JobEntry C V F)). l ++ map job (thens calls))
          (react_list grants quiet is_reject s (made rt t) t
            ∙ ap (λ (l : List (JobEntry C V F)). l ++ (job t ∷ [])) (made_list rt t))
      ∙ append_assoc rt.job_list (job t ∷ []) (map job (thens calls))
