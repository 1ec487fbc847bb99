-- ===== src/Runtime/Promises/Order.antt =====
-- The jobs of a promise come in the order of the calls of `then`, whenever it is settled.
use quick_js_swift.Base.{
  ◌≡◌, refl, sym, ap, ◌∙◌, List, [], ◌∷◌, ◌++◌, Bool, true, false, ◌&&◌, not, if◌then◌else◌, map,
}
use mathlib.Core.List.{append_assoc, append-nil}
use quick_js_swift.Runtime.Jobs.{JobEntry, Runtime, Engine}
use quick_js_swift.Runtime.Jobs.Order.{Grants, enqueued}
use quick_js_swift.Runtime.Promises.{
  PromiseState, by_state, pending, ReactionData, PromiseData, Host, enqueue_reaction, freed,
  enqueue_loop, free_loop, tracked, settle, fulfill_or_reject_promise, then_with,
}
use quick_js_swift.Runtime.Promises.Settling.{
  Then, Call, on_then, on_settle, State, step, run, settled_as, first, second, made, made_list,
  Gives, then_given, job_of, thens, LeavesQueue, told_or_not, settled_jobs, settled-run,
}

map_append : {A B : Type 0} (f : A → B) (xs ys : List A) → map f (xs ++ ys) ≡ map f xs ++ map f ys
map_append f [] ys = refl
map_append f (x ∷ xs) ys = ap (λ (l : List _). f x ∷ l) (map_append f xs ys)

module _ {W C V F : Type 0} (engine : Engine W C V F) (host : Host W C V F) (ctx : C)
    (promise : V) where
  run-append :
      (q : State engine host ctx promise) (a b : List (Call V))
      → run engine host ctx promise q (a ++ b)
        ≡ run engine host ctx promise (run engine host ctx promise q a) b
  unfolding run
  run-append q [] b = refl
  run-append q (c ∷ a) b = run-append (step engine host ctx promise q c) a b

  free_loop_list :
      (rt : Runtime W C V F) (reactions : List (ReactionData V))
      → (free_loop engine host rt reactions).job_list ≡ rt.job_list
  unfolding free_loop freed
  free_loop_list rt [] = refl
  free_loop_list rt (rd ∷ reactions) = free_loop_list (freed engine host rt rd) reactions

  abbrev pick : Bool → Then V → ReactionData V
  pick r t = if r then second engine host ctx promise t else first engine host ctx promise t

  enqueue_loop_list :
      Grants engine
      → (rt : Runtime W C V F) (before : List (Then V)) (r : Bool) (v : V)
      → (enqueue_loop engine host rt ctx (map (pick r) before) r v).job_list
        ≡ rt.job_list ++ map (job_of engine host ctx promise r v) before
  unfolding enqueue_loop enqueue_reaction freed
  enqueue_loop_list grants rt [] r v = sym (append-nil rt.job_list)
  enqueue_loop_list grants rt (t ∷ before) r v =
      let job = job_of engine host ctx promise r v in
      let rt1 = freed engine host (enqueue_reaction engine host rt ctx (pick r t) r v) (pick r t) in
      enqueue_loop_list grants rt1 before r v
      ∙ ap (λ (l : List (JobEntry C V F)). l ++ map job before) (enqueued engine grants rt (job t))
      ∙ append_assoc rt.job_list (job t ∷ []) (map job before)

  -- The reactions that wait in a pending promise are those of the calls of `then`.
  abbrev pub Waits : List (Then V) → List (JobEntry C V F) → State engine host ctx promise → Type 0
  Waits before jobs (s, rt) =
      (s.promise_state ≡ pending)
      × (s.fulfill_reactions ≡ map (first engine host ctx promise) before)
      × (s.reject_reactions ≡ map (second engine host ctx promise) before)
      × (rt.job_list ≡ jobs)

  waiting : PromiseData V → Then V → PromiseData V
  waiting s t = record s {
    fulfill_reactions = s.fulfill_reactions ++ (first engine host ctx promise t ∷ []);
    reject_reactions = s.reject_reactions ++ (second engine host ctx promise t ∷ []);
    is_handled = true;
  }

  by_pending : {A : Type 0} (p : PromiseState) (x y z : A) → p ≡ pending → by_state p x y z ≡ x
  unfolding by_state
  by_pending p x y z e = ap (λ (q : PromiseState). by_state q x y z) e

  then_pending :
      Gives engine host ctx promise
      → (s : PromiseData V) (rt : Runtime W C V F) (t : Then V) → s.promise_state ≡ pending
      → step engine host ctx promise (s, rt) (on_then t)
        ≡ (waiting s t, made engine host ctx promise rt t)
  unfolding then_with by_state waiting
  then_pending gives s rt t e =
      then_given engine host ctx promise gives s rt t ∙ by_pending s.promise_state _ _ _ e

  waiting-Waits :
      (before : List (Then V)) (jobs : List (JobEntry C V F)) (s : PromiseData V)
      (rt : Runtime W C V F) (t : Then V)
      → Waits before jobs (s, rt)
      → Waits (before ++ (t ∷ [])) jobs (waiting s t, made engine host ctx promise rt t)
  unfolding waiting
  waiting-Waits before jobs s rt t (e, f, g, h) =
      let first_of = first engine host ctx promise in
      let second_of = second engine host ctx promise in
      (
        e,
        ap (λ (l : List (ReactionData V)). l ++ (first_of t ∷ [])) f
            ∙ sym (map_append first_of before (t ∷ [])),
        ap (λ (l : List (ReactionData V)). l ++ (second_of t ∷ [])) g
            ∙ sym (map_append second_of before (t ∷ [])),
        made_list engine host ctx promise rt t ∙ h,
      )

  along_step :
      {jobs : List (JobEntry C V F)} {q q' : State engine host ctx promise} {b b' : List (Then V)}
      (more : List (Then V))
      → q' ≡ q
      → b ≡ b'
      → Waits b jobs (run engine host ctx promise q (map on_then more))
      → Waits b' jobs (run engine host ctx promise q' (map on_then more))
  along_step more e f w = rw (e, ← f) w

  run-Waits :
      Gives engine host ctx promise
      → (before more : List (Then V)) (jobs : List (JobEntry C V F)) (s : PromiseData V)
        (rt : Runtime W C V F)
      → Waits before jobs (s, rt)
      → Waits (before ++ more) jobs (run engine host ctx promise (s, rt) (map on_then more))
  unfolding run
  run-Waits gives before [] jobs s rt w = rw (append-nil before) w
  run-Waits gives before (t ∷ more) jobs s rt w =
      along_step more (then_pending gives s rt t w.0) (append_assoc before (t ∷ []) more) (
        run-Waits gives (before ++ (t ∷ [])) more jobs (waiting s t)
          (made engine host ctx promise rt t) (waiting-Waits before jobs s rt t w))

  abbrev pub Settles :
      List (Then V) → List (JobEntry C V F) → V → Bool → State engine host ctx promise → Type 0
  Settles before jobs v r (s, rt) =
      (s.promise_state ≡ settled_as engine host ctx promise r)
      × (s.promise_result ≡ v)
      × (rt.job_list ≡ jobs ++ map (job_of engine host ctx promise r v) before)

  mine :
      (before : List (Then V)) (jobs : List (JobEntry C V F)) (s : PromiseData V)
      (rt : Runtime W C V F) (r : Bool)
      → Waits before jobs (s, rt)
      → (if r then s.reject_reactions else s.fulfill_reactions) ≡ map (pick r) before
  mine before jobs s rt true w = w.2
  mine before jobs s rt false w = w.1

  settle-Settles :
      Grants engine
      → LeavesQueue engine host ctx promise
      → (before : List (Then V)) (jobs : List (JobEntry C V F)) (s : PromiseData V)
        (rt : Runtime W C V F) (v : V) (r : Bool)
      → Waits before jobs (s, rt)
      → Settles before jobs v r (settle engine host ctx promise v r s rt)
  unfolding settle
  settle-Settles grants quiet before jobs s rt v r w =
      let rt1 = record rt {
        world = engine.free_value (engine.dup_value rt.world v) s.promise_result;
      } in
      let told = tracked engine host host.rejection_tracker rt1 ctx promise v false in
      let rt2 = if r && not s.is_handled then told else rt1 in
      let job = job_of engine host ctx promise r v in
      (
        refl,
        refl,
        free_loop_list
              (enqueue_loop engine host rt2 ctx
                (if r then s.reject_reactions else s.fulfill_reactions) r v)
              (if r then s.fulfill_reactions else s.reject_reactions)
            ∙ ap (λ (l : List (ReactionData V)). (enqueue_loop engine host rt2 ctx l r v).job_list)
                (mine before jobs s rt r w)
            ∙ enqueue_loop_list grants rt2 before r v
            ∙ ap (λ (l : List (JobEntry C V F)). l ++ map job before)
                (told_or_not engine host ctx promise (r && not s.is_handled) told rt1
                    (quiet rt1 v false)
                  ∙ w.3),
      )

  settled_now :
      (s : PromiseData V) (rt : Runtime W C V F) (v : V) (r : Bool)
      → s.promise_state ≡ pending
      → step engine host ctx promise (s, rt) (on_settle v r)
        ≡ settle engine host ctx promise v r s rt
  unfolding step fulfill_or_reject_promise
  settled_now s rt v r e = by_pending s.promise_state _ (s, rt) (s, rt) e

  after-Settles :
      Grants engine
      → LeavesQueue engine host ctx promise
      → Gives engine host ctx promise
      → (before : List (Then V)) (jobs : List (JobEntry C V F)) (v : V) (r : Bool)
      → (q : State engine host ctx promise) (after : List (Call V)) → Settles before jobs v r q
      → Settles
          (before ++ thens engine host ctx promise after)
          jobs
          v
          r
          (run engine host ctx promise q after)
  after-Settles grants quiet gives before jobs v r (s, rt) after (e, f, g) =
      let (now, same) = settled-run engine host ctx promise r s rt after e in
      let more = thens engine host ctx promise after in
      let job = job_of engine host ctx promise r v in
      (
        now,
        same ∙ f,
        settled_jobs engine host ctx promise grants quiet gives r s rt after e
            ∙ ap (λ (x : V). rt.job_list ++ map (job_of engine host ctx promise r x) more) f
            ∙ ap (λ (l : List (JobEntry C V F)). l ++ map job more) g
            ∙ append_assoc jobs (map job before) (map job more)
            ∙ ap (λ (l : List (JobEntry C V F)). jobs ++ l) (sym (map_append job before more)),
      )

  -- With memory for every reaction and job, and a tracker that leaves the queue, a pending promise
  -- without reactions that is settled between calls of `then` ends as it was settled first. One
  -- job for each call is added to the queue, in the order of the calls, for those before it was
  -- settled and those after it alike.
  pub run-Settles :
      Grants engine
      → LeavesQueue engine host ctx promise
      → Gives engine host ctx promise
      → (s : PromiseData V) (rt : Runtime W C V F) (before : List (Then V)) (v : V) (r : Bool)
        (after : List (Call V))
      → Waits [] rt.job_list (s, rt)
      → Settles
          (before ++ thens engine host ctx promise after)
          rt.job_list
          v
          r
          (run engine host ctx promise (s, rt) (map on_then before ++ (on_settle v r ∷ after)))
  unfolding run step
  run-Settles grants quiet gives s rt before v r after w =
      let q = run engine host ctx promise (s, rt) (map on_then before) in
      let w1 : Waits before rt.job_list q = run-Waits gives [] before rt.job_list s rt w in
      let now : Settles before rt.job_list v r (step engine host ctx promise q (on_settle v r)) =
        rw (settled_now q.0 q.1 v r w1.0)
          (settle-Settles grants quiet before rt.job_list q.0 q.1 v r w1) in
      rw (run-append (s, rt) (map on_then before) (on_settle v r ∷ after)) (
        after-Settles grants quiet gives before rt.job_list v r
          (step engine host ctx promise q (on_settle v r)) after now)
