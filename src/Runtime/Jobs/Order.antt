-- ===== src/Runtime/Jobs/Order.antt =====
-- Jobs run in the order in which they were enqueued.
use quick_js_swift.Base.{
  inl, inr, Bool-cases, ℕ, zero, suc, ◌≡◌, refl, sym, ap, ◌∙◌, List, [], ◌∷◌, ◌++◌, true, Option,
  some, length, map,
}
use mathlib.Core.List.{append_assoc, append-nil}
use quick_js_swift.Runtime.Jobs.{
  JobEntry, Runtime, Engine, js_enqueue_job, each, executed, execute, js_execute_pending_job,
}

module _ {W C V F : Type 0} (engine : Engine W C V F) where
  -- A job function may enqueue jobs, and does nothing else to the queue.
  abbrev pub Enqueues : Type 0
  Enqueues =
      (f : F) (rt : Runtime W C V F) (ctx : C) (argv : List V)
      → (new : List (JobEntry C V F)) × ((engine.apply f rt ctx argv).0.job_list
          ≡ rt.job_list ++ new)

  -- `n` calls of `JS_ExecutePendingJob`, and the contexts that they store in `*pctx`.
  unfoldable pub run_jobs : ℕ → Runtime W C V F → Runtime W C V F × List (Option C)
  run_jobs zero rt = (rt, [])
  run_jobs (suc n) rt =
      let r = js_execute_pending_job engine rt in
      let rest = run_jobs n r.0 in (rest.0, r.2 ∷ rest.1)

  -- The calls of job functions that the queue made in a world.
  abbrev pub Calls : Type 0
  Calls = List (F × C × List V)

  -- `log` is a record of these calls: each adds itself, and what else the queue calls adds nothing.
  pub record IsLog (log : W → Calls) : Type 0 where
    pub applied :
        (f : F) (rt : Runtime W C V F) (ctx : C) (argv : List V)
        → log (engine.apply f rt ctx argv).0.world ≡ log rt.world ++ ((f, ctx, argv) ∷ [])
    pub malloced : (w : W) (ctx : C) (n : ℕ) → log (engine.malloc_entry w ctx n).0 ≡ log w
    pub freed_entry : (w : W) (ctx : C) → log (engine.free_entry w ctx) ≡ log w
    pub dupped : (w : W) (v : V) → log (engine.dup_value w v) ≡ log w
    pub freed : (w : W) (v : V) → log (engine.free_value w v) ≡ log w

  -- Each job's function is called once, in the job's context and with its arguments.
  abbrev pub calls : List (JobEntry C V F) → Calls
  calls jobs = map (λ (e : JobEntry C V F). (e.job_func, e.ctx, e.argv)) jobs

  log-each :
      (log : W → Calls) (f : W → V → W)
      → ((w : W) (v : V) → log (f w v) ≡ log w)
      → (w : W) (values : List V) → log (each f w values) ≡ log w
  unfolding each
  log-each log f same w [] = refl
  log-each log f same w (v ∷ values) = log-each log f same (f w v) values ∙ same w v

  log-executed :
      (log : W → Calls)
      → IsLog log
      → (e : JobEntry C V F) (r : Runtime W C V F × V)
      → log (executed engine e r).0.world ≡ log r.0.world
  unfolding executed
  log-executed log is e (rt, res) =
      let after = each engine.free_value rt.world e.argv in
      is.freed_entry (engine.free_value after res) e.ctx
      ∙ is.freed after res
      ∙ log-each log engine.free_value is.freed rt.world e.argv

  log-execute :
      (log : W → Calls)
      → IsLog log
      → (rt : Runtime W C V F) (e : JobEntry C V F) (rest : List (JobEntry C V F))
      → rt.job_list ≡ e ∷ rest
      → log (js_execute_pending_job engine rt).0.world
        ≡ log rt.world ++ ((e.job_func, e.ctx, e.argv) ∷ [])
  unfolding js_execute_pending_job execute
  log-execute log is rt e rest has =
      let rt' : Runtime W C V F = record { job_list = rest; world = rt.world } in
      rw has (
        log-executed log is e (engine.apply e.job_func rt' e.ctx e.argv)
        ∙ is.applied e.job_func rt' e.ctx e.argv)

  abbrev pub contexts : List (JobEntry C V F) → List (Option C)
  contexts [] = []
  contexts (e ∷ jobs) = some e.ctx ∷ contexts jobs

  executed_list :
      (e : JobEntry C V F) (r : Runtime W C V F × V)
      → ((executed engine e r).0.job_list ≡ r.0.job_list) × ((executed engine e r).2 ≡ some e.ctx)
  unfolding executed
  executed_list e (rt, res) = (refl, refl)

  execute_first :
      Enqueues
      → (rt : Runtime W C V F) (e : JobEntry C V F) (rest : List (JobEntry C V F))
      → rt.job_list ≡ e ∷ rest
      → ((new : List (JobEntry C V F)) × ((js_execute_pending_job engine rt).0.job_list
            ≡ rest ++ new))
        × ((js_execute_pending_job engine rt).2 ≡ some e.ctx)
  unfolding js_execute_pending_job execute
  execute_first law rt e rest has =
      let step = law e.job_func (record { job_list = rest; world = rt.world }) e.ctx e.argv in
      let done =
        executed_list e
          (engine.apply e.job_func (record { job_list = rest; world = rt.world }) e.ctx e.argv) in
      rw has ((step.0, done.0 ∙ step.1), done.1)

  pub run_jobs_lem :
      (log : W → Calls)
      → IsLog log
      → Enqueues
      → (rt : Runtime W C V F) (jobs later : List (JobEntry C V F)) → rt.job_list ≡ jobs ++ later
      → let r = run_jobs (length jobs) rt in
        (log r.0.world ≡ log rt.world ++ calls jobs)
        × (r.1 ≡ contexts jobs)
        × ((new : List (JobEntry C V F)) × (r.0.job_list ≡ later ++ new))
  unfolding run_jobs
  run_jobs_lem log is law rt [] later has =
      (sym (append-nil (log rt.world)), refl, ([], has ∙ sym (append-nil later)))
  run_jobs_lem log is law rt (e ∷ jobs) later has =
      let first = execute_first law rt e (jobs ++ later) has in
      let rest =
        run_jobs_lem log is law (js_execute_pending_job engine rt).0 jobs (later ++ first.0.0)
          (first.0.1 ∙ append_assoc jobs later first.0.0) in
      let call : F × C × List V = (e.job_func, e.ctx, e.argv) in
      (
        rest.0
            ∙ ap (λ (l : Calls). l ++ calls jobs) (log-execute log is rt e (jobs ++ later) has)
            ∙ append_assoc (log rt.world) (call ∷ []) (calls jobs),
        ap (λ o. o ∷ (run_jobs (length jobs) (js_execute_pending_job engine rt).0).1) first.1
            ∙ ap (λ l. some e.ctx ∷ l) rest.1,
        (first.0.0 ++ rest.2.0, rest.2.1 ∙ append_assoc later first.0.0 rest.2.0),
      )

  -- `JS_EnqueueJob` for each of the jobs.
  unfoldable pub enqueue_all : Runtime W C V F → List (JobEntry C V F) → Runtime W C V F
  enqueue_all rt [] = rt
  enqueue_all rt (e ∷ jobs) = enqueue_all (js_enqueue_job engine rt e.ctx e.job_func e.argv).0 jobs

  -- There is memory for every entry.
  abbrev pub Grants : Type 0
  Grants = (w : W) (ctx : C) (n : ℕ) → (engine.malloc_entry w ctx n).1 ≡ true

  pub enqueued :
      Grants
      → (rt : Runtime W C V F) (e : JobEntry C V F)
      → (js_enqueue_job engine rt e.ctx e.job_func e.argv).0.job_list ≡ rt.job_list ++ (e ∷ [])
  unfolding js_enqueue_job
  enqueued grants rt e = rw (grants rt.world e.ctx (length e.argv))

  enqueue_all_list :
      Grants
      → (rt : Runtime W C V F) (jobs : List (JobEntry C V F))
      → (enqueue_all rt jobs).job_list ≡ rt.job_list ++ jobs
  unfolding enqueue_all
  enqueue_all_list grants rt [] = sym (append-nil rt.job_list)
  enqueue_all_list grants rt (e ∷ jobs) =
      enqueue_all_list grants (js_enqueue_job engine rt e.ctx e.job_func e.argv).0 jobs
      ∙ ap (λ l. l ++ jobs) (enqueued grants rt e)
      ∙ append_assoc rt.job_list (e ∷ []) jobs

  log-enqueue :
      (log : W → Calls)
      → IsLog log
      → (rt : Runtime W C V F) (e : JobEntry C V F)
      → log (js_enqueue_job engine rt e.ctx e.job_func e.argv).0.world ≡ log rt.world
  unfolding js_enqueue_job
  log-enqueue log is rt e =
      let m = engine.malloc_entry rt.world e.ctx (length e.argv) in
      let same = is.malloced rt.world e.ctx (length e.argv) in
      elim (Bool-cases m.1) [
        | inl granted ↦ rw granted (log-each log engine.dup_value is.dupped m.0 e.argv ∙ same)
        | inr refused ↦ rw refused same
      ]

  log-enqueue_all :
      (log : W → Calls)
      → IsLog log
      → (rt : Runtime W C V F) (jobs : List (JobEntry C V F))
      → log (enqueue_all rt jobs).world ≡ log rt.world
  unfolding enqueue_all
  log-enqueue_all log is rt [] = refl
  log-enqueue_all log is rt (e ∷ jobs) =
      log-enqueue_all log is (js_enqueue_job engine rt e.ctx e.job_func e.argv).0 jobs
      ∙ log-enqueue log is rt e

  -- With memory for every entry, jobs given to `JS_EnqueueJob` run, after those that were pending
  -- before, in the order in which they were given, and before any that they enqueue themselves:
  -- each job's function is called once, in its context and with its arguments.
  pub run_jobs-enqueue_all :
      (log : W → Calls)
      → IsLog log
      → Enqueues
      → Grants
      → (rt : Runtime W C V F) (jobs : List (JobEntry C V F))
      → let r = run_jobs (length (rt.job_list ++ jobs)) (enqueue_all rt jobs) in
        (log r.0.world ≡ log rt.world ++ calls (rt.job_list ++ jobs))
        × (r.1 ≡ contexts (rt.job_list ++ jobs))
  run_jobs-enqueue_all log is law grants rt jobs =
      let ran =
        run_jobs_lem log is law (enqueue_all rt jobs) (rt.job_list ++ jobs) []
          (enqueue_all_list grants rt jobs ∙ sym (append-nil (rt.job_list ++ jobs))) in
      (
        ran.0
            ∙ ap (λ (l : Calls). l ++ calls (rt.job_list ++ jobs)) (log-enqueue_all log is rt jobs),
        ran.1,
      )
