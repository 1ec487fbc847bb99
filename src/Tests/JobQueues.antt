-- ===== src/Tests/JobQueues.antt =====
-- A queue of jobs that enqueue others.
use quick_js_swift.Base.{ℕ, ◌+◌, ◌≡◌, refl, List, [], ◌∷◌, ◌++◌, true, some, ◌==◌}
use quick_js_swift.Runtime.Jobs.{JobEntry, Runtime, Engine}
use quick_js_swift.Runtime.Jobs.Order.{
  Enqueues, Grants, IsLog, run_jobs, enqueue_all, run_jobs-enqueue_all,
}

abbrev job : ℕ → JobEntry ℕ ℕ ℕ
job ctx = record { ctx = ctx; job_func = ctx + 10; argv = (ctx + 20) ∷ [] }

-- Each job enqueues one in the context of its number; 0 is the exception.
abbrev pub engine : Engine ℕ ℕ ℕ ℕ
engine = record {
  malloc_entry = λ w ctx n. (w + 1, true);
  free_entry = λ w ctx. w;
  dup_value = λ w v. w;
  free_value = λ w v. w;
  is_exception = λ v. v == 0;
  apply = λ f rt ctx argv. (record { job_list = rt.job_list ++ (job f ∷ []); world = rt.world }, f);
}

pub engine-Grants : Grants engine
engine-Grants w ctx n = refl

abbrev Log : Type 0
Log = List (ℕ × ℕ × List ℕ)

-- The same, with the calls of job functions as the world.
abbrev logging : Engine Log ℕ ℕ ℕ
logging = record {
  malloc_entry = λ w ctx n. (w, true);
  free_entry = λ w ctx. w;
  dup_value = λ w v. w;
  free_value = λ w v. w;
  is_exception = λ v. v == 0;
  apply = λ f rt ctx argv. (
    record { job_list = rt.job_list ++ (job f ∷ []); world = rt.world ++ ((f, ctx, argv) ∷ []) },
    f,
  );
}

logging-IsLog : IsLog logging (λ w. w)
logging-IsLog = record {
  applied = λ f rt ctx argv. refl;
  malloced = λ w ctx n. refl;
  freed_entry = λ w ctx. refl;
  dupped = λ w v. refl;
  freed = λ w v. refl;
}

logging-Enqueues : Enqueues logging
logging-Enqueues f rt ctx argv = (job f ∷ [], refl)

logging-Grants : Grants logging
logging-Grants w ctx n = refl

abbrev pending : Runtime Log ℕ ℕ ℕ
pending = record { job_list = job 1 ∷ job 2 ∷ job 3 ∷ []; world = [] }

run_jobs-enqueue_all_example :
    let r = run_jobs logging 4 (enqueue_all logging pending (job 4 ∷ [])) in
    (r.0.world ≡ (11, 1, 21 ∷ []) ∷ (12, 2, 22 ∷ []) ∷ (13, 3, 23 ∷ []) ∷ (14, 4, 24 ∷ []) ∷ [])
    × (r.1 ≡ some 1 ∷ some 2 ∷ some 3 ∷ some 4 ∷ [])
run_jobs-enqueue_all_example =
    run_jobs-enqueue_all logging (λ w. w) logging-IsLog logging-Enqueues logging-Grants pending
      (job 4 ∷ [])
