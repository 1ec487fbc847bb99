-- ===== src/Runtime/Jobs.antt =====
-- The job queue: `JS_EnqueueJob`, `JS_IsJobPending` and `JS_ExecutePendingJob` of
-- Sources/QuickJSC/quickjs.c. Job functions, values and the heap are parameters.
pub mod Order
use quick_js_swift.Base.{
  ℕ, List, [], ◌∷◌, ◌++◌, Bool, true, false, Option, none, some, if◌then◌else◌, length,
}

-- Contexts `C`, values `V` and job functions `F`.
pub record JobEntry (C V F : Type 0) : Type 0 where
  pub ctx : C
  pub job_func : F
  pub argv : List V

-- `world` is all of the runtime but its job list.
pub record Runtime (W C V F : Type 0) : Type 0 where
  pub job_list : List (JobEntry C V F)
  pub world : W

-- What the queue calls: `js_malloc` for an entry of so many arguments (`false` is NULL),
-- `js_free` of an entry, `JS_DupValue`, `JS_FreeValue`, `JS_IsException` and the job functions,
-- which work on the whole runtime.
pub record Engine (W C V F : Type 0) : Type 0 where
  pub malloc_entry : W → C → ℕ → W × Bool
  pub free_entry : W → C → W
  pub dup_value : W → V → W
  pub free_value : W → V → W
  pub is_exception : V → Bool
  pub apply : F → Runtime W C V F → C → List V → Runtime W C V F × V

-- The return values 0, 1 and -1.
pub data Executed : Type 0 where
  no_job success exception : Executed

pub each : {W V : Type 0} → (W → V → W) → W → List V → W
each f w [] = w
each f w (v ∷ values) = each f (f w v) values

module _ {W C V F : Type 0} (engine : Engine W C V F) where
  -- The runtime, and whether 0 (`true`) or -1 was returned.
  pub js_enqueue_job : Runtime W C V F → C → F → List V → Runtime W C V F × Bool
  unfolding each
  js_enqueue_job rt ctx job_func argv =
      let (world, granted) = engine.malloc_entry rt.world ctx (length argv) in
      let e : JobEntry C V F = record { ctx = ctx; job_func = job_func; argv = argv } in
      let added : Runtime W C V F = record {
        job_list = rt.job_list ++ (e ∷ []);
        world = each engine.dup_value world argv;
      } in
      if granted then (added, true) else (record rt { world = world }, false)

  pub js_is_job_pending : Runtime W C V F → Bool
  js_is_job_pending rt = elim rt.job_list [ [] ↦ false | e ∷ _ ↦ true ]

  -- After the job function: its arguments, its result and the entry are freed.
  pub executed : JobEntry C V F → Runtime W C V F × V → Runtime W C V F × Executed × Option C
  unfolding each
  executed e (rt, res) =
      let world = engine.free_value (each engine.free_value rt.world e.argv) res in
      let ret = if engine.is_exception res then exception else success in
      (record rt { world = engine.free_entry world e.ctx }, ret, some e.ctx)

  -- The first of the jobs, which are those of `rt`.
  pub execute : Runtime W C V F → List (JobEntry C V F) → Runtime W C V F × Executed × Option C
  unfolding executed
  execute rt [] = (rt, no_job, none)
  execute rt (e ∷ rest) =
      executed e (engine.apply e.job_func (record rt { job_list = rest }) e.ctx e.argv)

  pub js_execute_pending_job : Runtime W C V F → Runtime W C V F × Executed × Option C
  unfolding execute
  js_execute_pending_job rt = execute rt rt.job_list
