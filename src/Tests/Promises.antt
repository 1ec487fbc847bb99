-- ===== src/Tests/Promises.antt =====
-- A promise between calls of `then`. Values are numbers, the even ones functions; 0 is undefined.
use quick_js_swift.Base.{ℕ, ◌+◌, ◌≡◌, refl, [], ◌∷◌, true, false, some, if◌then◌else◌}
use quick_js_swift.Runtime.Jobs.{Runtime}
use quick_js_swift.Runtime.Promises.{pending, rejected, PromiseData, Host, tracked}
use quick_js_swift.Runtime.Promises.Settling.{
  Then, on_then, on_settle, run, settled-run, Gives, LeavesQueue,
}
use quick_js_swift.Runtime.Promises.Order.{Settles, run-Settles}
use quick_js_swift.Tests.JobQueues.{engine, engine-Grants}

-- The tracker of the host counts the rejections that nothing handles.
abbrev pub host : Host ℕ ℕ ℕ ℕ
host = record {
  undefined = 0;
  new_bool = λ b. if b then 1 else 2;
  is_function = λ v. true;
  malloc_reaction = λ w. (w + 1, true);
  free_reaction = λ w. w;
  promise_reaction_job = 77;
  rejection_tracker = some (λ rt ctx promise reason handled. record rt { world = rt.world + 1 });
}

abbrev pub fresh : PromiseData ℕ
fresh = record {
  promise_state = pending;
  fulfill_reactions = [];
  reject_reactions = [];
  is_handled = false;
  promise_result = 0;
}

abbrev done : PromiseData ℕ
done = record fresh { promise_state = rejected; promise_result = 5 }

abbrev pub idle : Runtime ℕ ℕ ℕ ℕ
idle = record { job_list = []; world = 0 }

abbrev call : ℕ → Then ℕ
call n = ((n + 10, n + 20), (n + 30, n + 40))

host-Gives : Gives engine host 1 9
host-Gives w = refl

host-LeavesQueue : LeavesQueue engine host 1 9
unfolding tracked
host-LeavesQueue rt reason handled = refl

settled-run_example :
    ((run engine host 1 9 (done, idle) (on_settle 6 false ∷ on_then (call 2) ∷ [])).0.promise_state
      ≡ rejected)
    × ((run engine host 1 9
          (done, idle)
          (on_settle 6 false ∷ on_then (call 2) ∷ [])).0.promise_result
        ≡ 5)
settled-run_example =
    settled-run engine host 1 9 true done idle (on_settle 6 false ∷ on_then (call 2) ∷ []) refl

run-Settles_example : Settles engine host 1 9 (call 1 ∷ call 2 ∷ call 3 ∷ []) [] 8 true (
    run engine host 1 9
      (fresh, idle)
      (on_then (call 1)
        ∷ on_then (call 2)
        ∷ on_settle 8 true
        ∷ on_settle 4 false
        ∷ on_then (call 3)
        ∷ []))
run-Settles_example =
    run-Settles engine host 1 9 engine-Grants host-LeavesQueue host-Gives fresh idle
      (call 1 ∷ call 2 ∷ []) 8 true (on_settle 4 false ∷ on_then (call 3) ∷ [])
      (refl, refl, refl, refl)
