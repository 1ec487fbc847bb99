-- ===== src/Tests/Resolutions.antt =====
-- A promise between calls of its resolving functions. Values are numbers: those from 100 on are
-- objects, and the property "then" of an object is the number less 60; those from 50 on are
-- functions.
use quick_js_swift.Base.{ℕ, ◌+◌, ◌-◌, ◌≡◌, refl, [], ◌∷◌, true, false, leb, ◌==◌}
use quick_js_swift.Runtime.Promises.{fulfilled, rejected, Host}
use quick_js_swift.Runtime.Promises.Resolving.{
  Resolving, Scripts, first_or, js_promise_resolve_function_call,
}
use quick_js_swift.Runtime.Promises.Resolving.Once.{
  call_each, KeepsPromise, expected, seen, resolving_once, resolving_lem,
}
use quick_js_swift.Tests.JobQueues.{engine}
use quick_js_swift.Tests.Promises.{host, fresh, idle}

abbrev page : Host ℕ ℕ ℕ ℕ
page = record host { is_function = leb 50 }

abbrev scripts : Scripts ℕ ℕ ℕ ℕ
scripts = record {
  is_object = leb 100;
  same_value = λ v w. v == w;
  get_then = λ st ctx v. (st, v - 60);
  throw_type_error = λ w ctx. w + 1;
  get_exception = λ w ctx. (w, 7);
  resolve_thenable_job = 88;
}

scripts-KeepsPromise : KeepsPromise engine page scripts 1 200
scripts-KeepsPromise = record { flag = λ st v on. on; state = λ st v on. refl }

abbrev untouched : Resolving ℕ ℕ ℕ ℕ
untouched = record { promise_data = fresh; runtime = idle; already_resolved = false }

-- It is resolved with itself, and rejected after that.
itself : expected engine page scripts 1 200 200 false untouched ≡ (rejected, 7)
unfolding expected
itself = refl

resolving_once_example :
    call_each engine page scripts 1 200 untouched
      ((false, 115 ∷ []) ∷ (true, 5 ∷ []) ∷ (false, 101 ∷ []) ∷ [])
    ≡ js_promise_resolve_function_call engine page scripts 1 200 false (115 ∷ []) untouched
resolving_once_example =
    resolving_once engine page scripts 1 200 scripts-KeepsPromise untouched false (115 ∷ [])
      ((true, 5 ∷ []) ∷ (false, 101 ∷ []) ∷ [])

-- The "then" of 101 is no function.
resolving_lem_example :
    seen engine page scripts 1 200
      (call_each engine page scripts 1 200 untouched ((false, 101 ∷ []) ∷ (true, 5 ∷ []) ∷ []))
    ≡ (fulfilled, 101)
unfolding expected first_or
resolving_lem_example =
    resolving_lem engine page scripts 1 200 scripts-KeepsPromise untouched false (101 ∷ [])
      ((true, 5 ∷ []) ∷ []) refl refl
