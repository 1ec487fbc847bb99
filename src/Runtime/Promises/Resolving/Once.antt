-- ===== src/Runtime/Promises/Resolving/Once.antt =====
-- The first call decides: what it does to the promise, and that no later call does more.
use quick_js_swift.Base.{
  ◌≡◌, refl, ap, ◌∙◌, List, [], ◌∷◌, Bool, true, false, ◌||◌, not, if◌then◌else◌, Bool-cases, inl,
  inr,
}
use quick_js_swift.Runtime.Jobs.{Runtime, Engine}
use quick_js_swift.Runtime.Promises.{
  PromiseState, pending, fulfilled, rejected, by_state, PromiseData, Host, settle,
  fulfill_or_reject_promise,
}
use quick_js_swift.Runtime.Promises.Resolving.{
  Resolving, Scripts, first_or, settle_now, fail_reject, enqueue_thenable, by_then, resolve_with,
  js_promise_resolve_function_call,
}

module _ {W C V F : Type 0} (engine : Engine W C V F) (host : Host W C V F)
    (scripts : Scripts W C V F) (ctx : C) (promise : V) where
  abbrev St : Type 0
  St = Resolving W C V F

  -- Calls of the two functions: which one, and the arguments.
  unfoldable pub call_each : St → List (Bool × List V) → St
  unfolding js_promise_resolve_function_call
  call_each st [] = st
  call_each st ((is_reject, argv) ∷ calls) =
      call_each (js_promise_resolve_function_call engine host scripts ctx promise is_reject argv st)
        calls

  -- While the flag is set, code that "then" runs neither clears it nor settles the promise.
  pub record KeepsPromise : Type 0 where
    pub flag :
        (st : St) (v : V)
        → st.already_resolved ≡ true
        → (scripts.get_then st ctx v).0.already_resolved ≡ true
    pub state :
        (st : St) (v : V)
        → st.already_resolved ≡ true
        → (scripts.get_then st ctx v).0.promise_data.promise_state ≡ st.promise_data.promise_state

  abbrev settle_it : V → Bool → St → St
  settle_it = settle_now engine host scripts ctx promise

  abbrev fail_it : St → St
  fail_it = fail_reject engine host scripts ctx promise

  abbrev then_of : St → V → St × V
  then_of st v = scripts.get_then st ctx v

  -- The ways in which a resolution with `v` goes on.
  data Way (v : V) (is_reject : Bool) (st : St) : St → Type 0 where
    at_once :
        (is_reject || not (scripts.is_object v)) ≡ true
        → Way v is_reject st (settle_it v is_reject st)
    itself :
        (is_reject || not (scripts.is_object v)) ≡ false
        → scripts.same_value v promise ≡ true
        → Way v is_reject st (
            fail_it (record st {
              runtime = record st.runtime { world = scripts.throw_type_error st.runtime.world ctx };
            }))
    thrown :
        (is_reject || not (scripts.is_object v)) ≡ false
        → scripts.same_value v promise ≡ false
        → engine.is_exception (then_of st v).1 ≡ true
        → Way v is_reject st (fail_it (then_of st v).0)
    no_function :
        (w : W)
        → (is_reject || not (scripts.is_object v)) ≡ false
        → scripts.same_value v promise ≡ false
        → engine.is_exception (then_of st v).1 ≡ false
        → not (host.is_function (then_of st v).1) ≡ true
        → Way v is_reject st (
            settle_it v false
              (record (then_of st v).0 { runtime = record (then_of st v).0.runtime { world = w } }))
    thenable :
        (is_reject || not (scripts.is_object v)) ≡ false
        → scripts.same_value v promise ≡ false
        → engine.is_exception (then_of st v).1 ≡ false
        → not (host.is_function (then_of st v).1) ≡ false
        → Way v is_reject st
            (enqueue_thenable engine host scripts ctx promise v (then_of st v).1 (then_of st v).0)

  resolve_with-Way :
      (v : V) (is_reject : Bool) (st : St)
      → Way v is_reject st (resolve_with engine host scripts ctx promise v is_reject st)
  unfolding resolve_with by_then
  resolve_with-Way v is_reject st =
      let (st2, th) = then_of st v in
      elim (Bool-cases (is_reject || not (scripts.is_object v))) [
        | inl plain ↦ rw plain (at_once plain)
        | inr other ↦ elim (Bool-cases (scripts.same_value v promise)) [
          | inl self ↦ rw (other, self) (itself other self)
          | inr no_self ↦ elim (Bool-cases (engine.is_exception th)) [
            | inl throws ↦ rw (other, no_self, throws) (thrown other no_self throws)
            | inr value ↦ elim (Bool-cases (not (host.is_function th))) [
              | inl none ↦
                  rw (other, no_self, value, none)
                    (no_function (engine.free_value st2.runtime.world th) other no_self value none)
              | inr function ↦
                  rw (other, no_self, value, function) (thenable other no_self value function)
            ]
          ]
        ]
      ]

  Way-flag :
      {v : V} {is_reject : Bool} {st t : St}
      → KeepsPromise
      → st.already_resolved ≡ true
      → Way v is_reject st t
      → t.already_resolved ≡ true
  unfolding settle_now fail_reject enqueue_thenable
  Way-flag keeps on (at_once _) = on
  Way-flag keeps on (itself _ _) = on
  Way-flag {v = v} {st = st} keeps on (thrown _ _ _) = keeps.flag st v on
  Way-flag {v = v} {st = st} keeps on (no_function w _ _ _ _) = keeps.flag st v on
  Way-flag {v = v} {st = st} keeps on (thenable _ _ _ _) = keeps.flag st v on

  abbrev call_it : Bool → List V → St → St
  call_it = js_promise_resolve_function_call engine host scripts ctx promise

  -- A call when the flag is not set.
  first_call :
      (is_reject : Bool) (argv : List V) (st : St)
      → st.already_resolved ≡ false
      → call_it is_reject argv st
        ≡ resolve_with engine host scripts ctx promise
            (first_or host.undefined argv)
            is_reject
            (record st { already_resolved = true })
  unfolding js_promise_resolve_function_call
  first_call is_reject argv st off =
      let now =
        resolve_with engine host scripts ctx promise (first_or host.undefined argv) is_reject
          (record st { already_resolved = true }) in
      ap (λ (b : Bool). if b then st else now) off

  -- A call when it is set does nothing.
  later_calls :
      (st : St) (calls : List (Bool × List V))
      → st.already_resolved ≡ true
      → call_each st calls ≡ st
  unfolding call_each js_promise_resolve_function_call
  later_calls st [] on = refl
  later_calls st ((is_reject, argv) ∷ calls) on =
      let now =
        resolve_with engine host scripts ctx promise (first_or host.undefined argv) is_reject
          (record st { already_resolved = true }) in
      ap (λ (b : Bool). call_each (if b then st else now) calls) on ∙ later_calls st calls on

  flag_after :
      KeepsPromise
      → (is_reject : Bool) (argv : List V) (st : St)
      → (call_it is_reject argv st).already_resolved ≡ true
  unfolding js_promise_resolve_function_call
  flag_after keeps is_reject argv st =
      let st1 = record st { already_resolved = true } in
      let now =
        resolve_with engine host scripts ctx promise (first_or host.undefined argv) is_reject st1 in
      elim (Bool-cases st.already_resolved) [
        | inl on ↦ ap (λ (b : Bool). (if b then st else now).already_resolved) on ∙ on
        | inr off ↦
            ap (λ (b : Bool). (if b then st else now).already_resolved) off
            ∙ Way-flag keeps refl (resolve_with-Way (first_or host.undefined argv) is_reject st1)
      ]

  -- Of any calls of the two functions, the first alone has an effect, on the promise, the job queue
  -- and the rest of the runtime, where the code that "then" runs keeps the flag once it is set.
  pub resolving_once :
      KeepsPromise
      → (st : St) (is_reject : Bool) (argv : List V) (calls : List (Bool × List V))
      → call_each st ((is_reject, argv) ∷ calls) ≡ call_it is_reject argv st
  unfolding call_each
  resolving_once keeps st is_reject argv calls =
      later_calls (call_it is_reject argv st) calls (flag_after keeps is_reject argv st)

  abbrev pub error_in : W → V
  error_in w = (scripts.get_exception w ctx).1

  -- What becomes of a pending promise, with its result.
  unfoldable pub expected : V → Bool → St → PromiseState × V
  expected v is_reject st =
      let (st2, th) = then_of st v in
      if is_reject || not (scripts.is_object v)
      then (if is_reject then rejected else fulfilled, v)
      else if scripts.same_value v promise
      then (rejected, error_in (scripts.throw_type_error st.runtime.world ctx))
      else if engine.is_exception th
      then (rejected, error_in st2.runtime.world)
      else if not (host.is_function th)
      then (fulfilled, v)
      else (pending, st2.promise_data.promise_result)

  abbrev pub seen : St → PromiseState × V
  seen st = (st.promise_data.promise_state, st.promise_data.promise_result)

  settled_seen :
      (v : V) (is_reject : Bool) (st : St)
      → st.promise_data.promise_state ≡ pending
      → seen (settle_it v is_reject st) ≡ (if is_reject then rejected else fulfilled, v)
  unfolding settle_now fulfill_or_reject_promise by_state settle
  settled_seen v is_reject st e =
      let s = st.promise_data in
      let done = settle engine host ctx promise v is_reject s st.runtime in
      let unsettled : PromiseData V × Runtime W C V F = (s, st.runtime) in
      ap
        (λ (q : PromiseState).
          let t = by_state q done unsettled unsettled in
          let pair : PromiseState × V = (t.0.promise_state, t.0.promise_result) in pair)
        e

  failed_seen :
      (st : St)
      → st.promise_data.promise_state ≡ pending
      → seen (fail_it st) ≡ (rejected, error_in st.runtime.world)
  unfolding fail_reject
  failed_seen st e =
      let (world, error) = scripts.get_exception st.runtime.world ctx in
      settled_seen error true (record st { runtime = record st.runtime { world = world } }) e

  Way-expected :
      {v : V} {is_reject : Bool} {st t : St}
      → KeepsPromise
      → st.already_resolved ≡ true
      → st.promise_data.promise_state ≡ pending
      → Way v is_reject st t
      → seen t ≡ expected v is_reject st
  unfolding expected enqueue_thenable
  Way-expected {v = v} {is_reject = r} {st = st} keeps on e (at_once a) =
      rw a (settled_seen v r st e)
  Way-expected {st = st} keeps on e (itself a b) =
      rw (a, b)
        (failed_seen
          (record st {
            runtime = record st.runtime { world = scripts.throw_type_error st.runtime.world ctx };
          })
          e)
  Way-expected {v = v} {st = st} keeps on e (thrown a b c) =
      rw (a, b, c) (failed_seen (then_of st v).0 (keeps.state st v on ∙ e))
  Way-expected {v = v} {st = st} keeps on e (no_function w a b c d) =
      rw (a, b, c, d)
        (settled_seen v false
          (record (then_of st v).0 { runtime = record (then_of st v).0.runtime { world = w } })
          (keeps.state st v on ∙ e))
  Way-expected {v = v} {st = st} keeps on e (thenable a b c d) =
      rw (a, b, c, d)
        (ap (λ (q : PromiseState). (q, (then_of st v).0.promise_data.promise_result))
          (keeps.state st v on ∙ e))

  -- A pending promise whose functions have not been called becomes, by the first call and whatever
  -- calls follow, what `expected` says: it is rejected with the argument of the second function, or
  -- fulfilled with that of the first if it is no object or its "then" no function; it is rejected
  -- with the exception if it is resolved with itself or "then" throws; and it stays pending if
  -- "then" is a function. The code that "then" runs must keep the flag, and the state while it is
  -- set.
  pub resolving_lem :
      KeepsPromise
      → (st : St) (is_reject : Bool) (argv : List V) (calls : List (Bool × List V))
      → st.already_resolved ≡ false
      → st.promise_data.promise_state ≡ pending
      → seen (call_each st ((is_reject, argv) ∷ calls))
        ≡ expected (first_or host.undefined argv) is_reject (record st { already_resolved = true })
  resolving_lem keeps st is_reject argv calls off e =
      let st1 = record st { already_resolved = true } in
      ap seen (resolving_once keeps st is_reject argv calls ∙ first_call is_reject argv st off)
      ∙ Way-expected keeps refl e (resolve_with-Way (first_or host.undefined argv) is_reject st1)
