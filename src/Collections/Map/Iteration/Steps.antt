-- ===== src/Collections/Map/Iteration/Steps.antt =====
-- The record that an iterator comes to.
use quick_js_swift.Base.{
  ℕ, zero, suc, not, ◌-◌, ◌≤◌, ◌≡◌, refl, sym, ap, ◌∙◌, inl, inr, List, [], ◌∷◌, ◌++◌, Bool, true,
  false, Option, none, some, ◌==◌, ==_iff, Bool-cases, length, length-append, arith,
}
use mathlib.Core.List.{append_assoc}
use mathlib.Core.Path.{subst}
use quick_js_swift.Collections.Map.{
  MapRecord, MapState, Engine, upd, list_del, next_of, first_of, map_decref_record,
}
use quick_js_swift.Collections.Map.Chains.{
  select, NotIn, Distinct, Distinct-list_del, select_same, All-along, upd_other,
}
use quick_js_swift.Collections.Map.Shape.{live, is_live, IsSound}
use quick_js_swift.Collections.Map.Iteration.{
  MapIterator, skip_empty, advance, arrive, next_from, next_in, js_map_iterator_next,
}
use quick_js_swift.Collections.Map.Iteration.Arrival.{
  given_up, Arrives, arrive-Arrives, advance-given_up,
}

NotIn-middle : (x y : ℕ) (xs ys : List ℕ) → NotIn x (xs ++ (y ∷ ys)) → (y == x) ≡ false
NotIn-middle x y [] ys h = h.0
NotIn-middle x y (z ∷ xs) ys h = NotIn-middle x y xs ys h.1

-- What stands behind an address that is in a list once.
next_of-append :
    (xs : List ℕ) (y : ℕ) (ys : List ℕ)
    → Distinct (xs ++ (y ∷ ys))
    → next_of y (xs ++ (y ∷ ys)) ≡ first_of ys
unfolding next_of first_of
next_of-append [] y [] d = refl
next_of-append [] y (z ∷ ys) d =
    let itself : (y == y) ≡ true = (==_iff y y).1 refl in rw itself refl
next_of-append (x ∷ []) y ys d =
    let other : (x == y) ≡ false = ground (arith, d.0.0) in rw other (next_of-append [] y ys d.1)
next_of-append (x ∷ x' ∷ xs) y ys d =
    let apart = NotIn-middle x y (x' ∷ xs) ys d.0 in
    let other : (x == y) ≡ false = ground (arith, apart) in
    rw other (next_of-append (x' ∷ xs) y ys d.1)

NotIn-behind : (mr : ℕ) (xs ys : List ℕ) → Distinct (xs ++ (mr ∷ ys)) → NotIn mr ys
NotIn-behind mr [] ys d = d.0
NotIn-behind mr (x ∷ xs) ys d = NotIn-behind mr xs ys d.1

list_del-middle :
    (mr : ℕ) (xs ys : List ℕ)
    → Distinct (xs ++ (mr ∷ ys))
    → list_del mr (xs ++ (mr ∷ ys)) ≡ xs ++ ys
unfolding list_del
list_del-middle mr [] ys d =
    let itself : (mr == mr) ≡ true = (==_iff mr mr).1 refl in rw itself refl
list_del-middle mr (x ∷ xs) ys d =
    let apart = NotIn-middle x mr xs ys d.0 in
    let other : (x == mr) ≡ false = ground (arith, apart) in
    rw other (ap (λ (l : List ℕ). x ∷ l) (list_del-middle mr xs ys d.1))

module _ {W V : Type 0} (engine : Engine W V) (create_array : W → V → V → W × Option V) where
  -- Deleted records are passed over: the loop comes to the first of the rest that is not, or to
  -- the end, and the number of records is enough rounds for it.
  pub skip_empty_lem :
      (s : MapState W V) (passed rest : List ℕ) (fuel : ℕ)
      → Distinct s.records
      → s.records ≡ passed ++ rest
      → length rest ≤ fuel
      → skip_empty engine create_array fuel s (first_of rest) ≡ first_of (live s.heap rest)
  unfolding skip_empty first_of select
  skip_empty_lem s passed [] zero d e h = refl
  skip_empty_lem s passed [] (suc fuel) d e h = refl
  skip_empty_lem s passed (y ∷ rest) zero d e h = absurd (omega arith)
  skip_empty_lem s passed (y ∷ rest) (suc fuel) d e h = elim (Bool-cases (s.heap y).empty) [
    | inl gone ↦
        let behind : next_of y s.records ≡ first_of rest =
          ap (next_of y) e ∙ next_of-append passed y rest (rw e at d) in
        rw (gone, behind)
          (skip_empty_lem s (passed ++ (y ∷ [])) rest fuel d
            (e ∙ sym (append_assoc passed (y ∷ []) rest)) (omega arith))
    | inr alive ↦ rw alive refl
  ]

  -- The records that an iterator has not come to: those behind its record, or all.
  abbrev pub Ahead : List ℕ → Option ℕ → List ℕ → Type 0
  Ahead records none rest = records ≡ rest
  Ahead records (some mr) rest = (passed : List ℕ) × (records ≡ passed ++ (mr ∷ rest))

  -- What `advance` leaves for the loop.
  abbrev Leads : (ℕ → MapRecord V) → List ℕ → MapState W V × Option ℕ → Type 0
  Leads heap rest (s', el) =
      (el ≡ first_of rest)
      × Distinct s'.records
      × (live s'.heap rest ≡ live heap rest)
      × ((passed : List ℕ) × (s'.records ≡ passed ++ rest))

  next_in-Leads :
      (s : MapState W V) (cur : Option ℕ) (rest : List ℕ)
      → Distinct s.records
      → Ahead s.records cur rest
      → Leads s.heap rest (advance engine create_array s cur)
  unfolding advance first_of map_decref_record
  next_in-Leads s none rest d a = (ap first_of a, d, refl, ([], a))
  next_in-Leads s (some mr) rest d (passed, e) =
      let behind : next_of mr s.records ≡ first_of rest =
        ap (next_of mr) e ∙ next_of-append passed mr rest (rw e at d) in
      let away : NotIn mr rest = NotIn-behind mr passed rest (rw e at d) in
      elim (Bool-cases ((s.heap mr).ref_count - 1 == 0)) [
        | inl last ↦ rw last (
          behind,
          Distinct-list_del mr s.records d,
          refl,
          (passed, ap (list_del mr) e ∙ list_del-middle mr passed rest (rw e at d)),
        )
        | inr locked ↦
            let less = record (s.heap mr) { ref_count = (s.heap mr).ref_count - 1 } in
            rw locked (
              behind,
              d,
              select_same (is_live (upd s.heap mr less)) (is_live s.heap) rest (
                  All-along _ (λ (y : ℕ). is_live (upd s.heap mr less) y ≡ is_live s.heap y) rest
                    away
                    (λ y n. ap (λ (r : MapRecord V). not r.empty) (upd_other s.heap mr less y n))),
              (passed ++ (mr ∷ []), e ∙ sym (append_assoc passed (mr ∷ []) rest)),
            )
      ]

  -- On a sound map, an iterator that is not at its end gives up its lock and goes on to the first
  -- record that is not deleted of `rest`, which are those behind its record, or all if it has none.
  -- It locks that record, and returns its key, its value or both, as its kind asks (an exception
  -- where there is no memory for both). If there is none it ends: it lets the map go, and `*pdone`
  -- is set.
  pub js_map_iterator_next_lem :
      (it : MapIterator V) (obj : V) (s : MapState W V) (is_set : Bool) (rest : List ℕ)
      → it.obj ≡ some obj
      → IsSound engine s
      → Ahead s.records it.cur_record rest
      → Arrives engine create_array it obj is_set
          (given_up engine create_array s it.cur_record)
          (first_of (live s.heap rest))
          (js_map_iterator_next engine create_array it s is_set)
  unfolding js_map_iterator_next next_in next_from
  js_map_iterator_next_lem it obj s is_set rest o m a =
      subst
        (λ (x : Option V).
          Arrives engine create_array it obj is_set (given_up engine create_array s it.cur_record)
            (first_of (live s.heap rest)) (next_in engine create_array it s is_set x))
        (sym o)
        (from (advance engine create_array s it.cur_record)
          (advance-given_up engine create_array s it.cur_record)
          (next_in-Leads s it.cur_record rest m.apart a))
    where
      from :
          (r : MapState W V × Option ℕ)
          → r.0 ≡ given_up engine create_array s it.cur_record
          → Leads s.heap rest r
          → Arrives engine create_array it obj is_set
              (given_up engine create_array s it.cur_record)
              (first_of (live s.heap rest))
              (next_from engine create_array it obj is_set r)
      from (s', el) up (at, d, same, (passed, e)) =
          let last = skip_empty engine create_array (length s'.records) s' el in
          let to : last ≡ first_of (live s.heap rest) =
            ap (skip_empty engine create_array (length s'.records) s') at
            ∙ skip_empty_lem s' passed rest (length s'.records) d e
                (omega (arith, ap length e, length-append passed rest))
            ∙ ap first_of same in
          let next = arrive engine create_array it obj is_set s' last in
          subst
            (λ (t : MapState W V).
              Arrives engine create_array it obj is_set t (first_of (live s.heap rest)) next)
            up
            (subst (λ (o : Option ℕ). Arrives engine create_array it obj is_set s' o next) to
              (arrive-Arrives engine create_array it obj is_set s' last))
