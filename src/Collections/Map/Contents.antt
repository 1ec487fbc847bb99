-- ===== src/Collections/Map/Contents.antt =====
-- A map as the list of its keys and values in the order of insertion, and what the functions on
-- records do to it.
use quick_js_swift.Base.{
  ℕ, ◌-◌, bit_and, ◌≡◌, refl, sym, ap, inl, inr, List, [], ◌∷◌, ◌++◌, Bool, true, false, Option,
  none, some, ◌==◌, ==_iff, Bool-cases, if◌then◌else◌, All, map,
}
use quick_js_swift.Collections.Map.{MapRecord, MapState, Engine, upd, list_del, index_of, find_in}
use quick_js_swift.Collections.Map.Chains.{
  select, Distinct, All-along, upd_other, upd_here, In, not_both,
}
use quick_js_swift.Collections.Map.Shape.{live, stands_at}

-- An association list whose keys are compared by SameValueZero.
module _ {V : Type 0} (same : V → V → Bool) where
  unfoldable pub lookup : List (V × V) → V → Option V
  lookup [] key = none
  lookup (e ∷ entries) key =
      let rest = lookup entries key in if same e.0 key then some e.1 else rest

  unfoldable pub put : List (V × V) → V → V → List (V × V)
  put [] key v = (key, v) ∷ []
  put (e ∷ entries) key v =
      let rest = put entries key v in if same e.0 key then (e.0, v) ∷ entries else e ∷ rest

  unfoldable pub remove : List (V × V) → V → List (V × V)
  remove [] key = []
  remove (e ∷ entries) key =
      let rest = remove entries key in if same e.0 key then entries else e ∷ rest

abbrev pub entry : {V : Type 0} → (ℕ → MapRecord V) → ℕ → V × V
entry heap mr = ((heap mr).key, (heap mr).value)

abbrev pub entries : {W V : Type 0} → MapState W V → List (V × V)
entries s = map (entry s.heap) (live s.heap s.records)

module _ {W V : Type 0} (engine : Engine W V) where
  -- Keys that are the same have one index.
  abbrev pub Hashes : (V → Type 0) → Type 0
  Hashes IsKey =
      (a b : V)
      → IsKey a
      → IsKey b
      → engine.same_value_zero a b ≡ true
      → engine.hash_key a ≡ engine.hash_key b

  some_inj : (x mr : ℕ) → some x ≡ some mr → x ≡ mr
  some_inj x mr e = cc

  not_none : (x : ℕ) → some x ≡ none → ⊥
  not_none x e = cc

  -- The first record of a chain is the first of all.
  pub find_in-select :
      (IsKey : V → Type 0) (heap : ℕ → MapRecord V) (size : ℕ) (key : V) (rest : List ℕ)
      → Hashes IsKey
      → IsKey key
      → All (λ (mr : ℕ). IsKey (heap mr).key) rest
      → find_in engine heap key
          (select (stands_at engine heap size (index_of engine key size)) rest)
        ≡ find_in engine heap key rest
  unfolding find_in select index_of
  find_in-select IsKey heap size key [] law k keys = refl
  find_in-select IsKey heap size key (mr ∷ rest) law k keys =
      let more = find_in-select IsKey heap size key rest law k keys.1 in
      elim (Bool-cases (engine.same_value_zero (heap mr).key key)) [
        | inl hit ↦
            let here : stands_at engine heap size (index_of engine key size) mr ≡ true =
              (==_iff _ _).1
                (ap (λ (h : ℕ). bit_and h (size - 1)) (law (heap mr).key key keys.0 k hit)) in
            rw (here, hit) refl
        | inr miss ↦ elim (Bool-cases (stands_at engine heap size (index_of engine key size) mr)) [
          | inl here ↦ rw (here, miss, more) refl
          | inr other ↦ rw (other, miss, more) refl
        ]
      ]

  -- A record that is found has the key.
  find_in_same :
      (heap : ℕ → MapRecord V) (key : V) (rest : List ℕ) (mr : ℕ)
      → find_in engine heap key rest ≡ some mr
      → engine.same_value_zero (heap mr).key key ≡ true
  unfolding find_in
  find_in_same heap key [] mr e = cc
  find_in_same heap key (x ∷ rest) mr e =
      elim (Bool-cases (engine.same_value_zero (heap x).key key)) [
        | inl hit ↦ rw (← some_inj x mr (rw hit at e)) hit
        | inr miss ↦ find_in_same heap key rest mr (rw miss at e)
      ]

  pub In-find_in :
      (heap : ℕ → MapRecord V) (key : V) (rest : List ℕ) (mr : ℕ)
      → find_in engine heap key rest ≡ some mr
      → In mr rest
  unfolding find_in
  In-find_in heap key [] mr e = cc
  In-find_in heap key (x ∷ rest) mr e =
      elim (Bool-cases (engine.same_value_zero (heap x).key key)) [
        | inl hit ↦ inl ((==_iff x mr).1 (some_inj x mr (rw hit at e)))
        | inr miss ↦ inr (In-find_in heap key rest mr (rw miss at e))
      ]

  miss_other :
      (heap : ℕ → MapRecord V) (key : V) (rest : List ℕ) (x mr : ℕ)
      → engine.same_value_zero (heap x).key key ≡ false
      → find_in engine heap key rest ≡ some mr
      → (x == mr) ≡ false
  miss_other heap key rest x mr miss e = elim (Bool-cases (x == mr)) [
    | inl here ↦
        let hit = find_in_same heap key rest mr e in
        let is_x = (==_iff x mr).0 here in
        absurd (not_both (engine.same_value_zero (heap x).key key) (rw is_x hit) miss)
    | inr other ↦ other
  ]

  abbrev pub value_at : (ℕ → MapRecord V) → Option ℕ → Option V
  value_at heap none = none
  value_at heap (some mr) = some (heap mr).value

  pub lookup-find_in :
      (heap : ℕ → MapRecord V) (key : V) (rest : List ℕ)
      → lookup engine.same_value_zero (map (entry heap) rest) key
        ≡ value_at heap (find_in engine heap key rest)
  unfolding lookup find_in
  lookup-find_in heap key [] = refl
  lookup-find_in heap key (mr ∷ rest) =
      elim (Bool-cases (engine.same_value_zero (heap mr).key key)) [
        | inl hit ↦ rw hit refl
        | inr miss ↦ rw miss (lookup-find_in heap key rest)
      ]

  pub entries_same :
      (heap heap' : ℕ → MapRecord V) (rest : List ℕ)
      → All (λ (y : ℕ). heap' y ≡ heap y) rest
      → map (entry heap') rest ≡ map (entry heap) rest
  entries_same heap heap' [] e = refl
  entries_same heap heap' (x ∷ rest) e = rw (e.0, entries_same heap heap' rest e.1) refl

  pub put_found :
      (heap : ℕ → MapRecord V) (key v : V) (rest : List ℕ) (mr : ℕ)
      → Distinct rest
      → find_in engine heap key rest ≡ some mr
      → put engine.same_value_zero (map (entry heap) rest) key v
        ≡ map (entry (upd heap mr (record (heap mr) { value = v }))) rest
  unfolding put find_in
  put_found heap key v [] mr d e = cc
  put_found heap key v (x ∷ rest) mr d e =
      elim (Bool-cases (engine.same_value_zero (heap x).key key)) [
        | inl hit ↦
            let is_x : x ≡ mr = some_inj x mr (rw hit at e) in
            let here = upd_here heap mr (record (heap mr) { value = v }) x ((==_iff x mr).1 is_x) in
            let others =
              All-along _ (λ (y : ℕ). upd heap mr (record (heap mr) { value = v }) y ≡ heap y) rest
                (rw is_x at d.0) (λ y n. upd_other heap mr (record (heap mr) { value = v }) y n) in
            rw
              (
                hit,
                here,
                entries_same heap (upd heap mr (record (heap mr) { value = v })) rest others,
                is_x,
              )
              refl
        | inr miss ↦
            let other = miss_other heap key rest x mr miss (rw miss at e) in
            let seen = upd_other heap mr (record (heap mr) { value = v }) x other in
            rw (miss, seen, put_found heap key v rest mr d.1 (rw miss at e)) refl
      ]

  pub put_new :
      (heap : ℕ → MapRecord V) (key v : V) (rest : List ℕ)
      → find_in engine heap key rest ≡ none
      → put engine.same_value_zero (map (entry heap) rest) key v
        ≡ map (entry heap) rest ++ ((key, v) ∷ [])
  unfolding put find_in
  put_new heap key v [] e = refl
  put_new heap key v (x ∷ rest) e = elim (Bool-cases (engine.same_value_zero (heap x).key key)) [
    | inl hit ↦ absurd (not_none x (rw hit at e))
    | inr miss ↦
        rw miss
          (ap (λ (l : List (V × V)). entry heap x ∷ l) (put_new heap key v rest (rw miss at e)))
  ]

  pub remove_found :
      (heap heap' : ℕ → MapRecord V) (key : V) (rest : List ℕ) (mr : ℕ)
      → Distinct rest
      → find_in engine heap key rest ≡ some mr
      → ((y : ℕ) → (y == mr) ≡ false → heap' y ≡ heap y)
      → remove engine.same_value_zero (map (entry heap) rest) key
        ≡ map (entry heap') (list_del mr rest)
  unfolding remove find_in list_del
  remove_found heap heap' key [] mr d e same = cc
  remove_found heap heap' key (x ∷ rest) mr d e same =
      elim (Bool-cases (engine.same_value_zero (heap x).key key)) [
        | inl hit ↦
            let is_x : x ≡ mr = some_inj x mr (rw hit at e) in
            let here : (x == mr) ≡ true = (==_iff x mr).1 is_x in
            let others = All-along _ (λ (y : ℕ). heap' y ≡ heap y) rest (rw is_x at d.0) same in
            rw (hit, here) (sym (entries_same heap heap' rest others))
        | inr miss ↦
            let other = miss_other heap key rest x mr miss (rw miss at e) in
            rw
              (
                miss,
                other,
                same x other,
                remove_found heap heap' key rest mr d.1 (rw miss at e) same,
              )
              refl
      ]

  pub remove_absent :
      (heap : ℕ → MapRecord V) (key : V) (rest : List ℕ)
      → find_in engine heap key rest ≡ none
      → remove engine.same_value_zero (map (entry heap) rest) key ≡ map (entry heap) rest
  unfolding remove find_in
  remove_absent heap key [] e = refl
  remove_absent heap key (x ∷ rest) e =
      elim (Bool-cases (engine.same_value_zero (heap x).key key)) [
        | inl hit ↦ absurd (not_none x (rw hit at e))
        | inr miss ↦ rw miss (
            ap (λ (l : List (V × V)). entry heap x ∷ l)
              (remove_absent heap key rest (rw miss at e)))
      ]
