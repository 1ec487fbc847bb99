-- ===== src/Collections/Map/Shape.antt =====
-- What holds of the state of a map between calls, and that the functions on records keep it.
use quick_js_swift.Base.{
  ℕ, ◌+◌, ◌-◌, ◌*◌, ◌≤◌, ◌<◌, ◌≡◌, refl, sym, ap, ◌∙◌, inl, inr, List, [], ◌∷◌, ◌++◌, Bool, true,
  false, not, Option, none, some, ◌==◌, ==_iff, Bool-cases, if◌then◌else◌, length, length-append,
  arith, All,
}
use mathlib.Core.List.{append_assoc, append-nil}
use quick_js_swift.Collections.Map.{
  MapRecord, MapState, Engine, upd, list_del, index_of, rehash, resized_table, map_hash_resize,
}
use quick_js_swift.Collections.Map.Chains.{
  select, NotIn, Distinct, select-append, select_same, All-select, Distinct-select, NotIn-list_del,
  select-list_del, In, length-list_del, In-select, All-append_one, All-along, Distinct-append,
  upd_other, upd_here,
}

module _ {V : Type 0} where
  abbrev pub is_live : (ℕ → MapRecord V) → ℕ → Bool
  is_live heap mr = not (heap mr).empty

  -- The records that are not deleted, in the order of insertion.
  abbrev pub live : (ℕ → MapRecord V) → List ℕ → List ℕ
  live heap records = select (is_live heap) records

module _ {W V : Type 0} (engine : Engine W V) where
  abbrev pub stands_at : (ℕ → MapRecord V) → ℕ → ℕ → ℕ → Bool
  stands_at heap size h mr = index_of engine (heap mr).key size == h

  -- Each chain of the hash table has the records of its index, in the order of insertion.
  abbrev pub HasChains : (ℕ → List ℕ) → ℕ → (ℕ → MapRecord V) → List ℕ → Type 0
  HasChains table size heap records =
      (h : ℕ) → table h ≡ select (stands_at heap size h) (live heap records)

  -- The lists, the table and the counter fit each other.
  pub record IsShape (records : List ℕ) (count : ℕ) (table : ℕ → List ℕ) (size : ℕ)
      (heap : ℕ → MapRecord V) : Type 0 where
    pub has_table : 0 < size
    pub apart : Distinct records
    pub chains : HasChains table size heap records
    pub counted : count ≡ length (live heap records)
    pub held : All (λ (mr : ℕ). 1 ≤ (heap mr).ref_count) records

  abbrev pub IsSound : MapState W V → Type 0
  IsSound s = IsShape s.records s.record_count s.hash_table s.hash_size s.heap

  pushed :
      (heap : ℕ → MapRecord V) (size : ℕ) (table : ℕ → List ℕ) (records : List ℕ) (mr i h : ℕ)
      → (i == h) ≡ true
      → let rest = select (stands_at heap size h) (live heap records) in
        upd table i (table i ++ (mr ∷ [])) h ++ rest ≡ table h ++ (mr ∷ rest)
  pushed heap size table records mr i h here =
      let rest = select (stands_at heap size h) (live heap records) in
      let seen = upd_here table i (table i ++ (mr ∷ [])) h (ground (arith, here)) in
      ap (λ (l : List ℕ). l ++ rest) seen
      ∙ append_assoc (table i) (mr ∷ []) rest
      ∙ ap (λ (j : ℕ). table j ++ (mr ∷ rest)) ((==_iff i h).0 here)

  -- The loop of `map_hash_resize` puts each record at the end of its chain.
  rehash-HasChains :
      (heap : ℕ → MapRecord V) (size : ℕ) (table : ℕ → List ℕ) (records : List ℕ) (h : ℕ)
      → rehash engine heap size table records h
        ≡ table h ++ select (stands_at heap size h) (live heap records)
  unfolding rehash select upd
  rehash-HasChains heap size table [] h = sym (append-nil (table h))
  rehash-HasChains heap size table (mr ∷ records) h = elim (Bool-cases (heap mr).empty) [
    | inl dead ↦ rw (dead, rehash-HasChains heap size table records h) refl
    | inr alive ↦
        let i = index_of engine (heap mr).key size in
        let more = rehash-HasChains heap size (upd table i (table i ++ (mr ∷ []))) records h in
        elim (Bool-cases (i == h)) [
          | inl here ↦ rw (alive, here) (more ∙ pushed heap size table records mr i h here)
          | inr other ↦
              let unseen = upd_other table i (table i ++ (mr ∷ [])) h (ground (arith, other)) in
              rw (alive, other)
                (more
                  ∙ ap (λ (l : List ℕ). l ++ select (stands_at heap size h) (live heap records))
                      unseen)
        ]
  ]

  resized-IsSound :
      (s : MapState W V) (size : ℕ) (r : W × Option ℕ)
      → 0 < size
      → IsSound s
      → IsSound (resized_table engine s size r)
  unfolding resized_table
  resized-IsSound s size (world, none) h m = m
  resized-IsSound s size (world, some slack) h m = record {
    has_table = omega arith;
    apart = m.apart;
    chains = λ i. rehash-HasChains s.heap (size + slack) (λ j. []) s.records i;
    counted = m.counted;
    held = m.held;
  }

  pub map_hash_resize-IsSound : (s : MapState W V) → IsSound s → IsSound (map_hash_resize engine s)
  unfolding map_hash_resize
  map_hash_resize-IsSound s m =
      let new_size = if s.hash_size == 1 then 4 else s.hash_size * 2 in
      resized-IsSound s new_size (engine.realloc_table s.world new_size)
        (ground (arith, m.has_table)) m

  same_live :
      (heap heap' : ℕ → MapRecord V) (records : List ℕ)
      → All (λ (y : ℕ). heap' y ≡ heap y) records
      → live heap' records ≡ live heap records
  same_live heap heap' records same = select_same (is_live heap') (is_live heap) records (
      All-along _ (λ (y : ℕ). is_live heap' y ≡ is_live heap y) records same
        (λ y e. ap (λ (r : MapRecord V). not r.empty) e))

  -- Records that are not changed stand where they stood.
  same_stands :
      (heap heap' : ℕ → MapRecord V) (size : ℕ) (rest : List ℕ)
      → All (λ (y : ℕ). heap' y ≡ heap y) rest
      → (h : ℕ) → select (stands_at heap' size h) rest ≡ select (stands_at heap size h) rest
  same_stands heap heap' size rest same h =
      select_same (stands_at heap' size h) (stands_at heap size h) rest (
        All-along _ (λ (y : ℕ). stands_at heap' size h y ≡ stands_at heap size h y) rest same
          (λ y e. ap (λ (r : MapRecord V). index_of engine r.key size == h) e))

  pub held_upd :
      (heap : ℕ → MapRecord V) (mr : ℕ) (r : MapRecord V) (records : List ℕ)
      → 1 ≤ r.ref_count
      → All (λ (y : ℕ). 1 ≤ (heap y).ref_count) records
      → All (λ (y : ℕ). 1 ≤ (upd heap mr r y).ref_count) records
  held_upd heap mr r records one held =
      All-along _ (λ (y : ℕ). 1 ≤ (upd heap mr r y).ref_count) records held
        λ y h. elim (Bool-cases (y == mr)) [
          | inl here ↦ rw (upd_here heap mr r y here) one
          | inr other ↦ rw (upd_other heap mr r y other) h
        ]

  select_one : (p : ℕ → Bool) (x : ℕ) → p x ≡ true → select p (x ∷ []) ≡ x ∷ []
  unfolding select
  select_one p x e = rw e refl

  select_none : (p : ℕ → Bool) (x : ℕ) → p x ≡ false → select p (x ∷ []) ≡ []
  unfolding select
  select_none p x e = rw e refl

  -- A new record stands at the end of its chain.
  linked-HasChains :
      (table : ℕ → List ℕ) (size : ℕ) (heap' : ℕ → MapRecord V) (mr i h : ℕ) (rest : List ℕ)
      → table h ≡ select (stands_at heap' size h) rest
      → index_of engine (heap' mr).key size ≡ i
      → upd table i (table i ++ (mr ∷ [])) h ≡ select (stands_at heap' size h) (rest ++ (mr ∷ []))
  linked-HasChains table size heap' mr i h rest e at =
      let q = stands_at heap' size h in
      elim (Bool-cases (i == h)) [
        | inl here ↦
            upd_here table i (table i ++ (mr ∷ [])) h (ground (arith, here))
            ∙ ap (λ (j : ℕ). table j ++ (mr ∷ [])) ((==_iff i h).0 here)
            ∙ ap (λ (l : List ℕ). l ++ (mr ∷ [])) e
            ∙ sym (ap (λ (l : List ℕ). select q rest ++ l) (select_one q mr (rw at here)))
            ∙ sym (select-append q rest (mr ∷ []))
        | inr other ↦
            upd_other table i (table i ++ (mr ∷ [])) h (ground (arith, other))
            ∙ e
            ∙ sym (append-nil (select q rest))
            ∙ sym (ap (λ (l : List ℕ). select q rest ++ l) (select_none q mr (rw at other)))
            ∙ sym (select-append q rest (mr ∷ []))
      ]

  -- A new record is the last of those that are not deleted.
  pub live-linked :
      (records : List ℕ) (heap : ℕ → MapRecord V) (r : MapRecord V) (mr : ℕ)
      → NotIn mr records
      → r.empty ≡ false
      → live (upd heap mr r) (records ++ (mr ∷ [])) ≡ live heap records ++ (mr ∷ [])
  live-linked records heap r mr fresh alive =
      let heap' = upd heap mr r in
      let same =
        All-along _ (λ (y : ℕ). heap' y ≡ heap y) records fresh (λ y n. upd_other heap mr r y n) in
      let here : heap' mr ≡ r = upd_here heap mr r mr (ground arith) in
      select-append (is_live heap') records (mr ∷ [])
      ∙ ap (λ (l : List ℕ). l ++ select (is_live heap') (mr ∷ []))
          (same_live heap heap' records same)
      ∙ ap (λ (l : List ℕ). live heap records ++ l)
          (select_one (is_live heap') mr (rw here (ap not alive)))

  pub linked-IsShape :
      (records : List ℕ) (count : ℕ) (table : ℕ → List ℕ) (size : ℕ) (heap : ℕ → MapRecord V)
      (r : MapRecord V) (mr : ℕ)
      → NotIn mr records
      → r.empty ≡ false
      → 1 ≤ r.ref_count
      → IsShape records count table size heap
      → let h = index_of engine r.key size in
        IsShape
          (records ++ (mr ∷ []))
          (count + 1)
          (upd table h (table h ++ (mr ∷ [])))
          size
          (upd heap mr r)
  linked-IsShape records count table size heap r mr fresh alive one m =
      let heap' = upd heap mr r in
      let same =
        All-along _ (λ (y : ℕ). heap' y ≡ heap y) records fresh (λ y n. upd_other heap mr r y n) in
      let here : heap' mr ≡ r = upd_here heap mr r mr (ground arith) in
      let more = live-linked records heap r mr fresh alive in
      let at : (h : ℕ) → table h ≡ select (stands_at heap' size h) (live heap records) = λ h.
        m.chains h
        ∙ sym (
            same_stands heap heap' size (live heap records)
              (All-select _ (is_live heap) records same) h) in
      record {
        has_table = m.has_table;
        apart = Distinct-append mr records fresh m.apart;
        chains = λ h.
            linked-HasChains table size heap' mr (index_of engine r.key size) h (live heap records)
              (at h) (ap (λ (x : MapRecord V). index_of engine x.key size) here)
            ∙ sym (ap (λ (l : List ℕ). select (stands_at heap' size h) l) more);
        counted = rw more (omega (arith, m.counted, length-append (live heap records) (mr ∷ [])));
        held = All-append_one _ records mr (held_upd heap mr r records one m.held) (rw here one);
      }

  pub deleted-IsShape :
      (records records' : List ℕ) (count : ℕ) (table : ℕ → List ℕ) (size : ℕ)
      (heap heap' : ℕ → MapRecord V) (mr : ℕ)
      → IsShape records count table size heap
      → In mr records
      → (heap mr).empty ≡ false
      → live heap' records' ≡ list_del mr (live heap records)
      → ((y : ℕ) → (y == mr) ≡ false → heap' y ≡ heap y)
      → Distinct records'
      → All (λ (y : ℕ). 1 ≤ (heap' y).ref_count) records'
      → IsShape records' (count - 1) (λ i. list_del mr (table i)) size heap'
        × (live heap' records' ≡ list_del mr (live heap records))
        × ((y : ℕ) → (y == mr) ≡ false → heap' y ≡ heap y)
  deleted-IsShape records records' count table size heap heap' mr m i alive e same d held = (
    record {
      has_table = m.has_table;
      apart = d;
      chains = λ h.
          let rest = live heap records in
          let others = NotIn-list_del mr rest (Distinct-select (is_live heap) records m.apart) in
          rw (m.chains h, e)
            (sym (
                select-list_del (stands_at heap size h) mr rest
                  (Distinct-select (is_live heap) records m.apart))
              ∙ select_same (stands_at heap size h) (stands_at heap' size h) (list_del mr rest) (
                  All-along _ (λ (y : ℕ). stands_at heap size h y ≡ stands_at heap' size h y)
                    (list_del mr rest) others
                    (λ y n.
                      ap (λ (r : MapRecord V). index_of engine r.key size == h) (sym (same y n)))));
      counted = rw e (
          omega (
            arith,
            m.counted,
            length-list_del mr (live heap records)
                (In-select (is_live heap) mr records i (ap not alive)),
          ));
      held = held;
    },
    e,
    same,
  )
