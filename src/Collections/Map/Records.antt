-- ===== src/Collections/Map/Records.antt =====
-- The functions on records keep a map sound: what a new, a deleted or a changed record leaves.
use quick_js_swift.Base.{
  ℕ, ◌-◌, ◌*◌, ◌≤◌, ◌≡◌, refl, sym, ap, ◌∙◌, inl, inr, List, [], ◌∷◌, ◌++◌, true, false, not,
  Option, none, some, leb, ◌==◌, ==_iff, Bool-cases, if◌then◌else◌, arith,
}
use quick_js_swift.Collections.Map.{
  MapRecord, MapState, Engine, upd, list_del, index_of, resized_table, map_hash_resize, linked,
  added, map_delete_record,
}
use quick_js_swift.Collections.Map.Chains.{
  NotIn, select_same, All-list_del, Distinct-list_del, select-list_del, select_dropped, In,
  All-along, All-each, upd_other, upd_here,
}
use quick_js_swift.Collections.Map.Shape.{
  is_live, live, stands_at, IsSound, map_hash_resize-IsSound, held_upd, linked-IsShape,
  deleted-IsShape, IsShape,
}

module _ {W V : Type 0} (engine : Engine W V) where
  -- A new record at an address that is not in use.
  pub map_add_record-IsSound :
      (s : MapState W V) (key : V) (r : W × Option ℕ)
      → ((mr : ℕ) → r.1 ≡ some mr → NotIn mr s.records)
      → IsSound engine s
      → IsSound engine (added engine s key r).0
  unfolding added linked
  map_add_record-IsSound s key (world, none) fresh m = m
  map_add_record-IsSound s key (world, some mr) fresh m =
      let new : MapRecord V = record {
        ref_count = 1;
        empty = false;
        key = key;
        value = engine.undefined;
      } in
      let s1 = linked engine (record s { world = world }) key mr in
      let m1 : IsSound engine s1 =
        linked-IsShape engine s.records s.record_count s.hash_table s.hash_size s.heap new mr
          (fresh mr refl) refl (omega arith) m in
      elim (Bool-cases (leb s1.record_count_threshold s1.record_count)) [
        | inl full ↦ rw full (map_hash_resize-IsSound engine s1 m1)
        | inr room ↦ rw room m1
      ]

  -- A record that is deleted is gone from those that are not, and no other is changed.
  abbrev pub Deletes : MapState W V → ℕ → MapState W V → Type 0
  Deletes s mr s' =
      IsSound engine s'
      × (live s'.heap s'.records ≡ list_del mr (live s.heap s.records))
      × ((y : ℕ) → (y == mr) ≡ false → s'.heap y ≡ s.heap y)

  pub map_delete_record-Deletes :
      (s : MapState W V) (mr : ℕ)
      → In mr s.records
      → (s.heap mr).empty ≡ false
      → IsSound engine s
      → Deletes s mr (map_delete_record engine s mr)
  unfolding map_delete_record
  map_delete_record-Deletes s mr i alive m = elim (Bool-cases ((s.heap mr).ref_count - 1 == 0)) [
    | inl last ↦
        rw (alive, last)
          (deleted-IsShape engine s.records (list_del mr s.records) s.record_count s.hash_table
            s.hash_size s.heap s.heap mr m i alive
            (select-list_del (is_live s.heap) mr s.records m.apart) (λ y n. refl)
            (Distinct-list_del mr s.records m.apart) (All-list_del _ mr s.records m.held))
    | inr locked ↦
        let zombie : MapRecord V = record {
          ref_count = (s.heap mr).ref_count - 1;
          empty = true;
          key = engine.undefined;
          value = engine.undefined;
        } in
        let here : upd s.heap mr zombie mr ≡ zombie = upd_here s.heap mr zombie mr (ground arith) in
        rw (alive, locked)
          (deleted-IsShape engine s.records s.records s.record_count s.hash_table s.hash_size s.heap
            (upd s.heap mr zombie) mr m i alive
            (select_dropped (is_live s.heap) (is_live (upd s.heap mr zombie)) mr s.records m.apart
              (ap (λ (r : MapRecord V). not r.empty) here)
              (λ y n. ap (λ (r : MapRecord V). not r.empty) (upd_other s.heap mr zombie y n)))
            (λ y n. upd_other s.heap mr zombie y n) m.apart
            (held_upd engine s.heap mr zombie s.records (ground (arith, locked)) m.held))
  ]

  pub map_delete_record-IsSound :
      (s : MapState W V) (mr : ℕ)
      → In mr s.records
      → IsSound engine s
      → IsSound engine (map_delete_record engine s mr)
  map_delete_record-IsSound s mr i m = elim (Bool-cases (s.heap mr).empty) [
    | inl gone ↦ unfold map_delete_record in rw gone m
    | inr alive ↦ (map_delete_record-Deletes s mr i alive m).0
  ]

  -- A heap that differs in one value only.
  pub revalued_fields :
      (heap : ℕ → MapRecord V) (mr : ℕ) (v : V) (y : ℕ)
      → let r = upd heap mr (record (heap mr) { value = v }) y in
        (r.empty ≡ (heap y).empty) × (r.key ≡ (heap y).key) × (r.ref_count ≡ (heap y).ref_count)
  revalued_fields heap mr v y = elim (Bool-cases (y == mr)) [
    | inl here ↦
        let e = upd_here heap mr (record (heap mr) { value = v }) y here in
        let same : heap mr ≡ heap y = ap heap (sym ((==_iff y mr).0 here)) in
        (
          ap (λ (r : MapRecord V). r.empty) e ∙ ap (λ (r : MapRecord V). r.empty) same,
          ap (λ (r : MapRecord V). r.key) e ∙ ap (λ (r : MapRecord V). r.key) same,
          ap (λ (r : MapRecord V). r.ref_count) e ∙ ap (λ (r : MapRecord V). r.ref_count) same,
        )
    | inr other ↦
        let e = upd_other heap mr (record (heap mr) { value = v }) y other in
        (
          ap (λ (r : MapRecord V). r.empty) e,
          ap (λ (r : MapRecord V). r.key) e,
          ap (λ (r : MapRecord V). r.ref_count) e,
        )
  ]

  pub live_revalued :
      (heap : ℕ → MapRecord V) (mr : ℕ) (v : V) (records : List ℕ)
      → live (upd heap mr (record (heap mr) { value = v })) records ≡ live heap records
  live_revalued heap mr v records =
      let heap' = upd heap mr (record (heap mr) { value = v }) in
      select_same (is_live heap') (is_live heap) records
        (All-each _ records (λ y. ap not (revalued_fields heap mr v y).0))

  pub revalued-IsShape :
      (records : List ℕ) (count : ℕ) (table : ℕ → List ℕ) (size : ℕ) (heap : ℕ → MapRecord V)
      (mr : ℕ) (v : V)
      → IsShape engine records count table size heap
      → IsShape engine records count table size (upd heap mr (record (heap mr) { value = v }))
  revalued-IsShape records count table size heap mr v m =
      let heap' = upd heap mr (record (heap mr) { value = v }) in
      let alive = live_revalued heap mr v records in
      record {
        has_table = m.has_table;
        apart = m.apart;
        chains = λ h.
            rw (m.chains h, alive)
              (select_same (stands_at engine heap size h) (stands_at engine heap' size h)
                (live heap records)
                (All-each _ (live heap records) (λ y.
                  ap (λ (k : V). index_of engine k size == h)
                    (sym (revalued_fields heap mr v y).1))));
        counted = rw alive m.counted;
        held =
            All-along _ (λ (y : ℕ). 1 ≤ (heap' y).ref_count) records m.held
              (λ y h. rw (revalued_fields heap mr v y).2 h);
      }

  -- A new record at the end, with the key.
  abbrev pub Adds : MapState W V → V → ℕ → MapState W V × Option ℕ → Type 0
  Adds s key mr (s', r) =
      let new : MapRecord V = record {
        ref_count = 1;
        empty = false;
        key = key;
        value = engine.undefined;
      } in
      (r ≡ some mr) × (s'.heap ≡ upd s.heap mr new) × (s'.records ≡ s.records ++ (mr ∷ []))

  resized_same :
      (s : MapState W V) (size : ℕ) (r : W × Option ℕ)
      → ((resized_table engine s size r).heap ≡ s.heap)
        × ((resized_table engine s size r).records ≡ s.records)
  unfolding resized_table
  resized_same s size (w, none) = (refl, refl)
  resized_same s size (w, some slack) = (refl, refl)

  pub added-Adds :
      (s : MapState W V) (key : V) (w : W) (mr : ℕ)
      → Adds s key mr (added engine s key (w, some mr))
  unfolding added linked map_hash_resize
  added-Adds s key w mr =
      let s1 = linked engine (record s { world = w }) key mr in
      let new_size = if s1.hash_size == 1 then 4 else s1.hash_size * 2 in
      let same = resized_same s1 new_size (engine.realloc_table s1.world new_size) in
      elim (Bool-cases (leb s1.record_count_threshold s1.record_count)) [
        | inl full ↦ rw full (refl, same.0, same.1)
        | inr room ↦ rw room (refl, refl, refl)
      ]
