-- ===== src/Collections/Map/Operations/Deletion.antt =====
-- `delete` and `clear` of a map on the list of its keys and values, and its size.
use quick_js_swift.Base.{
  ℕ, suc, ◌≡◌, ◌⊎◌, refl, sym, ap, ◌∙◌, inl, inr, List, [], ◌∷◌, Bool, true, false, not, ◌==◌,
  ==_iff, Option-cases, All, map, length,
}
use quick_js_swift.Collections.Map.{MapState, Engine, list_del, find_in, map_delete_record}
use quick_js_swift.Collections.Map.Chains.{
  In, Distinct-select, All-list_del, All-along, All-both, select-In, not_both, NotIn-list_del,
}
use quick_js_swift.Collections.Map.Shape.{live, is_live}
use quick_js_swift.Collections.Map.Records.{Deletes, map_delete_record-Deletes}
use quick_js_swift.Collections.Map.Contents.{
  remove, entry, entries, Hashes, In-find_in, remove_found, remove_absent,
}
use quick_js_swift.Collections.Map.Operations.{
  is_found, js_map_has, delete_found, js_map_delete, js_map_get_size,
}
use quick_js_swift.Collections.Map.Operations.Refinement.{HasKeys, Holds, found}

module _ {W V : Type 0} (engine : Engine W V) (IsKey : V → Type 0) where
  undo_not : (b : Bool) → not b ≡ true → b ≡ false
  undo_not true e = cc
  undo_not false e = refl

  keys_deleted :
      (s s' : MapState W V) (mr : ℕ)
      → Deletes engine s mr s'
      → Holds engine IsKey s
      → HasKeys engine IsKey s'.heap s'.records
  keys_deleted s s' mr (sound, gone, same) m =
      let rest = live s.heap s.records in
      let others =
        NotIn-list_del mr rest (Distinct-select (is_live s.heap) s.records m.sound.apart) in
      rw gone (
        All-along _ (λ (y : ℕ). IsKey (s'.heap y).key) (list_del mr rest)
          (All-both _ _ (list_del mr rest) others (All-list_del _ mr rest m.keys))
          (λ y b. rw (same y b.0) b.1))

  -- On a sound Map or Set whose keys have one hash where they are the same, `delete` of such a key keeps
  -- the map sound, takes the key out of the list of keys and values, where it was in it, and
  -- returns what `has` would have returned.
  pub js_map_delete_lem :
      (s : MapState W V) (arg0 : V)
      → s.is_weak ≡ false
      → Hashes engine IsKey
      → IsKey (engine.normalize_key arg0)
      → Holds engine IsKey s
      → Holds engine IsKey (js_map_delete engine s arg0).0
        × (entries (js_map_delete engine s arg0).0
            ≡ remove engine.same_value_zero (entries s) (engine.normalize_key arg0))
        × ((js_map_delete engine s arg0).1 ≡ js_map_has engine s arg0)
  unfolding js_map_delete delete_found js_map_has is_found
  js_map_delete_lem s arg0 strong law k m =
      let key = engine.normalize_key arg0 in
      let rest = live s.heap s.records in
      elim (Option-cases (find_in engine s.heap key rest)) [
        | inl absent ↦
            rw (found engine IsKey s key law k m ∙ absent)
              (m, sym (remove_absent engine s.heap key rest absent), refl)
        | inr (mr, present) ↦
            let (i, alive) =
              select-In (is_live s.heap) mr s.records
                (In-find_in engine s.heap key rest mr present) in
            let s' = map_delete_record engine s mr in
            let d = map_delete_record-Deletes engine s mr i (undo_not _ alive) m.sound in
            rw (found engine IsKey s key law k m ∙ present) (
              record { sound = d.0; keys = keys_deleted s s' mr d m },
              ap (map (entry s'.heap)) d.1
                  ∙ sym (
                      remove_found engine s.heap s'.heap key rest mr
                        (Distinct-select (is_live s.heap) s.records m.sound.apart) present d.2),
              refl,
            )
      ]

  -- The records that are still to be deleted are those that the rest of the loop comes to.
  abbrev Clears : List ℕ → MapState W V → Type 0
  Clears todo s =
      All (λ (y : ℕ). In y todo) (live s.heap s.records)
      × All (λ (y : ℕ). ((s.heap y).empty ≡ true) ⊎ In y (live s.heap s.records)) todo

  behind : (y mr : ℕ) (todo : List ℕ) → (y == mr) ≡ false → In y (mr ∷ todo) → In y todo
  behind y mr todo n (inl e) =
      absurd (not_both (y == mr) ((==_iff y mr).1 (sym ((==_iff mr y).0 e))) n)
  behind y mr todo n (inr k) = k

  -- The size of a sound map, which is its counter of records, is the number of its keys.
  pub js_map_get_size_lem :
      (s : MapState W V) → Holds engine IsKey s → js_map_get_size engine s ≡ length (entries s)
  unfolding js_map_get_size
  js_map_get_size_lem s m = m.sound.counted ∙ sym (length-map_entry (live s.heap s.records))
    where
      length-map_entry : (xs : List ℕ) → length (map (entry s.heap) xs) ≡ length xs
      length-map_entry [] = refl
      length-map_entry (x ∷ xs) = ap suc (length-map_entry xs)
