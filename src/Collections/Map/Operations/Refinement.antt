-- ===== src/Collections/Map/Operations/Refinement.antt =====
-- The methods of a map do to its keys and values what an association list in the order of
-- insertion does.
use quick_js_swift.Base.{
  ℕ, ◌≡◌, ◌⊎◌, refl, sym, ap, ◌∙◌, inl, inr, List, [], ◌∷◌, ◌++◌, Bool, true, false, ◌&&◌, not,
  Option, none, some, ◌==◌, ==_iff, Bool-cases, Option-cases, if◌then◌else◌, All, map, arith,
}
use quick_js_swift.Collections.Map.{
  MapRecord, MapState, new_map, Engine, Result, value, bool, exception, upd, find_in,
  map_find_record, added, map_add_record,
}
use quick_js_swift.Collections.Map.Chains.{
  select, NotIn, Distinct-select, All-select, All-append_one, All-along, All-both, upd_other,
  upd_here,
}
use quick_js_swift.Collections.Map.Shape.{live, is_live, IsSound, live-linked}
use quick_js_swift.Collections.Map.Records.{
  map_add_record-IsSound, revalued-IsShape, live_revalued, revalued_fields, Adds, added-Adds,
}
use quick_js_swift.Collections.Map.Contents.{
  lookup, put, entry, entries, entries_same, Hashes, find_in-select, value_at, lookup-find_in,
  put_found, put_new,
}
use quick_js_swift.Collections.Map.Operations.{
  store, set_found, set_added, set_key, js_map_set, get_found, js_map_get, is_found, js_map_has,
}

module _ {W V : Type 0} (engine : Engine W V) (IsKey : V → Type 0) where
  abbrev pub HasKeys : (ℕ → MapRecord V) → List ℕ → Type 0
  HasKeys heap records = All (λ (mr : ℕ). IsKey (heap mr).key) (live heap records)

  -- A map whose keys are all of those that the hash is for.
  pub record Holds (s : MapState W V) : Type 0 where
    pub sound : IsSound engine s
    pub keys : HasKeys s.heap s.records

  -- A new map holds nothing.
  pub new_map-Holds :
      (is_weak : Bool) (heap : ℕ → MapRecord V) (weak_refs : ℕ → List ℕ) (world : W)
      → Holds (new_map is_weak heap weak_refs world)
  unfolding select
  new_map-Holds is_weak heap weak_refs world = record {
    sound = record {
      has_table = omega arith;
      apart = tt;
      chains = λ h. refl;
      counted = refl;
      held = tt;
    };
    keys = tt;
  }

  -- `js_malloc` does not return the address of a record in use.
  abbrev pub IsFresh : MapState W V → Type 0
  IsFresh s = (mr : ℕ) → (engine.malloc_record s.world).1 ≡ some mr → NotIn mr s.records

  pub found :
      (s : MapState W V) (key : V)
      → Hashes engine IsKey
      → IsKey key
      → Holds s
      → map_find_record engine s key ≡ find_in engine s.heap key (live s.heap s.records)
  unfolding map_find_record
  found s key law k m =
      ap (find_in engine s.heap key) (m.sound.chains _)
      ∙ find_in-select engine IsKey s.heap s.hash_size key (live s.heap s.records) law k m.keys

  abbrev pub result_of : Option V → Result V
  result_of none = value engine.undefined
  result_of (some v) = value v

  -- On a sound map whose keys have one hash where they are the same, `get` of such a key returns
  -- the value that the list of keys and values has for it, or undefined, and leaves the list.
  pub js_map_get_lem :
      (s : MapState W V) (arg0 : V)
      → Hashes engine IsKey
      → IsKey (engine.normalize_key arg0)
      → Holds s
      → ((js_map_get engine s arg0).1
          ≡ result_of (lookup engine.same_value_zero (entries s) (engine.normalize_key arg0)))
        × (entries (js_map_get engine s arg0).0 ≡ entries s)
  unfolding js_map_get get_found
  js_map_get_lem s arg0 law k m =
      let key = engine.normalize_key arg0 in
      rw (lookup-find_in engine s.heap key (live s.heap s.records), found s key law k m)
        (cases (find_in engine s.heap key (live s.heap s.records)))
    where
      cases :
          (o : Option ℕ)
          → ((get_found engine s o).1 ≡ result_of (value_at engine s.heap o))
            × (entries (get_found engine s o).0 ≡ entries s)
      cases none = (refl, refl)
      cases (some mr) = (refl, refl)

  -- What a call of `set` may do.
  abbrev pub Sets : MapState W V → V → V → V → MapState W V × Result V → Type 0
  Sets s this_val key v (s', r) =
      Holds s'
      × (((r ≡ value this_val) × (entries s' ≡ put engine.same_value_zero (entries s) key v))
          ⊎ ((r ≡ exception) × (entries s' ≡ entries s)))

  -- Keys that are in a map stay where a value is set.
  keys_revalued :
      (heap : ℕ → MapRecord V) (mr : ℕ) (v : V) (records : List ℕ)
      → HasKeys heap records
      → HasKeys (upd heap mr (record (heap mr) { value = v })) records
  keys_revalued heap mr v records keys =
      let heap' = upd heap mr (record (heap mr) { value = v }) in
      rw (live_revalued engine heap mr v records) (
        All-along _ (λ (y : ℕ). IsKey (heap' y).key) (live heap records) keys
          (λ y k. rw (revalued_fields engine heap mr v y).1 k))

  set_found-Sets :
      (s : MapState W V) (this_val key v : V) (mr : ℕ)
      → find_in engine s.heap key (live s.heap s.records) ≡ some mr
      → Holds s
      → Sets s this_val key v (set_key engine (some mr) this_val key v s)
  unfolding set_key set_found store
  set_found-Sets s this_val key v mr e m =
      let heap' = upd s.heap mr (record (s.heap mr) { value = v }) in
      let rest = live s.heap s.records in
      (
        record {
          sound =
              revalued-IsShape engine s.records s.record_count s.hash_table s.hash_size s.heap mr v
                m.sound;
          keys = keys_revalued s.heap mr v s.records m.keys;
        },
        inl (
          refl,
          ap (map (entry heap')) (live_revalued engine s.heap mr v s.records)
              ∙ sym (
                  put_found engine s.heap key v rest mr
                    (Distinct-select (is_live s.heap) s.records m.sound.apart) e),
        ),
      )

  -- What is in a map after a record got its value.
  abbrev stored : (ℕ → MapRecord V) → List ℕ → ℕ → V → List (V × V)
  stored heap records mr v =
      let heap' = upd heap mr (record (heap mr) { value = v }) in
      map (entry heap') (live heap' records)

  map_append_one :
      (f : ℕ → V × V) (xs : List ℕ) (x : ℕ) → map f (xs ++ (x ∷ [])) ≡ map f xs ++ (f x ∷ [])
  map_append_one f [] x = refl
  map_append_one f (y ∷ xs) x = ap (λ (l : List (V × V)). f y ∷ l) (map_append_one f xs x)

  stored_new :
      (heap : ℕ → MapRecord V) (r : MapRecord V) (records : List ℕ) (mr : ℕ) (v : V)
      → NotIn mr records
      → r.empty ≡ false
      → stored (upd heap mr r) (records ++ (mr ∷ [])) mr v
        ≡ map (entry heap) (live heap records) ++ ((r.key, v) ∷ [])
  stored_new heap r records mr v fresh alive =
      let heap1 = upd heap mr r in
      let heap2 = upd heap1 mr (record (heap1 mr) { value = v }) in
      let rest = live heap records in
      let itself : (mr == mr) ≡ true = (==_iff mr mr).1 refl in
      let last : entry heap2 mr ≡ (r.key, v) =
        ap (λ (x : MapRecord V). (x.key, x.value))
          (upd_here heap1 mr (record (heap1 mr) { value = v }) mr itself)
        ∙ ap (λ (x : MapRecord V). (x.key, v)) (upd_here heap mr r mr itself) in
      let others =
        All-along _ (λ (y : ℕ). heap2 y ≡ heap y) rest (All-select _ (is_live heap) records fresh)
          (λ y n.
            upd_other heap1 mr (record (heap1 mr) { value = v }) y n ∙ upd_other heap mr r y n) in
      ap (map (entry heap2)) (
        live_revalued engine heap1 mr v (records ++ (mr ∷ []))
        ∙ live-linked engine records heap r mr fresh alive)
      ∙ map_append_one (entry heap2) rest mr
      ∙ ap (λ (l : List (V × V)). l ++ (entry heap2 mr ∷ []))
          (entries_same engine heap heap2 rest others)
      ∙ ap (λ (e : V × V). map (entry heap) rest ++ (e ∷ [])) last

  keys_linked :
      (heap : ℕ → MapRecord V) (r : MapRecord V) (records : List ℕ) (mr : ℕ)
      → NotIn mr records
      → r.empty ≡ false
      → IsKey r.key
      → HasKeys heap records
      → HasKeys (upd heap mr r) (records ++ (mr ∷ []))
  keys_linked heap r records mr fresh alive k keys =
      let rest = live heap records in
      let heap1 = upd heap mr r in
      let last : IsKey (heap1 mr).key = rw (upd_here heap mr r mr ((==_iff mr mr).1 refl)) k in
      let others = All-both _ _ rest (All-select _ (is_live heap) records fresh) keys in
      rw (live-linked engine records heap r mr fresh alive) (
        All-append_one _ rest mr
          (All-along _ (λ (y : ℕ). IsKey (heap1 y).key) rest others
            (λ y b. rw (upd_other heap mr r y b.0) b.1))
          last)

  no_record : (mr : ℕ) → none ≡ some mr → ⊥
  no_record mr e = cc

  same_record : (x mr : ℕ) → some x ≡ some mr → x ≡ mr
  same_record x mr e = cc

  set_added-Sets :
      (s : MapState W V) (this_val key v : V) (r : W × Option ℕ)
      → find_in engine s.heap key (live s.heap s.records) ≡ none
      → IsKey key
      → ((mr : ℕ) → r.1 ≡ some mr → NotIn mr s.records)
      → Holds s
      → Sets s this_val key v (set_added engine this_val v (added engine s key r))
  unfolding set_added store added
  set_added-Sets s this_val key v (w, none) e k fresh m =
      (record { sound = m.sound; keys = m.keys }, inr (refl, refl))
  set_added-Sets s this_val key v (w, some mr) e k fresh m =
      by (added engine s key (w, some mr)) (added-Adds engine s key w mr)
        (map_add_record-IsSound engine s key (w, some mr) fresh m.sound)
    where
      by :
          (r : MapState W V × Option ℕ)
          → Adds engine s key mr r
          → IsSound engine r.0
          → Sets s this_val key v (set_added engine this_val v r)
      by (s1, none) a m1 = absurd (no_record mr a.0)
      by (s1, some x) a m1 =
          let new : MapRecord V = record {
            ref_count = 1;
            empty = false;
            key = key;
            value = engine.undefined;
          } in
          let heap1 = upd s.heap mr new in
          let records1 = s.records ++ (mr ∷ []) in
          let old = fresh mr refl in
          let keys1 : HasKeys s1.heap s1.records =
            rw (a.1, a.2) (keys_linked s.heap new s.records mr old refl k m.keys) in
          (
            record {
              sound =
                  revalued-IsShape engine s1.records s1.record_count s1.hash_table s1.hash_size
                    s1.heap x v m1;
              keys = keys_revalued s1.heap x v s1.records keys1;
            },
            inl (
              refl,
              ap (λ (h : ℕ → MapRecord V). stored h s1.records x v) a.1
                  ∙ ap (λ (l : List ℕ). stored heap1 l x v) a.2
                  ∙ ap (λ (i : ℕ). stored heap1 records1 i v) (same_record x mr a.0)
                  ∙ stored_new s.heap new s.records mr v old refl
                  ∙ sym (put_new engine s.heap key v (live s.heap s.records) e),
            ),
          )

  -- On a sound Map or Set whose keys have one hash where they are the same, with memory that is not
  -- in use for a new record, `set` of such a key keeps the map sound. It puts the normalised key and
  -- the value (undefined for a Set) into the list of keys and values, in place or at the end, and
  -- returns `this_val`; or it returns an exception and leaves the list.
  pub js_map_set_lem :
      (s : MapState W V) (this_val arg0 arg1 : V) (is_set : Bool)
      → s.is_weak ≡ false
      → Hashes engine IsKey
      → IsKey (engine.normalize_key arg0)
      → IsFresh s
      → Holds s
      → Sets s this_val
          (engine.normalize_key arg0)
          (if is_set then engine.undefined else arg1)
          (js_map_set engine s this_val arg0 arg1 is_set)
  unfolding js_map_set set_key map_add_record
  js_map_set_lem s this_val arg0 arg1 is_set strong law k fresh m =
      let key = engine.normalize_key arg0 in
      let v = if is_set then engine.undefined else arg1 in
      let rest = live s.heap s.records in
      elim (Bool-cases (s.is_weak && not (engine.is_object key))) [
        | inl bad ↦ rw bad (record { sound = m.sound; keys = m.keys }, inr (refl, refl))
        | inr good ↦ elim (Option-cases (find_in engine s.heap key rest)) [
          | inl absent ↦
              rw (good, found s key law k m ∙ absent)
                (set_added-Sets s this_val key v (engine.malloc_record s.world) absent k fresh m)
          | inr (mr, present) ↦
              rw (good, found s key law k m ∙ present)
                (set_found-Sets s this_val key v mr present m)
        ]
      ]

  abbrev pub is_some : Option V → Bool
  is_some none = false
  is_some (some v) = true

  -- On a sound map whose keys have one hash where they are the same, `has` of such a key says
  -- whether the list of keys and values has it.
  pub js_map_has_lem :
      (s : MapState W V) (arg0 : V)
      → Hashes engine IsKey
      → IsKey (engine.normalize_key arg0)
      → Holds s
      → js_map_has engine s arg0
        ≡ bool (is_some (lookup engine.same_value_zero (entries s) (engine.normalize_key arg0)))
  unfolding js_map_has is_found
  js_map_has_lem s arg0 law k m =
      let key = engine.normalize_key arg0 in
      rw (lookup-find_in engine s.heap key (live s.heap s.records), found s key law k m)
        (cases (find_in engine s.heap key (live s.heap s.records)))
    where
      cases :
          (o : Option ℕ)
          → ◌≡◌ {A = Result V}
              (bool (is_found engine o))
              (bool (is_some (value_at engine s.heap o)))
      cases none = refl
      cases (some mr) = refl
