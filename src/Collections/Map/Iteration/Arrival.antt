-- ===== src/Collections/Map/Iteration/Arrival.antt =====
-- What a step of an iterator leaves and returns when it has found its record, or the end.
use quick_js_swift.Base.{
  ◌+◌, if◌then◌else◌, ℕ, ◌≡◌, refl, Bool, true, false, Option, none, some, ==_iff,
}
use quick_js_swift.Collections.Map.{
  MapRecord, MapState, Engine, Result, value, exception, upd, map_decref_record,
}
use quick_js_swift.Collections.Map.Chains.{upd_here}
use quick_js_swift.Collections.Map.Iteration.{
  MapIterator, IteratorKind, keys, values, keys_and_values, item, lock, array_of, advance, arrive,
}

module _ {W V : Type 0} (engine : Engine W V) (create_array : W → V → V → W × Option V) where
  -- The map without the lock that an iterator had on its record.
  abbrev pub given_up : MapState W V → Option ℕ → MapState W V
  given_up s none = s
  given_up s (some mr) = map_decref_record engine s mr

  abbrev pub array_result : Option V → Result V
  array_result none = exception
  array_result (some array) = value array

  -- The item that an iterator of a kind has for a record.
  abbrev pub item_of : IteratorKind → Bool → W → MapRecord V → Result V
  item_of keys is_set world r = value r.key
  item_of values is_set world r = value (if is_set then r.key else r.value)
  item_of keys_and_values is_set world r =
      array_result (create_array world r.key (if is_set then r.key else r.value)).1

  -- The iterator has ended, and has let the map go; or it has come to a record, which it has
  -- locked, with the item for it.
  abbrev pub Arrives :
      MapIterator V
      → V
      → Bool
      → MapState W V
      → Option ℕ
      → MapIterator V × MapState W V × Bool × Result V
      → Type 0
  Arrives it obj is_set s none (it', s', done, r) =
      (it' ≡ record it { obj = none; cur_record = none })
      × (s' ≡ record s { world = engine.free_value s.world obj })
      × (done ≡ true)
      × (r ≡ value engine.undefined)
  Arrives it obj is_set s (some mr) (it', s', done, r) =
      (it' ≡ record it { cur_record = some mr })
      × (s'.records ≡ s.records)
      × (s'.heap ≡ upd s.heap mr (record (s.heap mr) { ref_count = (s.heap mr).ref_count + 1 }))
      × (done ≡ false)
      × (r ≡ item_of it.kind is_set s.world (s.heap mr))

  locked_record :
      (s : MapState W V) (mr : ℕ)
      → (lock engine create_array s mr).heap mr
        ≡ record (s.heap mr) { ref_count = (s.heap mr).ref_count + 1 }
  unfolding lock
  locked_record s mr = upd_here s.heap mr _ mr ((==_iff mr mr).1 refl)

  array_of-array_result :
      (s : MapState W V) (r : W × Option V)
      → ((array_of engine create_array s r).0.records ≡ s.records)
        × ((array_of engine create_array s r).0.heap ≡ s.heap)
        × ((array_of engine create_array s r).1 ≡ array_result r.1)
  unfolding array_of
  array_of-array_result s (world, none) = (refl, refl, refl)
  array_of-array_result s (world, some array) = (refl, refl, refl)

  -- What `item` leaves and returns, of a record that was locked.
  abbrev Gives : MapState W V → IteratorKind → Bool → ℕ → MapState W V × Result V → Type 0
  Gives s kind is_set mr (s', r) =
      (s'.records ≡ s.records)
      × (s'.heap ≡ (lock engine create_array s mr).heap)
      × (r ≡ item_of kind is_set s.world (s.heap mr))

  item-Gives :
      (s : MapState W V) (kind : IteratorKind) (is_set : Bool) (mr : ℕ)
      → Gives s kind is_set mr
          (item engine create_array (lock engine create_array s mr) kind is_set mr)
  unfolding item lock
  item-Gives s keys is_set mr = rw (locked_record s mr) (refl, refl, refl)
  item-Gives s values true mr = rw (locked_record s mr) (refl, refl, refl)
  item-Gives s values false mr = rw (locked_record s mr) (refl, refl, refl)
  item-Gives s keys_and_values true mr =
      let r = s.heap mr in
      rw (locked_record s mr)
        (array_of-array_result (lock engine create_array s mr) (create_array s.world r.key r.key))
  item-Gives s keys_and_values false mr =
      let r = s.heap mr in
      rw (locked_record s mr)
        (array_of-array_result (lock engine create_array s mr) (create_array s.world r.key r.value))

  pub arrive-Arrives :
      (it : MapIterator V) (obj : V) (is_set : Bool) (s : MapState W V) (el : Option ℕ)
      → Arrives it obj is_set s el (arrive engine create_array it obj is_set s el)
  unfolding arrive lock
  arrive-Arrives it obj is_set s none = (refl, refl, refl, refl)
  arrive-Arrives it obj is_set s (some mr) =
      let g = item-Gives s it.kind is_set mr in (refl, g.0, g.1, refl, g.2)

  pub advance-given_up :
      (s : MapState W V) (cur : Option ℕ) → (advance engine create_array s cur).0 ≡ given_up s cur
  unfolding advance
  advance-given_up s none = refl
  advance-given_up s (some mr) = refl
