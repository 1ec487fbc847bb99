-- ===== src/Collections/Map/Operations.antt =====
-- The methods of Map, Set, WeakMap and WeakSet on the state that `JS_GetOpaque2` returns for
-- `this_val`; it is an exception where there is none. `is_set` is `magic & MAGIC_SET`.
pub mod Refinement
pub mod Deletion
use quick_js_swift.Base.{
  ℕ, List, [], ◌∷◌, Bool, true, false, ◌&&◌, not, Option, none, some, if◌then◌else◌,
}
use quick_js_swift.Collections.Map.{
  MapRecord, MapState, Engine, Result, value, bool, exception, upd, map_find_record, map_add_record,
  map_delete_record,
}

module _ {W V : Type 0} (engine : Engine W V) where
  -- `mr->value = JS_DupValue(ctx, value)`
  pub store : MapState W V → ℕ → V → MapState W V
  unfolding upd
  store s mr v = record s {
    heap = upd s.heap mr (record (s.heap mr) { value = v });
    world = engine.dup_value s.world v;
  }

  -- The old value of a record that was found is freed first.
  pub set_found : MapState W V → ℕ → V → MapState W V
  unfolding store
  set_found s mr v = store (record s { world = engine.free_value s.world (s.heap mr).value }) mr v

  pub set_added : V → V → MapState W V × Option ℕ → MapState W V × Result V
  unfolding store
  set_added this_val v (s, none) = (s, exception)
  set_added this_val v (s, some mr) =
      let s1 = store s mr v in
      (record s1 { world = engine.dup_value s1.world this_val }, value this_val)

  pub set_key : Option ℕ → V → V → V → MapState W V → MapState W V × Result V
  unfolding set_found set_added map_add_record
  set_key (some mr) this_val key v s =
      let s1 = set_found s mr v in
      (record s1 { world = engine.dup_value s1.world this_val }, value this_val)
  set_key none this_val key v s = set_added this_val v (map_add_record engine s key)

  unfoldable pub js_map_set : MapState W V → V → V → V → Bool → MapState W V × Result V
  unfolding set_key map_find_record
  js_map_set s this_val arg0 arg1 is_set =
      let key = engine.normalize_key arg0 in
      let v = if is_set then engine.undefined else arg1 in
      if s.is_weak && not (engine.is_object key)
      then (record s { world = engine.throw_not_an_object s.world }, exception)
      else set_key (map_find_record engine s key) this_val key v s

  pub get_found : MapState W V → Option ℕ → MapState W V × Result V
  get_found s none = (s, value engine.undefined)
  get_found s (some mr) =
      let v = (s.heap mr).value in (record s { world = engine.dup_value s.world v }, value v)

  unfoldable pub js_map_get : MapState W V → V → MapState W V × Result V
  unfolding get_found map_find_record
  js_map_get s arg0 = get_found s (map_find_record engine s (engine.normalize_key arg0))

  pub is_found : Option ℕ → Bool
  is_found none = false
  is_found (some mr) = true

  unfoldable pub js_map_has : MapState W V → V → Result V
  unfolding is_found map_find_record
  js_map_has s arg0 = bool (is_found (map_find_record engine s (engine.normalize_key arg0)))

  pub delete_found : MapState W V → Option ℕ → MapState W V × Result V
  unfolding map_delete_record
  delete_found s none = (s, bool false)
  delete_found s (some mr) = (map_delete_record engine s mr, bool true)

  unfoldable pub js_map_delete : MapState W V → V → MapState W V × Result V
  unfolding delete_found map_find_record
  js_map_delete s arg0 = delete_found s (map_find_record engine s (engine.normalize_key arg0))

  -- The loop over the records, which are those at its start: each is in the list until its turn.
  pub clear_loop : List ℕ → MapState W V → MapState W V
  unfolding map_delete_record
  clear_loop [] s = s
  clear_loop (mr ∷ records) s = clear_loop records (map_delete_record engine s mr)

  unfoldable pub js_map_clear : MapState W V → MapState W V × Result V
  unfolding clear_loop
  js_map_clear s = (clear_loop s.records s, value engine.undefined)

  unfoldable pub js_map_get_size : MapState W V → ℕ
  js_map_get_size s = s.record_count
