-- ===== src/Collections/Map/Iteration.antt =====
-- Map iterators, which stand at a record while scripts change the map: `js_map_iterator_next` and
-- `js_map_iterator_finalizer` of Sources/QuickJSC/quickjs.c.
pub mod Arrival
pub mod Steps
use quick_js_swift.Base.{
  ℕ, zero, suc, ◌+◌, List, [], ◌∷◌, Bool, true, false, Option, none, some, if◌then◌else◌, length,
}
use quick_js_swift.Collections.Map.{
  MapRecord, MapState, Engine, Result, value, exception, upd, next_of, first_of, map_decref_record,
}

pub data IteratorKind : Type 0 where
  keys values keys_and_values : IteratorKind

-- `obj` is the map; `none` is JS_UNDEFINED, after the end.
pub record MapIterator (V : Type 0) : Type 0 where
  pub obj : Option V
  pub kind : IteratorKind
  pub cur_record : Option ℕ

-- `create_array` is `js_create_array` of two values; `none` is an exception.
module _ {W V : Type 0} (engine : Engine W V) (create_array : W → V → V → W × Option V) where
  -- `mr->ref_count++`
  pub lock : MapState W V → ℕ → MapState W V
  unfolding upd
  lock s mr =
      let r = s.heap mr in
      record s { heap = upd s.heap mr (record r { ref_count = r.ref_count + 1 }) }

  -- The first record from `el` on that is not deleted; `none` is the list head.
  pub skip_empty : ℕ → MapState W V → Option ℕ → Option ℕ
  unfolding next_of
  skip_empty zero s el = none
  skip_empty (suc fuel) s none = none
  skip_empty (suc fuel) s (some mr) =
      let rest = skip_empty fuel s (next_of mr s.records) in
      if (s.heap mr).empty then rest else some mr

  -- The place after the record of the iterator, whose lock is given up.
  pub advance : MapState W V → Option ℕ → MapState W V × Option ℕ
  unfolding next_of first_of map_decref_record
  advance s none = (s, first_of s.records)
  advance s (some mr) = (map_decref_record engine s mr, next_of mr s.records)

  pub array_of : MapState W V → W × Option V → MapState W V × Result V
  array_of s (world, none) = (record s { world = world }, exception)
  array_of s (world, some array) = (record s { world = world }, value array)

  pub item : MapState W V → IteratorKind → Bool → ℕ → MapState W V × Result V
  unfolding array_of
  item s keys is_set mr =
      let k = (s.heap mr).key in (record s { world = engine.dup_value s.world k }, value k)
  item s values is_set mr =
      let v = if is_set then (s.heap mr).key else (s.heap mr).value in
      (record s { world = engine.dup_value s.world v }, value v)
  item s keys_and_values is_set mr =
      let v = if is_set then (s.heap mr).key else (s.heap mr).value in
      array_of s (create_array s.world (s.heap mr).key v)

  -- The iterator, the map, `*pdone` and the value.
  abbrev pub Next : Type 0
  Next = MapIterator V × MapState W V × Bool × Result V

  pub arrive : MapIterator V → V → Bool → MapState W V → Option ℕ → Next
  unfolding lock item
  arrive it obj is_set s none = (
    record it { obj = none; cur_record = none },
    record s { world = engine.free_value s.world obj },
    true,
    value engine.undefined,
  )
  arrive it obj is_set s (some mr) =
      let (s', r) = item (lock s mr) it.kind is_set mr in
      (record it { cur_record = some mr }, s', false, r)

  pub next_from : MapIterator V → V → Bool → MapState W V × Option ℕ → Next
  unfolding skip_empty arrive
  next_from it obj is_set (s, el) = arrive it obj is_set s (skip_empty (length s.records) s el)

  pub next_in : MapIterator V → MapState W V → Bool → Option V → Next
  unfolding advance next_from
  next_in it s is_set none = (it, s, true, value engine.undefined)
  next_in it s is_set (some obj) = next_from it obj is_set (advance s it.cur_record)

  unfoldable pub js_map_iterator_next : MapIterator V → MapState W V → Bool → Next
  unfolding next_in
  js_map_iterator_next it s is_set = next_in it s is_set it.obj
