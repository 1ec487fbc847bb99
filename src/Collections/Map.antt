-- ===== src/Collections/Map.antt =====
-- Map and Set objects: `JSMapState`, its records, and the functions on them of
-- Sources/QuickJSC/quickjs.c. A record is named by its address; the two intrusive lists of a
-- record are lists of addresses. What a map calls in the rest of the engine is a parameter.
pub mod Operations
pub mod Iteration
pub mod Chains
pub mod Shape
pub mod Records
pub mod Contents
use quick_js_swift.Base.{
  ℕ, zero, suc, ◌+◌, ◌-◌, ◌*◌, bit_and, List, [], ◌∷◌, ◌++◌, Bool, true, false, ◌&&◌, not, Option,
  none, some, leb, ◌==◌, if◌then◌else◌,
}

pub record MapRecord (V : Type 0) : Type 0 where
  pub ref_count : ℕ
  pub empty : Bool
  pub key : V
  pub value : V

-- `hash_table` has the chain of each index; `heap` is the memory of the records, `weak_refs` the
-- lists behind `first_weak_ref` of objects, and `world` the rest of the runtime.
pub record MapState (W V : Type 0) : Type 0 where
  pub is_weak : Bool
  pub records : List ℕ
  pub record_count : ℕ
  pub hash_table : ℕ → List ℕ
  pub hash_size : ℕ
  pub record_count_threshold : ℕ
  pub heap : ℕ → MapRecord V
  pub weak_refs : ℕ → List ℕ
  pub world : W

-- JS_UNDEFINED, `JS_IsObject`, `JS_VALUE_GET_OBJ`, `map_normalize_key`, `map_hash_key`,
-- `js_same_value_zero`, `JS_DupValue`, `JS_FreeValue`, `js_malloc` of a record (`none` is NULL),
-- `js_free` of one, `js_realloc2` of the table with its slack in chains, and
-- `JS_ThrowTypeErrorNotAnObject`.
pub record Engine (W V : Type 0) : Type 0 where
  pub undefined : V
  pub is_object : V → Bool
  pub get_obj : V → ℕ
  pub normalize_key : V → V
  pub hash_key : V → ℕ
  pub same_value_zero : V → V → Bool
  pub dup_value : W → V → W
  -- Frees nothing that is a key of the map, so it leaves a Map or Set, whose keys are held; the
  -- value of a weak map may be the last to hold one of its keys, which `reset_weak_ref` unlinks.
  -- That is not modelled.
  pub free_value : W → V → W
  pub malloc_record : W → W × Option ℕ
  pub free_record : W → ℕ → W
  pub realloc_table : W → ℕ → W × Option ℕ
  pub throw_not_an_object : W → W

-- A value, an exception, or JS_TRUE and JS_FALSE.
pub data Result (V : Type 0) : Type 0 where
  value : V → Result V
  bool : Bool → Result V
  exception : Result V

-- The state that `js_map_constructor` makes before it adds what it is given.
abbrev pub new_map : {W V : Type 0} → Bool → (ℕ → MapRecord V) → (ℕ → List ℕ) → W → MapState W V
new_map is_weak heap weak_refs world = record {
  is_weak = is_weak;
  records = [];
  record_count = 0;
  hash_table = λ i. [];
  hash_size = 1;
  record_count_threshold = 4;
  heap = heap;
  weak_refs = weak_refs;
  world = world;
}

-- A store to an address or index.
pub upd : {A : Type 0} → (ℕ → A) → ℕ → A → ℕ → A
upd f i x j = if j == i then x else f j

-- `list_del`
pub list_del : ℕ → List ℕ → List ℕ
list_del mr [] = []
list_del mr (x ∷ xs) = if x == mr then xs else x ∷ list_del mr xs

-- What stands behind `mr` in a list of records; `none` is the list head.
pub next_of : ℕ → List ℕ → Option ℕ
next_of mr [] = none
next_of mr (x ∷ []) = none
next_of mr (x ∷ y ∷ xs) = let rest = next_of mr (y ∷ xs) in if x == mr then some y else rest

pub first_of : List ℕ → Option ℕ
first_of [] = none
first_of (x ∷ xs) = some x

module _ {W V : Type 0} (engine : Engine W V) where
  pub index_of : V → ℕ → ℕ
  index_of key size = bit_and (engine.hash_key key) (size - 1)

  pub find_in : (ℕ → MapRecord V) → V → List ℕ → Option ℕ
  find_in heap key [] = none
  find_in heap key (mr ∷ chain) =
      let rest = find_in heap key chain in
      if engine.same_value_zero (heap mr).key key then some mr else rest

  pub map_find_record : MapState W V → V → Option ℕ
  unfolding index_of find_in
  map_find_record s key = find_in s.heap key (s.hash_table (index_of key s.hash_size))

  -- The loop of `map_hash_resize` over the records.
  pub rehash : (ℕ → MapRecord V) → ℕ → (ℕ → List ℕ) → List ℕ → ℕ → List ℕ
  unfolding index_of upd
  rehash heap size table [] = table
  rehash heap size table (mr ∷ records) =
      let h = index_of (heap mr).key size in
      let added = rehash heap size (upd table h (table h ++ (mr ∷ []))) records in
      let skipped = rehash heap size table records in if (heap mr).empty then skipped else added

  pub resized_table : MapState W V → ℕ → W × Option ℕ → MapState W V
  unfolding rehash
  resized_table s new_hash_size (world, none) = record s { world = world }
  resized_table s new_hash_size (world, some slack) =
      let size = new_hash_size + slack in
      record s {
        world = world;
        hash_table = rehash s.heap size (λ i. []) s.records;
        hash_size = size;
        record_count_threshold = size * 2;
      }

  pub map_hash_resize : MapState W V → MapState W V
  unfolding resized_table
  map_hash_resize s =
      let new_hash_size = if s.hash_size == 1 then 4 else s.hash_size * 2 in
      resized_table s new_hash_size (engine.realloc_table s.world new_hash_size)

  -- A new record with its key in both lists. The value is not set before the caller sets it.
  pub linked : MapState W V → V → ℕ → MapState W V
  unfolding index_of upd
  linked s key mr =
      let h = index_of key s.hash_size in
      let p = engine.get_obj key in
      let new : MapRecord V = record {
        ref_count = 1;
        empty = false;
        key = key;
        value = engine.undefined;
      } in
      record s {
        heap = upd s.heap mr new;
        weak_refs = if s.is_weak then upd s.weak_refs p (mr ∷ s.weak_refs p) else s.weak_refs;
        world = if s.is_weak then s.world else engine.dup_value s.world key;
        hash_table = upd s.hash_table h (s.hash_table h ++ (mr ∷ []));
        records = s.records ++ (mr ∷ []);
        record_count = s.record_count + 1;
      }

  pub added : MapState W V → V → W × Option ℕ → MapState W V × Option ℕ
  unfolding linked map_hash_resize
  added s key (world, none) = (record s { world = world }, none)
  added s key (world, some mr) =
      let s1 = linked (record s { world = world }) key mr in
      if leb s1.record_count_threshold s1.record_count
      then (map_hash_resize s1, some mr)
      else (s1, some mr)

  pub map_add_record : MapState W V → V → MapState W V × Option ℕ
  unfolding added
  map_add_record s key = added s key (engine.malloc_record s.world)

  -- The record is in the list of its object.
  pub delete_weak_ref : MapState W V → ℕ → MapState W V
  unfolding upd list_del
  delete_weak_ref s mr =
      let p = engine.get_obj (s.heap mr).key in
      record s { weak_refs = upd s.weak_refs p (list_del mr (s.weak_refs p)) }

  -- The key and the value of a record are given up.
  pub released : MapState W V → ℕ → MapState W V
  unfolding delete_weak_ref
  released s mr =
      let r = s.heap mr in
      let s1 =
        if s.is_weak
        then delete_weak_ref s mr
        else record s { world = engine.free_value s.world r.key } in
      record s1 { world = engine.free_value s1.world r.value }

  pub map_delete_record : MapState W V → ℕ → MapState W V
  unfolding upd list_del released
  map_delete_record s mr =
      let r = s.heap mr in
      let s1 = released s mr in
      let unlinked = record s {
        weak_refs = s1.weak_refs;
        world = s1.world;
        hash_table = λ i. list_del mr (s.hash_table i);
      } in
      let zombie : MapRecord V = record {
        ref_count = r.ref_count - 1;
        empty = true;
        key = engine.undefined;
        value = engine.undefined;
      } in
      let freed = record unlinked {
        records = list_del mr s.records;
        world = engine.free_record s1.world mr;
        record_count = s.record_count - 1;
      } in
      let kept = record unlinked {
        heap = upd s.heap mr zombie;
        record_count = s.record_count - 1;
      } in
      if r.empty then s else if r.ref_count - 1 == 0 then freed else kept

  pub map_decref_record : MapState W V → ℕ → MapState W V
  unfolding upd list_del
  map_decref_record s mr =
      let r = s.heap mr in
      let freed = record s {
        records = list_del mr s.records;
        world = engine.free_record s.world mr;
      } in
      let less = record s { heap = upd s.heap mr (record r { ref_count = r.ref_count - 1 }) } in
      if r.ref_count - 1 == 0 then freed else less
