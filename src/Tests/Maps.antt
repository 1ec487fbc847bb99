-- ===== src/Tests/Maps.antt =====
-- Maps at concrete inputs: values are numbers, and 0 is undefined.
use quick_js_swift.Base.{
  ℕ, ◌+◌, ◌≡◌, refl, [], ◌∷◌, true, false, Option, none, some, ◌==◌, ==_iff, arith,
}
use quick_js_swift.Collections.Map.{
  map_decref_record, MapRecord, MapState, new_map, Engine, first_of,
}
use quick_js_swift.Collections.Map.Chains.{select}
use quick_js_swift.Collections.Map.Shape.{live}
use quick_js_swift.Collections.Map.Contents.{lookup, remove, entries, Hashes}
use quick_js_swift.Collections.Map.Operations.{js_map_set, js_map_get, js_map_has, js_map_delete}
use quick_js_swift.Collections.Map.Operations.Refinement.{
  Holds, IsFresh, new_map-Holds, Sets, result_of, js_map_get_lem, js_map_set_lem,
}
use quick_js_swift.Collections.Map.Operations.Deletion.{js_map_delete_lem}
use quick_js_swift.Collections.Map.Iteration.{MapIterator, keys, js_map_iterator_next}
use quick_js_swift.Collections.Map.Iteration.Arrival.{Arrives}
use quick_js_swift.Collections.Map.Iteration.Steps.{Ahead, js_map_iterator_next_lem}

-- The world is the next free address.
abbrev numbers : Engine ℕ ℕ
numbers = record {
  undefined = 0;
  is_object = λ v. false;
  get_obj = λ v. v;
  normalize_key = λ v. v;
  hash_key = λ v. v;
  same_value_zero = λ a b. a == b;
  dup_value = λ w v. w;
  free_value = λ w v. w;
  malloc_record = λ w. (w + 1, some w);
  free_record = λ w mr. w;
  realloc_table = λ w n. (w, some 0);
  throw_not_an_object = λ w. w;
}

abbrev IsNumber : ℕ → Type 0
IsNumber v = Unit

numbers-Hashes : Hashes numbers IsNumber
numbers-Hashes a b ka kb e = (==_iff a b).0 e

abbrev blank : ℕ → MapRecord ℕ
blank mr = record { ref_count = 0; empty = true; key = 0; value = 0 }

abbrev none_yet : MapState ℕ ℕ
none_yet = new_map false blank (λ p. []) 1

none_yet-Holds : Holds numbers IsNumber none_yet
none_yet-Holds = new_map-Holds numbers IsNumber false blank (λ p. []) 1

none_yet-IsFresh : IsFresh numbers IsNumber none_yet
none_yet-IsFresh mr e = tt

-- 5 ↦ 50, at the address 1.
abbrev one_key : MapState ℕ ℕ
one_key = (js_map_set numbers none_yet 99 5 50 false).0

one_key-Holds : Holds numbers IsNumber one_key
one_key-Holds =
    (js_map_set_lem numbers IsNumber none_yet 99 5 50 false refl numbers-Hashes tt none_yet-IsFresh
      none_yet-Holds).0

one_key-IsFresh : IsFresh numbers IsNumber one_key
unfolding js_map_set
one_key-IsFresh mr e = (apart mr (second mr e), tt)
  where
    second : (mr : ℕ) → some 2 ≡ some mr → 2 ≡ mr
    second mr e = cc

    apart : (mr : ℕ) → 2 ≡ mr → (1 == mr) ≡ false
    apart mr e = ground (arith, e)

-- And 6 ↦ 60, at the address 2: the table has one chain, in which both keys stand.
abbrev two_keys : MapState ℕ ℕ
two_keys = (js_map_set numbers one_key 99 6 60 false).0

js_map_set_lem_example :
    Sets numbers IsNumber one_key 99 6 60 (js_map_set numbers one_key 99 6 60 false)
unfolding js_map_set
js_map_set_lem_example =
    js_map_set_lem numbers IsNumber one_key 99 6 60 false refl numbers-Hashes tt one_key-IsFresh
      one_key-Holds

two_keys-Holds : Holds numbers IsNumber two_keys
unfolding js_map_set
two_keys-Holds =
    (js_map_set_lem numbers IsNumber one_key 99 6 60 false refl numbers-Hashes tt one_key-IsFresh
      one_key-Holds).0

two_keys_contents : entries two_keys ≡ (5, 50) ∷ (6, 60) ∷ []
unfolding js_map_set select
two_keys_contents = refl

js_map_get_lem_example :
    ((js_map_get numbers two_keys 6).1
      ≡ result_of numbers IsNumber (lookup (λ a b. a == b) (entries two_keys) 6))
    × (entries (js_map_get numbers two_keys 6).0 ≡ entries two_keys)
js_map_get_lem_example = js_map_get_lem numbers IsNumber two_keys 6 numbers-Hashes tt two_keys-Holds

js_map_delete_lem_example :
    Holds numbers IsNumber (js_map_delete numbers two_keys 5).0
    × (entries (js_map_delete numbers two_keys 5).0 ≡ remove (λ a b. a == b) (entries two_keys) 5)
    × ((js_map_delete numbers two_keys 5).1 ≡ js_map_has numbers two_keys 5)
unfolding js_map_set
js_map_delete_lem_example =
    js_map_delete_lem numbers IsNumber two_keys 5 refl numbers-Hashes tt two_keys-Holds

-- An iterator at the key 5, after which there is the key 6.
abbrev at_first : MapIterator ℕ
at_first = record { obj = some 99; kind = keys; cur_record = some 1 }

no_arrays : ℕ → ℕ → ℕ → ℕ × Option ℕ
no_arrays w k v = (w, none)

at_first-Ahead : Ahead numbers no_arrays two_keys.records (some 1) (2 ∷ [])
unfolding js_map_set
at_first-Ahead = ([], refl)

js_map_iterator_next_lem_example :
    Arrives numbers no_arrays at_first 99 false
      (map_decref_record numbers two_keys 1)
      (first_of (live two_keys.heap (2 ∷ [])))
      (js_map_iterator_next numbers no_arrays at_first two_keys false)
js_map_iterator_next_lem_example =
    js_map_iterator_next_lem numbers no_arrays at_first 99 two_keys false (2 ∷ []) refl
      two_keys-Holds.sound at_first-Ahead
