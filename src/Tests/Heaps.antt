-- ===== src/Tests/Heaps.antt =====
-- A small heap, and memory accounting on it.
use quick_js_swift.Base.{
  ℕ, ◌+◌, ◌*◌, ◌≤◌, ◌<◌, ◌^◌, ◌≡◌, ◌⊎◌, refl, List, [], ◌∷◌, Bool, true, false, ◌==◌, ◌||◌,
  if◌then◌else◌, some, Bool-cases, inl, inr, arith, length,
}
use quick_js_swift.Runtime.Malloc.{
  MallocState, CHeap, JsArray, js_def_malloc, js_def_free, js_def_realloc, js_resize_array,
  js_realloc_array, js_realloc2, with_slack, resized, moved,
}
use quick_js_swift.Runtime.Malloc.Accounts.{
  Allocates, Call, Accounts, AreLegal, call, run, run-Accounts,
}
use quick_js_swift.Runtime.Malloc.Arrays.{IsUsable, js_resize_array_lem}

-- The last pointer, and the blocks with their sizes.
abbrev Blocks : Type 0
Blocks = List (ℕ × ℕ)

abbrev lookup : ℕ → Blocks → ℕ
lookup p [] = 0
lookup p ((q, n) ∷ blocks) = if q == p then n else lookup p blocks

abbrev remove : ℕ → Blocks → Blocks
remove p [] = []
remove p ((q, n) ∷ blocks) = if q == p then blocks else ((q, n) ∷ remove p blocks)

abbrev has_block : ℕ → Blocks → Bool
has_block p [] = false
has_block p ((q, n) ∷ blocks) = q == p || has_block p blocks

abbrev total : Blocks → ℕ
total [] = 0
total ((q, n) ∷ blocks) = n + total blocks

length-remove : (p : ℕ) (b : Blocks) → has_block p b ≡ true → length (remove p b) + 1 ≡ length b
length-remove p [] h = cc
length-remove p ((q, n) ∷ b) h = elim (Bool-cases (q == p)) [
  | inl here ↦ rw here (omega arith)
  | inr there ↦ rw there (omega (arith, length-remove p b (rw there at h)))
]

total-remove :
    (p : ℕ) (b : Blocks) → has_block p b ≡ true → total (remove p b) + lookup p b ≡ total b
total-remove p [] h = cc
total-remove p ((q, n) ∷ b) h = elim (Bool-cases (q == p)) [
  | inl here ↦ rw here (omega arith)
  | inr there ↦ rw there (omega (arith, total-remove p b (rw there at h)))
]

self : (k n : ℕ) (b : Blocks) → lookup k ((k, n) ∷ b) ≡ n
self k n b = let e : (k == k) ≡ true = ground arith in rw e

abbrev blocks : CHeap (ℕ × Blocks)
blocks = record {
  malloc = λ h n. ((h.0 + 1, (h.0 + 1, n) ∷ h.1), h.0 + 1);
  free = λ h p. (h.0, remove p h.1);
  realloc = λ h p n. ((h.0 + 1, (h.0 + 1, n) ∷ remove p h.1), h.0 + 1);
  malloc_usable_size = λ h p. lookup p h.1;
}

abbrev block_laws : Allocates blocks
block_laws = record {
  Live = λ h p. has_block p h.1 ≡ true;
  count = λ h. length h.1;
  held = λ h. total h.1;
  malloc_null = λ h n e. absurd (omega (arith, e));
  malloc_block = λ h n e. (omega arith, omega (arith, self (h.0 + 1) n h.1));
  free_block = λ h p e live. (length-remove p h.1 live, total-remove p h.1 live);
  realloc_null = λ h p n e live null. absurd (omega (arith, null));
  realloc_block = λ h p n e live some_block. (
    omega (arith, length-remove p h.1 live),
    omega (arith, self (h.0 + 1) n (remove p h.1), total-remove p h.1 live),
  );
}

blocks-IsUsable : IsUsable blocks
blocks-IsUsable = record {
  malloc_usable = λ h n e. omega (arith, self (h.0 + 1) n h.1);
  realloc_usable = λ h p n e. omega (arith, self (h.0 + 1) n (remove p h.1));
}

abbrev no_blocks : ℕ × Blocks
no_blocks = (0, [])

-- Room for 1000 bytes.
abbrev empty : MallocState (ℕ × Blocks)
empty = record { malloc_count = 0; malloc_size = 0; malloc_limit = 1000; heap = no_blocks }

-- The second request is past the limit; the first block is resized, and given back.
abbrev calls : List Call
calls = Call.malloc 16 ∷ Call.malloc 2000 ∷ Call.realloc 1 40 ∷ Call.free 2 ∷ []

calls-AreLegal : AreLegal blocks block_laws empty calls
unfolding AreLegal call js_def_malloc js_def_realloc js_def_free moved
calls-AreLegal = (omega arith, (omega arith, (inr refl, (inr refl, tt))))

empty-Accounts : Accounts blocks block_laws empty
empty-Accounts = record { counted = refl; sized = refl }

-- The counters after the calls.
counters_after :
    ((run blocks empty calls).malloc_count ≡ 0) × ((run blocks empty calls).malloc_size ≡ 0)
unfolding run call js_def_malloc js_def_realloc js_def_free moved
counters_after = (refl, refl)

run-Accounts_example : Accounts blocks block_laws (run blocks empty calls)
run-Accounts_example = run-Accounts blocks block_laws empty calls calls-AreLegal empty-Accounts

-- Three elements of eight bytes, from none.
abbrev no_array : JsArray
no_array = record { parray = 0; psize = 0 }

abbrev three : JsArray
three = record { parray = 1; psize = 3 }

grown : (js_resize_array blocks empty no_array 8 3).1 ≡ some three
unfolding js_resize_array js_realloc_array js_realloc2 with_slack resized js_def_realloc
    js_def_malloc
grown = refl

three_few : blocks.malloc_usable_size (js_resize_array blocks empty no_array 8 3).0.heap 1 < 2 ^ 31
unfolding js_resize_array js_realloc_array js_realloc2 with_slack resized js_def_realloc
    js_def_malloc
three_few = omega arith

js_resize_array_lem_example :
    (3 ≤ three.psize)
    × (((three.psize ≡ no_array.psize) × (three.parray ≡ no_array.parray))
        ⊎ (three.psize * 8
            ≤ blocks.malloc_usable_size
                (js_resize_array blocks empty no_array 8 3).0.heap
                three.parray))
js_resize_array_lem_example =
    js_resize_array_lem blocks empty no_array three 8 3 blocks-IsUsable (omega arith) (omega arith)
      (omega arith) (omega arith) (omega arith) grown three_few
