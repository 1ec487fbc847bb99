-- ===== src/Runtime/Malloc/Accounts.antt =====
-- The counters of `JSMallocState` agree with the heap, whatever is called.
use quick_js_swift.Base.{
  ℕ, ◌+◌, ◌*◌, ◌%◌, ◌^◌, ◌≡◌, ◌≢◌, ◌⊎◌, inl, inr, List, [], ◌∷◌, ltb, ◌==◌, ==_iff, Bool-cases,
  arith,
}
use quick_js_swift.Runtime.Malloc.{
  MallocState, CHeap, size_t, minus, malloc_overhead, js_def_malloc, js_def_free, js_def_realloc,
  moved,
}

-- The heap of the C library: which blocks are handed out, how many, and their usable bytes
-- together. A call that returns NULL changes none of it.
pub record Allocates {H : Type 0} (c : CHeap H) : Type 1 where
  pub Live : H → ℕ → Type 0
  pub count : H → ℕ
  pub held : H → ℕ
  pub malloc_null :
      (h : H) (n : ℕ)
      → (c.malloc h n).1 ≡ 0
      → (count (c.malloc h n).0 ≡ count h) × (held (c.malloc h n).0 ≡ held h)
  pub malloc_block :
      (h : H) (n : ℕ)
      → (c.malloc h n).1 ≢ 0
      → (count (c.malloc h n).0 ≡ count h + 1)
        × (held (c.malloc h n).0 ≡ held h + c.malloc_usable_size (c.malloc h n).0 (c.malloc h n).1)
  pub free_block :
      (h : H) (p : ℕ)
      → p ≢ 0
      → Live h p
      → (count (c.free h p) + 1 ≡ count h) × (held (c.free h p) + c.malloc_usable_size h p ≡ held h)
  pub realloc_null :
      (h : H) (p n : ℕ)
      → p ≢ 0
      → Live h p
      → (c.realloc h p n).1 ≡ 0
      → (count (c.realloc h p n).0 ≡ count h) × (held (c.realloc h p n).0 ≡ held h)
  pub realloc_block :
      (h : H) (p n : ℕ)
      → p ≢ 0
      → Live h p
      → (c.realloc h p n).1 ≢ 0
      → (count (c.realloc h p n).0 ≡ count h)
        × (held (c.realloc h p n).0 + c.malloc_usable_size h p
            ≡ held h + c.malloc_usable_size (c.realloc h p n).0 (c.realloc h p n).1)

-- A call through the runtime's function table.
pub data Call : Type 0 where
  malloc : ℕ → Call
  free : ℕ → Call
  realloc : ℕ → ℕ → Call

module _ {H : Type 0} (c : CHeap H) where
  unfoldable pub call : MallocState H → Call → MallocState H
  call s (malloc size) = (js_def_malloc c s size).0
  call s (free ptr) = js_def_free c s ptr
  call s (realloc ptr size) = (js_def_realloc c s ptr size).0

  unfoldable pub run : MallocState H → List Call → MallocState H
  unfolding call
  run s [] = s
  run s (x ∷ calls) = run (call s x) calls

  module _ (law : Allocates c) where
    -- Only blocks that are handed out are given back or resized, or NULL.
    abbrev pub IsLegal : MallocState H → Call → Type 0
    IsLegal s (malloc size) = size ≢ 0
    IsLegal s (free ptr) = (ptr ≡ 0) ⊎ law.Live s.heap ptr
    IsLegal s (realloc ptr size) = (ptr ≡ 0) ⊎ law.Live s.heap ptr

    unfoldable pub AreLegal : MallocState H → List Call → Type 0
    unfolding call
    AreLegal s [] = Unit {0}
    AreLegal s (x ∷ calls) = IsLegal s x × AreLegal (call s x) calls

    pub record Accounts (s : MallocState H) : Type 0 where
      pub counted : s.malloc_count ≡ law.count s.heap % 2 ^ 64
      pub sized : s.malloc_size ≡ (law.held s.heap + law.count s.heap * malloc_overhead) % 2 ^ 64

    js_def_malloc-Accounts :
        (s : MallocState H) (size : ℕ) → Accounts s → Accounts (js_def_malloc c s size).0
    unfolding js_def_malloc
    js_def_malloc-Accounts s size a =
        elim (Bool-cases (ltb s.malloc_limit (size_t (s.malloc_size + size)))) [
          | inl over ↦ rw over a
          | inr within ↦ elim (Bool-cases ((c.malloc s.heap size).1 == 0)) [
            | inl null ↦
                let same = law.malloc_null s.heap size ((==_iff _ _).0 null) in
                rw (within, null)
                  (record {
                    counted = omega (arith, same.0, a.counted);
                    sized = omega (arith, same.0, same.1, a.sized);
                  })
            | inr block ↦
                let more = law.malloc_block s.heap size (ground arith) in
                rw (within, block)
                  (record {
                    counted = omega (arith, more.0, a.counted);
                    sized = omega (arith, more.0, more.1, a.sized);
                  })
          ]
        ]

    is_live : {h : H} (p : ℕ) → p ≢ 0 → (p ≡ 0) ⊎ law.Live h p → law.Live h p
    is_live p block (inl null) = absurd (block null)
    is_live p block (inr live) = live

    js_def_free-Accounts :
        (s : MallocState H) (ptr : ℕ)
        → (ptr ≡ 0) ⊎ law.Live s.heap ptr
        → Accounts s
        → Accounts (js_def_free c s ptr)
    unfolding js_def_free
    js_def_free-Accounts s ptr legal a = elim (Bool-cases (ptr == 0)) [
      | inl null ↦ rw null a
      | inr block ↦
          let less = law.free_block s.heap ptr (ground arith) (is_live ptr (ground arith) legal) in
          rw block (record {
            counted = omega (arith, less.0, a.counted);
            sized = omega (arith, less.0, less.1, a.sized);
          })
    ]

    moved-Accounts :
        (s : MallocState H) (ptr size : ℕ)
        → ptr ≢ 0
        → law.Live s.heap ptr
        → Accounts s
        → Accounts (moved c s ptr size (c.malloc_usable_size s.heap ptr)).0
    unfolding moved
    moved-Accounts s ptr size some_block live a =
        let old_size = c.malloc_usable_size s.heap ptr in
        elim (Bool-cases (ltb s.malloc_limit (minus (s.malloc_size + size) old_size))) [
          | inl over ↦ rw over a
          | inr within ↦ elim (Bool-cases ((c.realloc s.heap ptr size).1 == 0)) [
            | inl null ↦
                let same = law.realloc_null s.heap ptr size some_block live ((==_iff _ _).0 null) in
                rw (within, null)
                  (record {
                    counted = omega (arith, same.0, a.counted);
                    sized = omega (arith, same.0, same.1, a.sized);
                  })
            | inr block ↦
                let new = law.realloc_block s.heap ptr size some_block live (ground arith) in
                rw (within, block)
                  (record {
                    counted = omega (arith, new.0, a.counted);
                    sized = omega (arith, new.0, new.1, a.sized);
                  })
          ]
        ]

    js_def_realloc-Accounts :
        (s : MallocState H) (ptr size : ℕ)
        → (ptr ≡ 0) ⊎ law.Live s.heap ptr
        → Accounts s
        → Accounts (js_def_realloc c s ptr size).0
    unfolding js_def_realloc
    js_def_realloc-Accounts s ptr size legal a = elim (Bool-cases (ptr == 0)) [
      | inl null ↦ elim (Bool-cases (size == 0)) [
        | inl empty ↦ rw (null, empty) a
        | inr more ↦ rw (null, more) (js_def_malloc-Accounts s size a)
      ]
      | inr block ↦
          let some_block : ptr ≢ 0 = ground arith in
          let live = is_live ptr some_block legal in
          elim (Bool-cases (size == 0)) [
            | inl empty ↦
                let less = law.free_block s.heap ptr some_block live in
                rw (block, empty)
                  (record {
                    counted = omega (arith, less.0, a.counted);
                    sized = omega (arith, less.0, less.1, a.sized);
                  })
            | inr more ↦ rw (block, more) (moved-Accounts s ptr size some_block live a)
          ]
    ]

    call-Accounts : (s : MallocState H) (x : Call) → IsLegal s x → Accounts s → Accounts (call s x)
    unfolding call
    call-Accounts s (malloc size) legal a = js_def_malloc-Accounts s size a
    call-Accounts s (free ptr) legal a = js_def_free-Accounts s ptr legal a
    call-Accounts s (realloc ptr size) legal a = js_def_realloc-Accounts s ptr size legal a

    -- Through any calls of `js_def_malloc`, `js_def_free` and `js_def_realloc`, refused ones and
    -- those that the heap fails included, `malloc_count` stays the number of blocks handed out,
    -- and `malloc_size` their usable bytes with the overhead of each, both modulo 2 ^ 64.
    pub run-Accounts :
        (s : MallocState H) (calls : List Call)
        → AreLegal s calls
        → Accounts s
        → Accounts (run s calls)
    unfolding run AreLegal
    run-Accounts s [] legal a = a
    run-Accounts s (x ∷ calls) legal a =
        run-Accounts (call s x) calls legal.1 (call-Accounts s x legal.0 a)
