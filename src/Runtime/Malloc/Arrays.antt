-- ===== src/Runtime/Malloc/Arrays.antt =====
-- Growing arrays: `js_resize_array` gives room for all the elements that it reports.
use quick_js_swift.Base.{
  ℕ, ◌+◌, ◌-◌, ◌*◌, ◌/◌, ◌≤◌, ◌<◌, ◌≡◌, ◌≢◌, ◌⊎◌, refl, sym, ap, inl, inr, ltb, leb, max, ◌^◌,
  false, ◌==◌, if◌then◌else◌, Bool-cases, arith, Option, some, none, not, ◌&&◌,
}
use native.Mathlib.Nat.{div-add-mod}
use quick_js_swift.Runtime.Malloc.{
  MallocState, CHeap, JsArray, size_t, minus, js_def_malloc, js_def_realloc, moved, with_slack,
  js_realloc2, resized, js_realloc_array, js_resize_array, int, is_negative, int_half, size_of_int,
  signed_lt, max_int,
}

abbrev the_pair : Option (ℕ × ℕ) → ℕ × ℕ
the_pair none = (0, 0)
the_pair (some x) = x

abbrev the_array : JsArray → Option JsArray → JsArray
the_array d none = d
the_array d (some x) = x

-- Where nothing wraps, the arithmetic of `int` is that of the numbers.
size_of_int_lem : (x : ℕ) → x < 2 ^ 31 → size_of_int x ≡ x
unfolding size_of_int is_negative
size_of_int_lem x h = ground arith

int_half_lem : (x : ℕ) → x < 2 ^ 31 → int_half (int x) ≡ x / 2
unfolding int_half is_negative
int_half_lem x h = let same : int x ≡ x = omega arith in rw same (ground arith)

signed_lt_lem : (x y : ℕ) → x < 2 ^ 31 → y < 2 ^ 31 → signed_lt x y ≡ ltb x y
unfolding signed_lt is_negative
signed_lt_lem x y h k =
    let left : leb (2 ^ 31) x ≡ false = ground arith in
    let right : leb (2 ^ 31) y ≡ false = ground arith in rw (left, right) refl

max_int_lem : (x y : ℕ) → x < 2 ^ 31 → y < 2 ^ 31 → max_int x y ≡ max x y
unfolding max_int
max_int_lem x y h k = rw (signed_lt_lem y x k h) (ground arith)

-- The size that is asked for, where nothing wraps.
grown_size :
    (psize req_size : ℕ)
    → psize * 3 < 2 ^ 31
    → req_size < 2 ^ 31
    → max_int req_size (int_half (int (psize * 3))) ≡ max req_size (psize * 3 / 2)
grown_size psize req_size h k =
    rw (int_half_lem (psize * 3) h) (max_int_lem req_size (psize * 3 / 2) k (omega arith))

module _ {H : Type 0} (c : CHeap H) where
  -- A block from the heap has the bytes that were asked for.
  pub record IsUsable : Type 0 where
    pub malloc_usable :
        (h : H) (n : ℕ)
        → (c.malloc h n).1 ≢ 0
        → n ≤ c.malloc_usable_size (c.malloc h n).0 (c.malloc h n).1
    pub realloc_usable :
        (h : H) (p n : ℕ)
        → (c.realloc h p n).1 ≢ 0
        → n ≤ c.malloc_usable_size (c.realloc h p n).0 (c.realloc h p n).1

  -- No block, or one with `size` bytes.
  abbrev HasBytes : ℕ → MallocState H × ℕ → Type 0
  HasBytes size r = (r.1 ≡ 0) ⊎ (size ≤ c.malloc_usable_size r.0.heap r.1)

  -- A block, with its slack past `size` bytes.
  abbrev HasSlack : ℕ → MallocState H × Option (ℕ × ℕ) → Type 0
  HasSlack size r =
      (p slack : ℕ) → r.1 ≡ some (p, slack) → p ≢ 0 → size + slack ≤ c.malloc_usable_size r.0.heap p

  js_def_malloc-HasBytes :
      IsUsable → (s : MallocState H) (size : ℕ) → HasBytes size (js_def_malloc c s size)
  unfolding js_def_malloc
  js_def_malloc-HasBytes u s size =
      elim (Bool-cases (ltb s.malloc_limit (size_t (s.malloc_size + size)))) [
        | inl over ↦ rw over (inl refl)
        | inr within ↦ elim (Bool-cases ((c.malloc s.heap size).1 == 0)) [
          | inl null ↦ rw (within, null) (inl refl)
          | inr block ↦ rw (within, block) (inr (u.malloc_usable s.heap size (ground arith)))
        ]
      ]

  moved-HasBytes :
      IsUsable
      → (s : MallocState H) (ptr size old_size : ℕ) → HasBytes size (moved c s ptr size old_size)
  unfolding moved
  moved-HasBytes u s ptr size old_size =
      elim (Bool-cases (ltb s.malloc_limit (minus (s.malloc_size + size) old_size))) [
        | inl over ↦ rw over (inl refl)
        | inr within ↦ elim (Bool-cases ((c.realloc s.heap ptr size).1 == 0)) [
          | inl null ↦ rw (within, null) (inl refl)
          | inr block ↦ rw (within, block) (inr (u.realloc_usable s.heap ptr size (ground arith)))
        ]
      ]

  js_def_realloc-HasBytes :
      IsUsable → (s : MallocState H) (ptr size : ℕ) → HasBytes size (js_def_realloc c s ptr size)
  unfolding js_def_realloc
  js_def_realloc-HasBytes u s ptr size = elim (Bool-cases (ptr == 0)) [
    | inl null ↦ elim (Bool-cases (size == 0)) [
      | inl empty ↦ rw (null, empty) (inl refl)
      | inr more ↦ rw (null, more) (js_def_malloc-HasBytes u s size)
    ]
    | inr block ↦ elim (Bool-cases (size == 0)) [
      | inl empty ↦ rw (block, empty) (inl refl)
      | inr more ↦ rw (block, more) (moved-HasBytes u s ptr size _)
    ]
  ]

  with_slack-HasSlack :
      (size : ℕ) (r : MallocState H × ℕ) → HasBytes size r → HasSlack size (with_slack c size r)
  unfolding with_slack
  with_slack-HasSlack size (s, ret) has p slack e block =
      elim (Bool-cases (ret == 0 && not (size == 0))) [
        | inl fails ↦ absurd (none_not_some (rw fails at e))
        | inr works ↦
            let same : ret ≡ p = ap (λ o. (the_pair o).0) (rw works at e) in
            let rest = ap (λ o. (the_pair o).1) (rw works at e) in
            rw (works, ← same, ← rest) (enough (has_bytes (rw (← same) at block) has))
      ]
    where
      none_not_some : {x : ℕ × ℕ} → none ≡ some x → ⊥
      none_not_some h = cc

      has_bytes : ret ≢ 0 → HasBytes size (s, ret) → size ≤ c.malloc_usable_size s.heap ret
      has_bytes block (inl null) = absurd (block null)
      has_bytes block (inr bytes) = bytes

      enough : {n : ℕ} → size ≤ n → size + (if ltb size n then n - size else 0) ≤ n
      enough h = ground arith

  resized_lem :
      (elem_size new_size : ℕ) (r : MallocState H × Option (ℕ × ℕ)) (array' : JsArray)
      → 0 < elem_size
      → elem_size < 2 ^ 31
      → new_size * elem_size < 2 ^ 31
      → HasSlack (new_size * elem_size) r
      → (resized elem_size new_size r).1 ≡ some array'
      → c.malloc_usable_size (resized elem_size new_size r).0.heap array'.parray < 2 ^ 31
      → (new_size ≤ array'.psize)
        × (array'.psize * elem_size
            ≤ c.malloc_usable_size (resized elem_size new_size r).0.heap array'.parray)
  unfolding resized
  resized_lem elem_size new_size (s, none) array' pos k small h e u = cc
  resized_lem elem_size new_size (s, some (p, slack)) array' pos k small h e u =
      elim (Bool-cases (p == 0)) [
        | inl null ↦ absurd (none_not_some (rw null at e))
        | inr block ↦
            let count : ℕ = int (size_of_int new_size + slack / size_of_int elem_size) in
            let same : record { parray = p; psize = count } ≡ array' =
              ap (the_array array') (rw block at e) in
            let bytes = h p slack refl (ground arith) in
            let few : c.malloc_usable_size s.heap p < 2 ^ 31 = rw (block, ← same) at u in
            let whole = count_lem slack (omega (arith, bytes, few)) in
            rw (block, ← same)
              (omega (arith, whole), rw whole (omega (arith, bytes, div_mul_le slack)))
      ]
    where
      none_not_some : {x : JsArray} → none ≡ some x → ⊥
      none_not_some h = cc

      div_mul_le : (n : ℕ) → n / elem_size * elem_size ≤ n
      div_mul_le n = omega (arith, div-add-mod n elem_size)

      new_size_le : new_size ≤ new_size * elem_size
      new_size_le = grind arith

      count_lem :
          (slack : ℕ)
          → new_size * elem_size + slack < 2 ^ 31
          → int (size_of_int new_size + slack / size_of_int elem_size)
            ≡ new_size + slack / elem_size
      count_lem slack h =
          let le = div_mul_le slack in
          let part : slack / elem_size ≤ slack / elem_size * elem_size = grind arith in
          rw (size_of_int_lem new_size (omega (arith, new_size_le)), size_of_int_lem elem_size k)
            (omega (arith, new_size_le, le, part))

  -- When `js_resize_array` returns 0 the array has `req_size` elements at least, and if it was
  -- grown, its block has the bytes for all of them. The condition is that no `int` wraps: three
  -- times the old size, the bytes asked for and those of the new block are below 2 ^ 31.
  pub js_resize_array_lem :
      (s : MallocState H) (array array' : JsArray) (elem_size req_size : ℕ)
      → IsUsable
      → 0 < elem_size
      → elem_size < 2 ^ 31
      → req_size < 2 ^ 31
      → array.psize * 3 < 2 ^ 31
      → max req_size (array.psize * 3 / 2) * elem_size < 2 ^ 31
      → (js_resize_array c s array elem_size req_size).1 ≡ some array'
      → c.malloc_usable_size (js_resize_array c s array elem_size req_size).0.heap array'.parray
        < 2 ^ 31
      → (req_size ≤ array'.psize)
        × (((array'.psize ≡ array.psize) × (array'.parray ≡ array.parray))
            ⊎ (array'.psize * elem_size
                ≤ c.malloc_usable_size
                    (js_resize_array c s array elem_size req_size).0.heap
                    array'.parray))
  unfolding js_resize_array js_realloc_array js_realloc2
  js_resize_array_lem s array array' elem_size req_size u pos small req old bytes ok few =
      let test = signed_lt_lem array.psize req_size (omega arith) req in
      let new_size = max req_size (array.psize * 3 / 2) in
      let asked : max_int req_size (int_half (int (array.psize * 3))) ≡ new_size =
        grown_size array.psize req_size old req in
      let size : size_of_int (int (new_size * elem_size)) ≡ new_size * elem_size =
        let fits : int (new_size * elem_size) ≡ new_size * elem_size = omega arith in
        rw fits (size_of_int_lem (new_size * elem_size) bytes) in
      elim (Bool-cases (ltb array.psize req_size)) [
        | inl more ↦
            let r = js_realloc2 c s array.parray (new_size * elem_size) in
            let done =
              resized_lem elem_size new_size r array' pos small bytes
                (with_slack-HasSlack _ _
                  (js_def_realloc-HasBytes u s array.parray (new_size * elem_size)))
                (rw (test, more, asked, size) at ok) (rw (test, more, asked, size) at few) in
            rw (test, more, asked, size) (omega (arith, done.0), inr done.1)
        | inr enough ↦
            let same = ap (the_array array') (rw (test, enough) at ok) in
            (
              ground (arith, ap (λ (x : JsArray). x.psize) same),
              inl (
                sym (ap (λ (x : JsArray). x.psize) same),
                sym (ap (λ (x : JsArray). x.parray) same),
              ),
            )
      ]
