-- ===== src/Runtime/Malloc.antt =====
-- Memory accounting: `JSMallocState` of Sources/QuickJSC/include/quickjs.h, and the functions
-- behind `def_malloc_funcs`, `js_realloc2` and `js_resize_array` in Sources/QuickJSC/quickjs.c.
-- The C library's heap is a parameter; a pointer is a number, and NULL is 0.
pub mod Accounts
pub mod Arrays
use quick_js_swift.Base.{
  ℕ, zero, suc, ◌+◌, ◌-◌, ◌*◌, ◌/◌, ◌%◌, ◌^◌, List, [], ◌∷◌, Bool, true, false, Option, none, some,
  ltb, leb, ◌==◌, ◌&&◌, not, if◌then◌else◌,
}

-- `heap` is the state of the C library's heap, which the source does not name.
pub record MallocState (H : Type 0) : Type 0 where
  pub malloc_count : ℕ
  pub malloc_size : ℕ
  pub malloc_limit : ℕ
  pub heap : H

-- The functions of the C library that the source calls.
pub record CHeap (H : Type 0) : Type 0 where
  pub malloc : H → ℕ → H × ℕ
  pub free : H → ℕ → H
  pub realloc : H → ℕ → ℕ → H × ℕ
  pub malloc_usable_size : H → ℕ → ℕ

abbrev pub size_t : ℕ → ℕ
size_t n = n % 2 ^ 64

-- Not on Apple's systems, where it is 0.
abbrev pub malloc_overhead : ℕ
malloc_overhead = 8

-- `a - b` on `size_t`.
abbrev pub minus : ℕ → ℕ → ℕ
minus a b = size_t (a + (2 ^ 64 - size_t b))

-- An array and its size in elements.
pub record JsArray : Type 0 where
  pub parray : ℕ
  pub psize : ℕ

-- An `int` is its bit pattern, below 2 ^ 32; its arithmetic wraps. `int_half` is `x / 2`, which
-- rounds to 0, and `size_of_int` is the conversion to `size_t`.
abbrev pub int : ℕ → ℕ
int n = n % 2 ^ 32

pub is_negative : ℕ → Bool
is_negative x = leb (2 ^ 31) x

pub int_half : ℕ → ℕ
unfolding is_negative
int_half x = if is_negative x then int (2 ^ 32 - (2 ^ 32 - x) / 2) else x / 2

pub size_of_int : ℕ → ℕ
unfolding is_negative
size_of_int x = if is_negative x then 2 ^ 64 - (2 ^ 32 - x) else x

-- `x < y`
pub signed_lt : ℕ → ℕ → Bool
unfolding is_negative
signed_lt x y =
    let same = ltb x y in
    let left = is_negative x in
    let right = is_negative y in
    if left then (if right then same else true) else if right then false else same

pub max_int : ℕ → ℕ → ℕ
unfolding signed_lt
max_int a b = if signed_lt b a then a else b

-- What `js_realloc_array` does with the new block and its slack.
unfoldable pub resized :
    {H : Type 0} → ℕ → ℕ → MallocState H × Option (ℕ × ℕ) → MallocState H × Option JsArray
unfolding size_of_int
resized elem_size new_size (s, none) = (s, none)
resized elem_size new_size (s, some (new_array, slack)) =
    let array : JsArray = record {
      parray = new_array;
      psize = int (size_of_int new_size + slack / size_of_int elem_size);
    } in
    if new_array == 0 then (s, none) else (s, some array)

module _ {H : Type 0} (c : CHeap H) where
  -- `size` is not 0, by an assertion.
  unfoldable pub js_def_malloc : MallocState H → ℕ → MallocState H × ℕ
  js_def_malloc s size =
      let (heap, ptr) = c.malloc s.heap size in
      let got : MallocState H = record s {
        malloc_count = size_t (s.malloc_count + 1);
        malloc_size = size_t (s.malloc_size + (c.malloc_usable_size heap ptr + malloc_overhead));
        heap = heap;
      } in
      if ltb s.malloc_limit (size_t (s.malloc_size + size))
      then (s, 0)
      else if ptr == 0
      then (record s { heap = heap }, 0)
      else (got, ptr)

  unfoldable pub js_def_free : MallocState H → ℕ → MallocState H
  js_def_free s ptr =
      let freed : MallocState H = record s {
        malloc_count = minus s.malloc_count 1;
        malloc_size = minus s.malloc_size (c.malloc_usable_size s.heap ptr + malloc_overhead);
        heap = c.free s.heap ptr;
      } in
      if ptr == 0 then s else freed

  -- The block moves or grows, from `old_size` usable bytes.
  unfoldable pub moved : MallocState H → ℕ → ℕ → ℕ → MallocState H × ℕ
  moved s ptr size old_size =
      let (heap, ptr') = c.realloc s.heap ptr size in
      let grown : MallocState H = record s {
        malloc_size = size_t (s.malloc_size + minus (c.malloc_usable_size heap ptr') old_size);
        heap = heap;
      } in
      if ltb s.malloc_limit (minus (s.malloc_size + size) old_size)
      then (s, 0)
      else if ptr' == 0
      then (record s { heap = heap }, 0)
      else (grown, ptr')

  unfoldable pub js_def_realloc : MallocState H → ℕ → ℕ → MallocState H × ℕ
  unfolding js_def_malloc moved
  js_def_realloc s ptr size =
      let old_size = c.malloc_usable_size s.heap ptr in
      let freed : MallocState H = record s {
        malloc_count = minus s.malloc_count 1;
        malloc_size = minus s.malloc_size (old_size + malloc_overhead);
        heap = c.free s.heap ptr;
      } in
      let fresh = if size == 0 then (s, 0) else js_def_malloc s size in
      let other = if size == 0 then (freed, 0) else moved s ptr size old_size in
      if ptr == 0 then fresh else other

  -- What `js_realloc2` makes of the new block.
  unfoldable pub with_slack : ℕ → MallocState H × ℕ → MallocState H × Option (ℕ × ℕ)
  with_slack size (s, ret) =
      let new_size = c.malloc_usable_size s.heap ret in
      let slack = if ltb size new_size then new_size - size else 0 in
      if ret == 0 && not (size == 0) then (s, none) else (s, some (ret, slack))

  -- The block and `*pslack`; `none` is the exception for lack of memory.
  unfoldable pub js_realloc2 : MallocState H → ℕ → ℕ → MallocState H × Option (ℕ × ℕ)
  unfolding js_def_realloc with_slack
  js_realloc2 s ptr size = with_slack size (js_def_realloc s ptr size)

  -- `none` is -1.
  unfoldable pub js_realloc_array : MallocState H → JsArray → ℕ → ℕ → MallocState H × Option JsArray
  unfolding js_realloc2 int_half max_int size_of_int
  js_realloc_array s array elem_size req_size =
      let new_size = max_int req_size (int_half (int (array.psize * 3))) in
      resized elem_size new_size
        (js_realloc2 s array.parray (size_of_int (int (new_size * elem_size))))

  unfoldable pub js_resize_array : MallocState H → JsArray → ℕ → ℕ → MallocState H × Option JsArray
  unfolding js_realloc_array signed_lt
  js_resize_array s array elem_size req_size =
      let grown = js_realloc_array s array elem_size req_size in
      if signed_lt array.psize req_size then grown else (s, some array)
