-- ===== src/Unicode/CharRange.antt =====
-- Character ranges: `CharRange` of Sources/QuickJSC/include/libunicode.h, and `cr_realloc`,
-- `cr_copy`, `cr_compress`, `cr_op`, `cr_union1` and `cr_invert` of
-- Sources/QuickJSC/libunicode.c. The allocator behind `realloc_func` is a parameter.
pub mod Array
pub mod Member
pub mod Merge
pub mod Loop
pub mod Ops
use Prim.Native.Nat.{compare, Ordering}
use quick_js_swift.Base.{
  ℕ, zero, suc, ◌+◌, ◌-◌, ◌*◌, ◌/◌, ◌%◌, ◌^◌, max, bit_and, bit_or, bit_xor, ◌≡◌, List, [], ◌∷◌,
  ◌++◌, Bool, true, false, ◌&&◌, ltb, leb, ◌==◌, if◌then◌else◌, length, get_or, set, take,
}

-- `points` holds the `len` points in use; `size` is the number of points allocated.
pub record CharRange (S : Type 0) : Type 0 where
  pub points : List ℕ
  pub size : ℕ
  pub mem_opaque : S

pub data CharRangeOp : Type 0 where
  union inter xor : CharRangeOp

-- What a function leaves in its range, and whether it returned 0 (`true`) or -1 (`false`).
abbrev pub Outcome : Type 0 → Type 0
Outcome S = CharRange S × Bool

infixl 5 ◌>>=◌
abbrev pub ◌>>=◌ : {S : Type 0} → Outcome S → (CharRange S → Outcome S) → Outcome S
(cr, true) >>= f = f cr
(cr, false) >>= f = (cr, false)

cr_init : {S : Type 0} → S → CharRange S
cr_init opaque = record { points = []; size = 0; mem_opaque = opaque }

-- `points[i]`, within `len` wherever it is used.
pub at : List ℕ → ℕ → ℕ
at pt i = get_or pt i 0

-- while ((j + 3) < len && pt[j + 1] == pt[j + 2]) j += 2;
pub run_end : ℕ → List ℕ → ℕ → ℕ → ℕ
unfolding at
run_end zero pt len j = j
run_end (suc fuel) pt len j =
    let on = run_end fuel pt len (j + 2) in
    if ltb (j + 3) len && (at pt (j + 1) == at pt (j + 2)) then on else j

-- The outer loop at `i` and `k`; it returns the array and the final `k`.
pub compress_loop : ℕ → List ℕ → ℕ → ℕ → ℕ → List ℕ × ℕ
unfolding at run_end
compress_loop zero pt len i k = (pt, k)
compress_loop (suc fuel) pt len i k =
    let j = run_end len pt len i in
    let skip = compress_loop fuel pt len (i + 2) k in
    let copy =
      compress_loop fuel (set (set pt k (at pt i)) (k + 1) (at pt (j + 1))) len (j + 2) (k + 2) in
    let body = if at pt i == at pt (i + 1) then skip else copy in
    if ltb (i + 1) len then body else (pt, k)

-- The points that `cr_compress` leaves: the array is cut at `k`.
pub compress : List ℕ → List ℕ
unfolding compress_loop
compress points =
    let (pt, k) = compress_loop (length points) points (length points) 0 0 in take k pt

unfoldable pub cr_compress : {S : Type 0} → CharRange S → CharRange S
cr_compress cr = record cr { points = compress cr.points }

-- `a_idx` and `b_idx` count the points read.
pub is_in : CharRangeOp → ℕ → ℕ → ℕ
is_in union a_idx b_idx = bit_or (bit_and a_idx 1) (bit_and b_idx 1)
is_in inter a_idx b_idx = bit_and (bit_and a_idx 1) (bit_and b_idx 1)
is_in xor a_idx b_idx = bit_xor (bit_and a_idx 1) (bit_and b_idx 1)

module _ {S : Type 0} (realloc : S → ℕ → S × Bool) where
  -- `size` is the size asked for; a point takes four bytes.
  unfoldable pub cr_realloc : CharRange S → ℕ → Outcome S
  cr_realloc cr size =
      let new_size = max size (cr.size * 3 / 2) in
      let (opaque, granted) = realloc cr.mem_opaque (new_size * 4) in
      let grown = record cr { size = new_size; mem_opaque = opaque } in
      let refused = record cr { mem_opaque = opaque } in
      if ltb cr.size size then (if granted then (grown, true) else (refused, false)) else (cr, true)

  pub cr_free : CharRange S → CharRange S
  cr_free cr = record cr { mem_opaque = (realloc cr.mem_opaque 0).0 }

  pub cr_copy : CharRange S → CharRange S → Outcome S
  unfolding cr_realloc
  cr_copy cr cr1 = do
    cr' ← cr_realloc cr (length cr1.points)
    (record cr' { points = cr1.points }, true)

  unfoldable pub cr_add_point : CharRange S → ℕ → Outcome S
  unfolding cr_realloc
  cr_add_point cr v = do
    cr' ←
        if leb cr.size (length cr.points) then cr_realloc cr (length cr.points + 1) else (cr, true)
    (record cr' { points = cr'.points ++ (v ∷ []) }, true)

  unfoldable pub cr_add_interval : CharRange S → ℕ → ℕ → Outcome S
  unfolding cr_realloc
  cr_add_interval cr c1 c2 = do
    cr' ←
        if ltb cr.size (length cr.points + 2)
        then cr_realloc cr (length cr.points + 2)
        else (cr, true)
    (record cr' { points = cr'.points ++ (c1 ∷ c2 ∷ []) }, true)

  -- The point `v` is added if the in/out status changes.
  pub emit : CharRangeOp → ℕ → ℕ → ℕ → CharRange S → Outcome S
  unfolding cr_add_point is_in
  emit op a_idx b_idx v cr =
      if is_in op a_idx b_idx == bit_and (length cr.points) 1 then (cr, true) else cr_add_point cr v

  -- The loop of `cr_op`; the lists are what is left of `a_pt` and `b_pt`.
  pub op_loop : CharRangeOp → List ℕ → ℕ → List ℕ → ℕ → CharRange S → Outcome S
  unfolding emit
  op_loop op [] i [] j cr = (cr, true)
  op_loop op (x ∷ a) i [] j cr = do cr' ← emit op (i + 1) j x cr; op_loop op a (i + 1) [] j cr'
  op_loop op [] i (y ∷ b) j cr = do cr' ← emit op i (j + 1) y cr; op_loop op [] i b (j + 1) cr'
  op_loop op (x ∷ a) i (y ∷ b) j cr = elim (compare x y) [
    | Ordering.lt ↦ emit op (i + 1) j x cr >>= λ cr'. op_loop op a (i + 1) (y ∷ b) j cr'
    | Ordering.eq ↦ emit op (i + 1) (j + 1) x cr >>= λ cr'. op_loop op a (i + 1) b (j + 1) cr'
    | Ordering.gt ↦ emit op i (j + 1) y cr >>= λ cr'. op_loop op (x ∷ a) i b (j + 1) cr'
  ]

  pub cr_op : CharRange S → List ℕ → List ℕ → CharRangeOp → Outcome S
  unfolding op_loop cr_compress
  cr_op cr a b op = do cr' ← op_loop op a 0 b 0 cr; (cr_compress cr', true)

  -- `cr` starts again from no points while the old ones are read, and these are freed at the end.
  pub cr_union1 : CharRange S → List ℕ → Outcome S
  unfolding cr_op cr_free
  cr_union1 cr b =
      let (cr', ret) = cr_op (record cr { points = []; size = 0 }) cr.points b union in
      (record cr' { mem_opaque = (realloc cr'.mem_opaque 0).0 }, ret)

  -- `c2 + 1` wraps at 2 ^ 32.
  pub cr_union_interval : CharRange S → ℕ → ℕ → Outcome S
  unfolding cr_union1
  cr_union_interval cr c1 c2 = cr_union1 cr (c1 ∷ ((c2 + 1) % 2 ^ 32) ∷ [])

  pub cr_invert : CharRange S → Outcome S
  unfolding cr_realloc cr_compress
  cr_invert cr = do
    cr' ← cr_realloc cr (length cr.points + 2)
    (cr_compress (record cr' { points = 0 ∷ (cr'.points ++ ((2 ^ 32 - 1) ∷ [])) }), true)
