-- ===== src/Unicode/CharRange/Loop.antt =====
-- The loop of `cr_op` adds the merged points, or reports that the allocator refused.
use Prim.Native.Nat.{compare, Ordering}
use quick_js_swift.Base.{
  ℕ, ◌+◌, ◌*◌, ◌/◌, ◌%◌, max, ◌≡◌, refl, sym, ap, ◌∙◌, List, [], ◌∷◌, ◌++◌, Bool, true, false, xor,
  not, arith, leb, ◌==◌, if◌then◌else◌, length, Bool-cases, inl, inr, bit_and, bit_or, bit_xor,
  compare_cases, xor-false,
}
use quick_js_swift.Base.Bits.{and_ones}
use mathlib.Core.List.{append_assoc, append-nil}
use mathlib.Core.Path.{ap₂}
use quick_js_swift.Unicode.CharRange.{
  CharRange, CharRangeOp, union, inter, is_in, emit, op_loop, cr_realloc, cr_add_point, Outcome,
  ◌>>=◌,
}
use quick_js_swift.Unicode.CharRange.Member.{status}
use quick_js_swift.Unicode.CharRange.Merge.{
  point, merged, is_odd, is_odd-point, merged-lt, merged-eq, merged-gt, merged-left, merged-right,
}

odd : ℕ → Bool
odd n = n % 2 == 1

bit : Bool → ℕ
bit true = 1
bit false = 0

odd-suc : (n : ℕ) → odd (n + 1) ≡ not (odd n)
unfolding odd
odd-suc n = ground arith

low_bit : (n : ℕ) → bit_and n 1 ≡ bit (odd n)
unfolding odd bit
low_bit n = and_ones 1 n ∙ ground arith

length-bit : (xs : List ℕ) → bit_and (length xs) 1 ≡ bit (is_odd xs)
length-bit xs = low_bit (length xs) ∙ ap bit (go xs)
  where
    go : (xs : List ℕ) → odd (length xs) ≡ is_odd xs
    go [] = unfold odd in refl
    go (x ∷ xs) = ap odd (omega arith) ∙ odd-suc (length xs) ∙ ap not (go xs)

or_bits : (p q : Bool) → bit_or (bit p) (bit q) ≡ bit (status union p q)
unfolding bit
or_bits true true = refl
or_bits true false = refl
or_bits false true = refl
or_bits false false = refl

and_bits : (p q : Bool) → bit_and (bit p) (bit q) ≡ bit (status inter p q)
unfolding bit
and_bits true true = refl
and_bits true false = refl
and_bits false true = refl
and_bits false false = refl

xor_bits : (p q : Bool) → bit_xor (bit p) (bit q) ≡ bit (xor p q)
unfolding bit
xor_bits true true = refl
xor_bits true false = refl
xor_bits false true = refl
xor_bits false false = refl

is_in-bit : (op : CharRangeOp) (i j : ℕ) → is_in op i j ≡ bit (status op (odd i) (odd j))
unfolding is_in
is_in-bit union i j = ap₂ bit_or (low_bit i) (low_bit j) ∙ or_bits (odd i) (odd j)
is_in-bit inter i j = ap₂ bit_and (low_bit i) (low_bit j) ∙ and_bits (odd i) (odd j)
is_in-bit CharRangeOp.xor i j = ap₂ bit_xor (low_bit i) (low_bit j) ∙ xor_bits (odd i) (odd j)

same_bits : (p q : Bool) → (bit p == bit q) ≡ not (xor p q)
unfolding bit
same_bits true true = refl
same_bits true false = refl
same_bits false true = refl
same_bits false false = refl

is_odd-append : (xs ys : List ℕ) → is_odd (xs ++ ys) ≡ xor (is_odd xs) (is_odd ys)
is_odd-append [] ys = refl
is_odd-append (x ∷ xs) ys = ap not (is_odd-append xs ys) ∙ not-xor (is_odd xs) (is_odd ys)
  where
    not-xor : (p q : Bool) → not (xor p q) ≡ xor (not p) q
    not-xor false false = refl
    not-xor false true = refl
    not-xor true false = refl
    not-xor true true = refl

point-append :
    (now before : Bool) (v : ℕ) (rest : List ℕ)
    → point now before v [] ++ rest ≡ point now before v rest
unfolding point
point-append now before v rest = elim (Bool-cases (xor now before)) [ inl e ↦ rw e | inr e ↦ rw e ]

pub status_none : (op : CharRangeOp) → status op false false ≡ false
status_none union = refl
status_none inter = refl
status_none CharRangeOp.xor = refl

module _ {S : Type 0} (realloc : S → ℕ → S × Bool) where
  -- The allocator meets every request.
  abbrev pub Grants : Type 0
  Grants = (s : S) (n : ℕ) → (realloc s n).1 ≡ true

  -- `r` returned 0 with `pts` added to `cr`; a -1 takes a refused request.
  abbrev pub Adds : CharRange S → List ℕ → Outcome S → Type 0
  Adds cr pts r = (Grants → r.1 ≡ true) × (r.1 ≡ true → r.0.points ≡ cr.points ++ pts)

  pub >>=-Adds :
      (cr : CharRange S) (ps qs : List ℕ) (m : Outcome S) (f : CharRange S → Outcome S)
      → Adds cr ps m
      → ((cr' : CharRange S) → cr'.points ≡ cr.points ++ ps → Adds cr' qs (f cr'))
      → Adds cr (ps ++ qs) (m >>= f)
  >>=-Adds cr ps qs (cr', true) f h k =
      let rest = k cr' (h.1 refl) in
      (
        rest.0,
        λ ok. rest.1 ok ∙ ap (λ (l : List ℕ). l ++ qs) (h.1 refl) ∙ append_assoc cr.points ps qs,
      )
  >>=-Adds cr ps qs (cr', false) f h k = (h.0, λ ok. cc)

  pub cr_realloc-Adds : (cr : CharRange S) (size : ℕ) → Adds cr [] (cr_realloc realloc cr size)
  unfolding cr_realloc
  cr_realloc-Adds cr size = (
    λ g. ground (arith, g cr.mem_opaque (max size (cr.size * 3 / 2) * 4)),
    λ ok. ground (arith, append-nil cr.points),
  )

  room-Adds :
      (cr : CharRange S) (full : Bool) (size : ℕ)
      → Adds cr [] (if full then cr_realloc realloc cr size else (cr, true))
  room-Adds cr true size = cr_realloc-Adds cr size
  room-Adds cr false size = (λ g. refl, λ ok. sym (append-nil cr.points))

  -- Points stored behind the old ones once there is room.
  stored-Adds :
      (cr : CharRange S) (full : Bool) (size : ℕ) (pts : List ℕ)
      → Adds cr pts (
          (if full then cr_realloc realloc cr size else (cr, true)) >>= λ cr'.
          (record cr' { points = cr'.points ++ pts }, true))
  stored-Adds cr full size pts =
      >>=-Adds cr [] pts (if full then cr_realloc realloc cr size else (cr, true)) _
        (room-Adds cr full size) (λ cr' e. (λ g. refl, λ ok. refl))

  pub cr_add_point-Adds : (cr : CharRange S) (v : ℕ) → Adds cr (v ∷ []) (cr_add_point realloc cr v)
  unfolding cr_add_point
  cr_add_point-Adds cr v =
      stored-Adds cr (leb cr.size (length cr.points)) (length cr.points + 1) (v ∷ [])

  emit-Adds :
      (op : CharRangeOp) (i j v : ℕ) (cr : CharRange S)
      → Adds cr
          (point (status op (odd i) (odd j)) (is_odd cr.points) v [])
          (emit realloc op i j v cr)
  unfolding emit point
  emit-Adds op i j v cr =
      rw
        (
          is_in-bit op i j,
          length-bit cr.points,
          same_bits (status op (odd i) (odd j)) (is_odd cr.points),
        )
        (elim (Bool-cases (xor (status op (odd i) (odd j)) (is_odd cr.points))) [
          | inl e ↦ rw e (cr_add_point-Adds cr v)
          | inr e ↦ rw e (λ g. refl, λ ok. sym (append-nil cr.points))
        ])

  -- A step of the loop: one point read, then the rest.
  step-Adds :
      (op : CharRangeOp) (i j v : ℕ) (cr : CharRange S) (rest : List ℕ)
      (f : CharRange S → Outcome S)
      → ((cr' : CharRange S)
          → is_odd cr'.points ≡ status op (odd i) (odd j)
          → Adds cr' rest (f cr'))
      → Adds cr
          (point (status op (odd i) (odd j)) (is_odd cr.points) v rest)
          (emit realloc op i j v cr >>= f)
  step-Adds op i j v cr rest f k =
      let now = status op (odd i) (odd j) in
      let before = is_odd cr.points in
      rw (← point-append now before v rest) (
        >>=-Adds cr (point now before v []) rest (emit realloc op i j v cr) f
          (emit-Adds op i j v cr)
          λ cr' e. k cr' (
            ap is_odd e
            ∙ is_odd-append cr.points (point now before v [])
            ∙ is_odd-point v now before []
            ∙ xor-false now))

  -- The five ways through a round.
  module _ (op : CharRangeOp) (x y : ℕ) (a b : List ℕ) (i j : ℕ) (cr : CharRange S) where
    op_loop-lt :
        compare x y ≡ Ordering.lt
        → op_loop realloc op (x ∷ a) i (y ∷ b) j cr
          ≡ (emit realloc op (i + 1) j x cr >>= λ cr'. op_loop realloc op a (i + 1) (y ∷ b) j cr')
    unfolding op_loop
    op_loop-lt e = rw (e, op_loop)

    op_loop-eq :
        compare x y ≡ Ordering.eq
        → op_loop realloc op (x ∷ a) i (y ∷ b) j cr ≡ (
            emit realloc op (i + 1) (j + 1) x cr >>= λ cr'.
            op_loop realloc op a (i + 1) b (j + 1) cr')
    unfolding op_loop
    op_loop-eq e = rw (e, op_loop)

    op_loop-gt :
        compare x y ≡ Ordering.gt
        → op_loop realloc op (x ∷ a) i (y ∷ b) j cr
          ≡ (emit realloc op i (j + 1) y cr >>= λ cr'. op_loop realloc op (x ∷ a) i b (j + 1) cr')
    unfolding op_loop
    op_loop-gt e = rw (e, op_loop)

    op_loop-left :
        op_loop realloc op (x ∷ a) i [] j cr
        ≡ (emit realloc op (i + 1) j x cr >>= λ cr'. op_loop realloc op a (i + 1) [] j cr')
    unfolding op_loop
    op_loop-left = refl

    op_loop-right :
        op_loop realloc op [] i (y ∷ b) j cr
        ≡ (emit realloc op i (j + 1) y cr >>= λ cr'. op_loop realloc op [] i b (j + 1) cr')
    unfolding op_loop
    op_loop-right = refl

  op_loop-Adds :
      (op : CharRangeOp) (a : List ℕ) (i : ℕ) (b : List ℕ) (j : ℕ) (cr : CharRange S)
      → is_odd cr.points ≡ status op (odd i) (odd j)
      → Adds cr (merged op a (odd i) b (odd j)) (op_loop realloc op a i b j cr)
  op_loop-Adds op [] i [] j cr par =
      unfold op_loop merged in (λ g. refl, λ ok. sym (append-nil cr.points))
  op_loop-Adds op (x ∷ a) i [] j cr par =
      rw
        (
          merged-left op (odd i) (odd j) x 0 a [],
          ← odd-suc i,
          ← par,
          op_loop-left op x 0 a [] i j cr,
        )
        (step-Adds op (i + 1) j x cr _ _ (op_loop-Adds op a (i + 1) [] j))
  op_loop-Adds op [] i (y ∷ b) j cr par =
      rw
        (
          merged-right op (odd i) (odd j) 0 y [] b,
          ← odd-suc j,
          ← par,
          op_loop-right op 0 y [] b i j cr,
        )
        (step-Adds op i (j + 1) y cr _ _ (op_loop-Adds op [] i b (j + 1)))
  op_loop-Adds op (x ∷ a) i (y ∷ b) j cr par = elim (compare_cases x y) [
    | inl (e, _) ↦
        rw
          (
            merged-lt op (odd i) (odd j) x y a b e,
            ← odd-suc i,
            ← par,
            op_loop-lt op x y a b i j cr e,
          )
          (step-Adds op (i + 1) j x cr _ _ (op_loop-Adds op a (i + 1) (y ∷ b) j))
    | inr (inl (e, _)) ↦
        rw
          (
            merged-eq op (odd i) (odd j) x y a b e,
            ← odd-suc i,
            ← odd-suc j,
            ← par,
            op_loop-eq op x y a b i j cr e,
          )
          (step-Adds op (i + 1) (j + 1) x cr _ _ (op_loop-Adds op a (i + 1) b (j + 1)))
    | inr (inr (e, _)) ↦
        rw
          (
            merged-gt op (odd i) (odd j) x y a b e,
            ← odd-suc j,
            ← par,
            op_loop-gt op x y a b i j cr e,
          )
          (step-Adds op i (j + 1) y cr _ _ (op_loop-Adds op (x ∷ a) i b (j + 1)))
  ]

  -- The whole loop, from an empty range.
  pub op_loop_start :
      (op : CharRangeOp) (a b : List ℕ) (cr : CharRange S)
      → cr.points ≡ []
      → Adds cr (merged op a false b false) (op_loop realloc op a 0 b 0 cr)
  unfolding odd
  op_loop_start op a b cr e = op_loop-Adds op a 0 b 0 cr (ap is_odd e ∙ sym (status_none op))
