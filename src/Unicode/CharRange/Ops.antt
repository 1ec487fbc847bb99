-- ===== src/Unicode/CharRange/Ops.antt =====
-- What `cr_op`, `cr_union1`, `cr_union_interval` and `cr_invert` promise: sets of code points.
use quick_js_swift.Base.{
  ℕ, ◌+◌, ◌-◌, ◌%◌, ◌^◌, ◌≤◌, ◌<◌, ◌≡◌, refl, sym, ap, ◌∙◌, List, [], ◌∷◌, ◌++◌, Bool, true, false,
  xor, not, arith, ltb, leb, length, Bool-cases, inl, inr, ◌&&◌, ◌||◌, All,
}
use mathlib.Core.Path.{ap₂}
use mathlib.Core.List.{append-nil}
use quick_js_swift.Unicode.CharRange.{
  CharRange, CharRangeOp, union, op_loop, cr_op, cr_union1, cr_union_interval, cr_invert,
  cr_realloc, cr_compress, compress, Outcome, ◌>>=◌,
}
use quick_js_swift.Unicode.CharRange.Array.{compress-compacted}
use quick_js_swift.Unicode.CharRange.Member.{
  status, inside, IsAscending, IsPaired, IsCanonical, inside-compacted, compacted-IsCanonical,
  All-compacted, IsRising-unique, IsRising-IsAscending, inside-append,
}
use quick_js_swift.Unicode.CharRange.Merge.{
  merged, is_odd, is_odd-merged, IsAscending-merged, inside-merged, IsPaired-even, even-IsPaired,
}
use quick_js_swift.Unicode.CharRange.Loop.{
  Grants, Adds, op_loop_start, status_none, cr_realloc-Adds,
}

-- Intervals in order, perhaps empty or adjacent.
abbrev pub IsRanges : List ℕ → Type 0
IsRanges ps = IsAscending 0 ps × IsPaired ps

canonical-IsRanges : (ps : List ℕ) → IsCanonical ps → IsRanges ps
canonical-IsRanges ps c = (IsRising-IsAscending 0 ps c.0, c.1)

-- `compress` keeps the set of such a list and makes it canonical.
compress-IsCanonical : (ps : List ℕ) → IsRanges ps → IsCanonical (compress ps)
compress-IsCanonical ps h = rw (compress-compacted ps) (compacted-IsCanonical ps h.0)

inside-compress : (v : ℕ) (ps : List ℕ) → IsPaired ps → inside v (compress ps) ≡ inside v ps
inside-compress v ps h = rw (compress-compacted ps) (inside-compacted v ps h)

xor_none : (op : CharRangeOp) (b : Bool) → xor (status op false false) b ≡ b
xor_none op b = rw (status_none op)

module _ (op : CharRangeOp) (a b : List ℕ) (ra : IsRanges a) (rb : IsRanges b) where
  abbrev both : List ℕ
  both = merged op a false b false

  both-IsRanges : IsRanges both
  both-IsRanges = (
    IsAscending-merged op a false b false 0 ra.0 rb.0,
    even-IsPaired (merged op a false b false) (
        sym (xor_none op _)
        ∙ is_odd-merged op a false b false
        ∙ ap₂ (status op) (IsPaired-even a ra.1) (IsPaired-even b rb.1)
        ∙ status_none op),
  )

  inside-both : (v : ℕ) → inside v both ≡ status op (inside v a) (inside v b)
  inside-both v = sym (xor_none op _) ∙ inside-merged v op a false b false 0 ra.0 rb.0

-- What `cr_invert` lays round the points.
abbrev outer : List ℕ → List ℕ
outer ps = 0 ∷ (ps ++ ((2 ^ 32 - 1) ∷ []))

-- Every point is a `uint32_t`.
abbrev pub AreWords : List ℕ → Type 0
AreWords ps = All (λ p. p ≤ 2 ^ 32 - 1) ps

IsAscending-snoc :
    (lo : ℕ) (ps : List ℕ)
    → lo ≤ 2 ^ 32 - 1
    → IsAscending lo ps
    → AreWords ps
    → IsAscending lo (ps ++ ((2 ^ 32 - 1) ∷ []))
IsAscending-snoc lo [] h s w = (h, tt)
IsAscending-snoc lo (p ∷ ps) h s w = (s.0, IsAscending-snoc p ps w.0 s.1 w.1)

IsPaired-outer : (x m : ℕ) (ps : List ℕ) → IsPaired ps → IsPaired (x ∷ (ps ++ (m ∷ [])))
IsPaired-outer x m [] h = tt
IsPaired-outer x m (p ∷ []) h = absurd h
IsPaired-outer x m (p ∷ q ∷ ps) h = IsPaired-outer q m ps h

outer-IsRanges : (ps : List ℕ) → IsRanges ps → AreWords ps → IsRanges (outer ps)
outer-IsRanges ps r w =
    ((omega arith, IsAscending-snoc 0 ps (omega arith) r.0 w), IsPaired-outer 0 (2 ^ 32 - 1) ps r.1)

AreWords-outer : (ps : List ℕ) → AreWords ps → AreWords (outer ps)
AreWords-outer ps w = (omega arith, snoc ps w)
  where
    snoc : (ps : List ℕ) → AreWords ps → AreWords (ps ++ ((2 ^ 32 - 1) ∷ []))
    snoc [] w = (omega arith, tt)
    snoc (p ∷ ps) w = (w.0, snoc ps w.1)

-- The complement below UINT32_MAX, and nothing from there on.
abbrev pub complement : (ℕ → Bool) → ℕ → Bool
complement member v = ltb v (2 ^ 32 - 1) && not (member v)

-- All points are passed from UINT32_MAX on, and there are as many starts as ends.
inside_end : (v : ℕ) (ps : List ℕ) → 2 ^ 32 - 1 ≤ v → AreWords ps → inside v ps ≡ is_odd ps
inside_end v [] h w = refl
inside_end v (p ∷ ps) h w = ground (arith, inside_end v ps h w.1)

inside-outer :
    (v : ℕ) (ps : List ℕ)
    → IsPaired ps
    → AreWords ps
    → inside v (outer ps) ≡ complement (λ u. inside u ps) v
inside-outer v ps h w =
    rw (inside-append v ps ((2 ^ 32 - 1) ∷ []), past_first v, past_last v)
      (ends (ltb v (2 ^ 32 - 1)) (inside v ps)
        (λ e. inside_end v ps (ground arith) w ∙ IsPaired-even ps h))
  where
    past_first : (v : ℕ) → leb 0 v ≡ true
    past_first v = ground arith

    past_last : (v : ℕ) → leb (2 ^ 32 - 1) v ≡ not (ltb v (2 ^ 32 - 1))
    past_last v = ground arith

    ends :
        (below i : Bool)
        → (below ≡ false → i ≡ false)
        → xor true (xor i (xor (not below) false)) ≡ (below && not i)
    ends true true f = refl
    ends true false f = refl
    ends false true f = cc (f refl)
    ends false false f = refl

-- From UINT32_MAX on nothing is in the range, so two complements cancel.
complement_twice :
    (v : ℕ) (ps : List ℕ)
    → IsPaired ps
    → AreWords ps
    → complement (complement (λ u. inside u ps)) v ≡ inside v ps
complement_twice v ps h w = elim (Bool-cases (ltb v (2 ^ 32 - 1))) [
  | inl below ↦ rw below (not_not (inside v ps))
  | inr above ↦ rw above (sym (inside_end v ps (ground arith) w ∙ IsPaired-even ps h))
]
  where
    not_not : (b : Bool) → not (not b) ≡ b
    not_not true = refl
    not_not false = refl

-- `ps` is the canonical list of the set `member`.
abbrev pub Represents : List ℕ → (ℕ → Bool) → Type 0
Represents ps member = IsCanonical ps × ((v : ℕ) → inside v ps ≡ member v)

bind_ok :
    {S : Type 0} (m : Outcome S) (f : CharRange S → Outcome S) → m.1 ≡ true → (m >>= f) ≡ f m.0
bind_ok (cr, true) f h = refl
bind_ok (cr, false) f h = cc

module _ {S : Type 0} (realloc : S → ℕ → S × Bool) where
  cr_op-both :
      (cr : CharRange S) (a b : List ℕ) (op : CharRangeOp)
      → cr.points ≡ []
      → let r = cr_op realloc cr a b op in
        (Grants realloc → r.1 ≡ true)
        × (r.1 ≡ true → r.0.points ≡ compress (merged op a false b false))
  unfolding cr_op cr_compress
  cr_op-both cr a b op e = go (op_loop realloc op a 0 b 0 cr) (op_loop_start realloc op a b cr e)
    where
      go :
          (m : Outcome S)
          → Adds realloc cr (merged op a false b false) m
          → let r = m >>= λ cr'. (cr_compress cr', true) in
            (Grants realloc → r.1 ≡ true)
            × (r.1 ≡ true → r.0.points ≡ compress (merged op a false b false))
      go (cr', true) h =
          (λ g. refl, λ ok. ap compress (h.1 refl ∙ ap (λ l. l ++ merged op a false b false) e))
      go (cr', false) h = (h.0, λ ok. cc)

  -- Whenever `cr_op` returns 0, the result is canonical and stands for the operation on sets.
  cr_op_sound :
      (cr : CharRange S) (a b : List ℕ) (op : CharRangeOp)
      → cr.points ≡ []
      → IsRanges a
      → IsRanges b
      → (cr_op realloc cr a b op).1 ≡ true
      → Represents (cr_op realloc cr a b op).0.points (λ v. status op (inside v a) (inside v b))
  cr_op_sound cr a b op e ra rb ok =
      let is_ranges = both-IsRanges op a b ra rb in
      rw ((cr_op-both cr a b op e).1 ok) (
        compress-IsCanonical (merged op a false b false) is_ranges,
        λ v. inside-compress v (merged op a false b false) is_ranges.1 ∙ inside-both op a b ra rb v,
      )

  -- With an allocator that meets every request, `cr_op` on an empty range returns 0 and leaves the
  -- canonical points of the union, intersection or symmetric difference of two lists of intervals.
  pub cr_op_lem :
      (cr : CharRange S) (a b : List ℕ) (op : CharRangeOp)
      → Grants realloc
      → cr.points ≡ []
      → IsRanges a
      → IsRanges b
      → let r = cr_op realloc cr a b op in
        (r.1 ≡ true) × Represents r.0.points (λ v. status op (inside v a) (inside v b))
  cr_op_lem cr a b op g e ra rb =
      let ok = (cr_op-both cr a b op e).0 g in (ok, cr_op_sound cr a b op e ra rb ok)

  cr_union1_lem :
      (cr : CharRange S) (b : List ℕ)
      → Grants realloc
      → IsRanges cr.points
      → IsRanges b
      → let r = cr_union1 realloc cr b in
        (r.1 ≡ true) × Represents r.0.points (λ v. inside v cr.points || inside v b)
  unfolding cr_union1
  cr_union1_lem cr b g rc rb =
      cr_op_lem (record cr { points = []; size = 0 }) cr.points b union g refl rc rb

  -- `cr_union_interval` adds exactly the code points from `c1` to `c2`, for `c2` below
  -- UINT32_MAX, to a list of intervals, and returns 0.
  pub cr_union_interval_lem :
      (cr : CharRange S) (c1 c2 : ℕ)
      → Grants realloc
      → IsRanges cr.points
      → c1 ≤ c2
      → c2 < 2 ^ 32 - 1
      → let r = cr_union_interval realloc cr c1 c2 in
        (r.1 ≡ true) × Represents r.0.points (λ v. inside v cr.points || (leb c1 v && leb v c2))
  unfolding cr_union_interval
  cr_union_interval_lem cr c1 c2 g rc h lt =
      let no_wrap : (c2 + 1) % 2 ^ 32 ≡ c2 + 1 = omega arith in
      rw no_wrap (
        let (ok, set) =
          cr_union1_lem cr (c1 ∷ (c2 + 1) ∷ []) g rc ((omega arith, (omega arith, tt)), tt) in
        (ok, (set.0, λ v. set.1 v ∙ ap (λ (t : Bool). inside v cr.points || t) (between v))))
    where
      between : (v : ℕ) → inside v (c1 ∷ (c2 + 1) ∷ []) ≡ (leb c1 v && leb v c2)
      between v = ground arith

  cr_invert-outer :
      (cr : CharRange S)
      → let r = cr_invert realloc cr in
        (Grants realloc → r.1 ≡ true) × (r.1 ≡ true → r.0.points ≡ compress (outer cr.points))
  unfolding cr_invert cr_compress
  cr_invert-outer cr =
      go (cr_realloc realloc cr (length cr.points + 2))
        (cr_realloc-Adds realloc cr (length cr.points + 2))
    where
      go :
          (m : Outcome S)
          → Adds realloc cr [] m
          → let r = m >>= λ cr'. (cr_compress (record cr' { points = outer cr'.points }), true) in
            (Grants realloc → r.1 ≡ true) × (r.1 ≡ true → r.0.points ≡ compress (outer cr.points))
      go (cr', true) h =
          (λ g. refl, λ ok. ap (λ l. compress (outer l)) (h.1 refl ∙ append-nil cr.points))
      go (cr', false) h = (h.0, λ ok. cc)

  -- `cr_invert` returns 0 and leaves the canonical points of the complement: the code points below
  -- UINT32_MAX that were not in the range. The points stay 32-bit words.
  pub cr_invert_lem :
      (cr : CharRange S)
      → Grants realloc
      → IsRanges cr.points
      → AreWords cr.points
      → let r = cr_invert realloc cr in
        (r.1 ≡ true)
        × Represents r.0.points (complement (λ v. inside v cr.points))
        × AreWords r.0.points
  cr_invert_lem cr g r w =
      let (granted, points) = cr_invert-outer cr in
      let ranges = outer-IsRanges cr.points r w in
      (
        granted g,
        rw (points (granted g)) (
          compress-IsCanonical (outer cr.points) ranges,
          λ v. inside-compress v (outer cr.points) ranges.1 ∙ inside-outer v cr.points r.1 w,
        ),
        rw (points (granted g), compress-compacted (outer cr.points))
            (All-compacted _ (outer cr.points) (AreWords-outer cr.points w)),
      )

  -- Inverting twice returns 0 both times and gives a canonical range of words its points back.
  pub cr_invert_twice :
      (cr : CharRange S)
      → Grants realloc
      → IsCanonical cr.points
      → AreWords cr.points
      → let r = cr_invert realloc cr >>= cr_invert realloc in
        (r.1 ≡ true) × (r.0.points ≡ cr.points)
  cr_invert_twice cr g c w =
      let (ok, set, words) = cr_invert_lem cr g (canonical-IsRanges cr.points c) w in
      let once = (cr_invert realloc cr).0 in
      let (ok', set', _) = cr_invert_lem once g (canonical-IsRanges once.points set.0) words in
      let same = λ (v : ℕ).
        set'.1 v
        ∙ ap (λ (t : Bool). ltb v (2 ^ 32 - 1) && not t) (set.1 v)
        ∙ complement_twice v cr.points c.1 w in
      rw (bind_ok (cr_invert realloc cr) (cr_invert realloc) ok)
        (ok', IsRising-unique 0 0 _ _ set'.0.0 c.0 same)

  -- The points that `cr_op` leaves depend only on the sets that its operands stand for.
  pub cr_op_unique :
      (cr : CharRange S) (a a' b b' : List ℕ) (op : CharRangeOp)
      → Grants realloc
      → cr.points ≡ []
      → IsRanges a
      → IsRanges a'
      → IsRanges b
      → IsRanges b'
      → ((v : ℕ) → inside v a ≡ inside v a')
      → ((v : ℕ) → inside v b ≡ inside v b')
      → (cr_op realloc cr a b op).0.points ≡ (cr_op realloc cr a' b' op).0.points
  cr_op_unique cr a a' b b' op g e ra ra' rb rb' ha hb =
      let r = cr_op_lem cr a b op g e ra rb in
      let r' = cr_op_lem cr a' b' op g e ra' rb' in
      IsRising-unique 0 0 _ _ r.1.0.0 r'.1.0.0
        (λ v. r.1.1 v ∙ ap₂ (status op) (ha v) (hb v) ∙ sym (r'.1.1 v))
