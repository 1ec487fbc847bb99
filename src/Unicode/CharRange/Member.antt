-- ===== src/Unicode/CharRange/Member.antt =====
-- What a list of points stands for: `v` is in the set if an odd number of points is at most `v`.
-- The list that `cr_compress` leaves is the only one of its kind for its set.
use quick_js_swift.Base.{
  ℕ, suc, ◌≤◌, ◌<◌, ◌≡◌, refl, sym, ap, ◌∙◌, List, [], ◌∷◌, ◌++◌, Bool, true, false, xor, ◌||◌,
  ◌&&◌, none, some, arith, ltb, leb, ltb→lt, ◌==◌, Bool-cases, inl, inr, ◌≢◌, xor_cancel, All,
}
use mathlib.Core.Path.{ap₂}
use quick_js_swift.Unicode.CharRange.{CharRangeOp, union, inter}
use quick_js_swift.Unicode.CharRange.Array.{
  compacted, compacted_skip, compacted_keep, compacted_on, compacted_stop,
}

abbrev pub inside : ℕ → List ℕ → Bool
inside v [] = false
inside v (p ∷ ps) = xor (leb p v) (inside v ps)

-- The points do not fall, and start at `lo` or above.
abbrev pub IsAscending : ℕ → List ℕ → Type 0
IsAscending lo [] = Unit {0}
IsAscending lo (p ∷ ps) = (lo ≤ p) × IsAscending p ps

-- The points rise, and start at `lo` or above.
abbrev pub IsRising : ℕ → List ℕ → Type 0
IsRising lo [] = Unit {0}
IsRising lo (p ∷ ps) = (lo ≤ p) × IsRising (suc p) ps

-- `len` is even: each interval has both its ends.
abbrev pub IsPaired : List ℕ → Type 0
IsPaired [] = Unit {0}
IsPaired (p ∷ []) = ⊥
IsPaired (p ∷ q ∷ ps) = IsPaired ps

abbrev pub IsCanonical : List ℕ → Type 0
IsCanonical ps = IsRising 0 ps × IsPaired ps

-- What the three operations do to membership.
abbrev pub status : CharRangeOp → Bool → Bool → Bool
status union a b = a || b
status inter a b = a && b
status CharRangeOp.xor a b = xor a b

pub IsAscending-weaken : {lo hi : ℕ} (ps : List ℕ) → lo ≤ hi → IsAscending hi ps → IsAscending lo ps
IsAscending-weaken [] h s = tt
IsAscending-weaken (p ∷ ps) h s = (omega arith, s.1)

pub IsRising-IsAscending : (lo : ℕ) (ps : List ℕ) → IsRising lo ps → IsAscending lo ps
IsRising-IsAscending lo [] s = tt
IsRising-IsAscending lo (p ∷ ps) s = (
  s.0,
  IsAscending-weaken {lo = p} {hi = suc p} ps (omega arith) (IsRising-IsAscending (suc p) ps s.1),
)

pub inside_below : (v lo : ℕ) (ps : List ℕ) → v < lo → IsAscending lo ps → inside v ps ≡ false
inside_below v lo [] h s = refl
inside_below v lo (p ∷ ps) h s = ground (arith, inside_below v p ps)

pub inside-append : (v : ℕ) (xs ys : List ℕ) → inside v (xs ++ ys) ≡ xor (inside v xs) (inside v ys)
inside-append v [] ys = refl
inside-append v (x ∷ xs) ys = ground (arith, inside-append v xs ys)

-- One step of the pass, for a predicate of its two states: between intervals, and with an end
-- pending.
module _ {ℓ κ} (P : List ℕ → Type ℓ) (Q : ℕ → List ℕ → Type κ) (x y : ℕ) (r : List ℕ)
    (skip : x ≡ y → P (compacted none r)) (keep : x ≢ y → P (x ∷ compacted (some y) r))
    (on : (e : ℕ) → e ≡ x → Q e (compacted (some y) r))
    (stop : (e : ℕ)
      → e ≢ x
      → P (compacted none (x ∷ y ∷ r))
      → Q e (e ∷ compacted none (x ∷ y ∷ r))) where
  between : P (compacted none (x ∷ y ∷ r))
  between = elim (Bool-cases (x == y)) [
    | inl same ↦ rw (compacted_skip x y r same) (skip (ground arith))
    | inr differ ↦ rw (compacted_keep x y r differ) (keep (ground arith))
  ]

  pass_step : P (compacted none (x ∷ y ∷ r)) × ((e : ℕ) → Q e (compacted (some e) (x ∷ y ∷ r)))
  pass_step = (
    between,
    λ e. elim (Bool-cases (e == x)) [
      | inl same ↦ rw (compacted_on e x y r same) (on e (ground arith))
      | inr differ ↦ rw (compacted_stop e x y r differ) (stop e (ground arith) between)
    ],
  )

inside-compacted_both :
    (v : ℕ) (ps : List ℕ)
    → IsPaired ps
    → (inside v (compacted none ps) ≡ inside v ps)
      × ((e : ℕ) → inside v (compacted (some e) ps) ≡ xor (leb e v) (inside v ps))
inside-compacted_both v [] h = unfold compacted in (refl, λ e. refl)
inside-compacted_both v (x ∷ []) h = absurd h
inside-compacted_both v (x ∷ y ∷ ps) h =
    let ih = inside-compacted_both v ps h in
    pass_step (λ l. inside v l ≡ inside v (x ∷ y ∷ ps))
      (λ e l. inside v l ≡ xor (leb e v) (inside v (x ∷ y ∷ ps))) x y ps
      (λ same. ih.0 ∙ sym (xor_cancel (leb y v) (inside v ps)) ∙ rw same)
      (λ differ. ap (xor (leb x v)) (ih.1 y))
      (λ e same. ih.1 y ∙ sym (xor_cancel (leb x v) _) ∙ rw same)
      (λ e differ h. ap (xor (leb e v)) h)

IsPaired-compacted_both :
    (ps : List ℕ)
    → IsPaired (compacted none ps) × ((e : ℕ) → (x : ℕ) → IsPaired (x ∷ compacted (some e) ps))
IsPaired-compacted_both [] = unfold compacted in (tt, λ e x. tt)
IsPaired-compacted_both (p ∷ []) = unfold compacted in (tt, λ e x. tt)
IsPaired-compacted_both (p ∷ q ∷ ps) =
    let ih = IsPaired-compacted_both ps in
    pass_step IsPaired (λ _ l. (x : ℕ) → IsPaired (x ∷ l)) p q ps (λ _. ih.0) (λ _. ih.1 q p)
      (λ e _. ih.1 q) (λ e _ h x. h)

IsRising-compacted_both :
    (ps : List ℕ) (lo : ℕ)
    → IsAscending lo ps
    → IsRising lo (compacted none ps)
      × ((e : ℕ) → (hi : ℕ) → hi ≤ e → e ≤ lo → IsRising hi (compacted (some e) ps))
IsRising-compacted_both [] lo s = unfold compacted in (tt, λ e hi p q. (p, tt))
IsRising-compacted_both (x ∷ []) lo s = unfold compacted in (tt, λ e hi p q. (p, tt))
IsRising-compacted_both (x ∷ y ∷ ps) lo s =
    let ih = λ (l : ℕ) (q : l ≤ y). IsRising-compacted_both ps l (IsAscending-weaken ps q s.1.1) in
    let (none', some') =
      pass_step (λ l. (m : ℕ) → m ≤ x → IsRising m l)
        (λ e l. (hi : ℕ) → hi ≤ e → e ≤ lo → IsRising hi l) x y ps
        (λ same m p. (ih m (omega arith)).0)
        (λ differ m p. (p, (ih y (omega arith)).1 y (suc x) (omega arith) (omega arith)))
        (λ e same hi p q. (ih y (omega arith)).1 y hi (omega arith) (omega arith))
        (λ e differ h hi p q. (p, h (suc e) (omega arith))) in
    (none' lo s.0, some')

pub inside-compacted :
    (v : ℕ) (ps : List ℕ) → IsPaired ps → inside v (compacted none ps) ≡ inside v ps
inside-compacted v ps h = (inside-compacted_both v ps h).0

pub compacted-IsCanonical : (ps : List ℕ) → IsAscending 0 ps → IsCanonical (compacted none ps)
compacted-IsCanonical ps s = ((IsRising-compacted_both ps 0 s).0, (IsPaired-compacted_both ps).0)

All-compacted_both :
    (P : ℕ → Type 0) (ps : List ℕ)
    → All P ps
    → All P (compacted none ps) × ((e : ℕ) → P e → All P (compacted (some e) ps))
All-compacted_both P [] h = unfold compacted in (tt, λ e p. (p, tt))
All-compacted_both P (x ∷ []) h = unfold compacted in (tt, λ e p. (p, tt))
All-compacted_both P (x ∷ y ∷ ps) h =
    let ih = All-compacted_both P ps h.1.1 in
    pass_step (All P) (λ e l. P e → All P l) x y ps (λ _. ih.0) (λ _. (h.0, ih.1 y h.1.0))
      (λ e _ p. ih.1 y h.1.0) (λ e _ l p. (p, l))

pub All-compacted : (P : ℕ → Type 0) (ps : List ℕ) → All P ps → All P (compacted none ps)
All-compacted P ps h = (All-compacted_both P ps h).0

xor_left_inj : (a b c : Bool) → xor a b ≡ xor a c → b ≡ c
xor_left_inj false b c h = h
xor_left_inj true b c h = sym (xor_cancel true b) ∙ ap (xor true) h ∙ xor_cancel true c

inside_head : (p : ℕ) (ps : List ℕ) → IsRising (suc p) ps → inside p (p ∷ ps) ≡ true
inside_head p ps s =
    ground (arith, inside_below p (suc p) ps (omega arith) (IsRising-IsAscending (suc p) ps s))

-- The smaller head tells two rising lists apart.
heads_differ :
    (p : ℕ) (ps qs : List ℕ)
    → IsRising (suc p) ps
    → IsRising (suc p) qs
    → inside p (p ∷ ps) ≢ inside p qs
heads_differ p ps qs s t e =
    let out : inside p qs ≡ false =
      inside_below p (suc p) qs (omega arith) (IsRising-IsAscending (suc p) qs t) in
    cc (inside_head p ps s, e, out)

-- A rising list of points is determined by the set that it stands for.
pub IsRising-unique :
    (lo lo' : ℕ) (ps qs : List ℕ)
    → IsRising lo ps
    → IsRising lo' qs
    → ((v : ℕ) → inside v ps ≡ inside v qs)
    → ps ≡ qs
IsRising-unique lo lo' [] [] s t h = refl
IsRising-unique lo lo' [] (q ∷ qs) s t h = cc (h q, inside_head q qs t.1)
IsRising-unique lo lo' (p ∷ ps) [] s t h = cc (h p, inside_head p ps s.1)
IsRising-unique lo lo' (p ∷ ps) (q ∷ qs) s t h = elim (Bool-cases (ltb p q)) [
  | inl below ↦ absurd (heads_differ p ps (q ∷ qs) s.1 (ltb→lt p q below, t.1) (h p))
  | inr not_below ↦ elim (Bool-cases (ltb q p)) [
    | inl above ↦ absurd (heads_differ q qs (p ∷ ps) t.1 (ltb→lt q p above, s.1) (sym (h q)))
    | inr not_above ↦
        let same : p ≡ q = ground arith in
        let tails = λ (v : ℕ).
          xor_left_inj (leb p v) (inside v ps) (inside v qs)
            (h v ∙ ap (λ (n : ℕ). xor (leb n v) (inside v qs)) (sym same)) in
        ap₂ ◌∷◌ same (IsRising-unique (suc p) (suc q) ps qs s.1 t.1 tails)
  ]
]
