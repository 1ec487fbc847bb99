-- ===== src/Unicode/CharRange/Merge.antt =====
-- The loop of `cr_op`: the points that it adds, and what they stand for.
use Prim.Native.Nat.{compare, Ordering}
use quick_js_swift.Base.{
  ℕ, ◌≤◌, ◌<◌, ◌≡◌, refl, sym, ap, ◌∙◌, List, [], ◌∷◌, Bool, true, false, xor, not, arith, leb,
  if◌then◌else◌, Bool-cases, inl, inr, xor_cancel, xor-false, xor-xor-true, le→leb, leb→le,
  compare_cases,
}
use mathlib.Core.Path.{ap₂}
use quick_js_swift.Unicode.CharRange.{CharRangeOp}
use quick_js_swift.Unicode.CharRange.Member.{
  inside, status, IsAscending, IsPaired, inside_below, IsAscending-weaken,
}

-- A point is added when the status changes.
unfoldable pub point : Bool → Bool → ℕ → List ℕ → List ℕ
point now before v rest = if xor now before then v ∷ rest else rest

-- The points added, from the parities of the points read so far.
unfoldable pub merged : CharRangeOp → List ℕ → Bool → List ℕ → Bool → List ℕ
unfolding point
merged op [] p [] q = []
merged op (x ∷ a) p [] q = point (status op (not p) q) (status op p q) x (merged op a (not p) [] q)
merged op [] p (y ∷ b) q = point (status op p (not q)) (status op p q) y (merged op [] p b (not q))
merged op (x ∷ a) p (y ∷ b) q = elim (compare x y) [
  | Ordering.lt ↦ point (status op (not p) q) (status op p q) x (merged op a (not p) (y ∷ b) q)
  | Ordering.eq ↦
      point (status op (not p) (not q)) (status op p q) x (merged op a (not p) b (not q))
  | Ordering.gt ↦ point (status op p (not q)) (status op p q) y (merged op (x ∷ a) p b (not q))
]

-- The four ways to read the next point.
module _ (op : CharRangeOp) (p q : Bool) (x y : ℕ) (a b : List ℕ) where
  abbrev pub from_a : List ℕ → List ℕ
  from_a rest = point (status op (not p) q) (status op p q) x rest

  abbrev pub from_b : List ℕ → List ℕ
  from_b rest = point (status op p (not q)) (status op p q) y rest

  pub merged-lt :
      compare x y ≡ Ordering.lt
      → merged op (x ∷ a) p (y ∷ b) q ≡ from_a (merged op a (not p) (y ∷ b) q)
  unfolding merged
  merged-lt e = rw (e, merged)

  pub merged-gt :
      compare x y ≡ Ordering.gt
      → merged op (x ∷ a) p (y ∷ b) q ≡ from_b (merged op (x ∷ a) p b (not q))
  unfolding merged
  merged-gt e = rw (e, merged)

  pub merged-eq :
      compare x y ≡ Ordering.eq
      → merged op (x ∷ a) p (y ∷ b) q
        ≡ point (status op (not p) (not q)) (status op p q) x (merged op a (not p) b (not q))
  unfolding merged
  merged-eq e = rw (e, merged)

  pub merged-left : merged op (x ∷ a) p [] q ≡ from_a (merged op a (not p) [] q)
  unfolding merged
  merged-left = refl

  pub merged-right : merged op [] p (y ∷ b) q ≡ from_b (merged op [] p b (not q))
  unfolding merged
  merged-right = refl

inside-point :
    (v u : ℕ) (now before : Bool) (rest : List ℕ)
    → u ≤ v
    → xor before (inside v (point now before u rest)) ≡ xor now (inside v rest)
unfolding point
inside-point v u true true rest h = refl
inside-point v u false false rest h = refl
inside-point v u true false rest h = ground arith
inside-point v u false true rest h = ground (arith, xor_cancel true (inside v rest))

IsAscending-point :
    (now before : Bool) (lo v : ℕ) (rest : List ℕ)
    → lo ≤ v
    → IsAscending v rest
    → IsAscending lo (point now before v rest)
unfolding point
IsAscending-point now before lo v rest h s = elim (Bool-cases (xor now before)) [
  | inl e ↦ rw e (h, s)
  | inr e ↦ rw e (IsAscending-weaken rest h s)
]

pub IsAscending-merged :
    (op : CharRangeOp) (a : List ℕ) (p : Bool) (b : List ℕ) (q : Bool) (lo : ℕ)
    → IsAscending lo a
    → IsAscending lo b
    → IsAscending lo (merged op a p b q)
IsAscending-merged op [] p [] q lo s t = unfold merged in tt
IsAscending-merged op (x ∷ a) p [] q lo s t =
    rw (merged-left op p q x 0 a [])
      (IsAscending-point _ _ lo x _ s.0 (IsAscending-merged op a (not p) [] q x s.1 tt))
IsAscending-merged op [] p (y ∷ b) q lo s t =
    rw (merged-right op p q 0 y [] b)
      (IsAscending-point _ _ lo y _ t.0 (IsAscending-merged op [] p b (not q) y tt t.1))
IsAscending-merged op (x ∷ a) p (y ∷ b) q lo s t = elim (compare_cases x y) [
  | inl (e, h) ↦ rw (merged-lt op p q x y a b e) (
      IsAscending-point _ _ lo x _ s.0
        (IsAscending-merged op a (not p) (y ∷ b) q x s.1 (omega arith, t.1)))
  | inr (inl (e, h)) ↦ rw (merged-eq op p q x y a b e) (
      IsAscending-point _ _ lo x _ s.0
        (IsAscending-merged op a (not p) b (not q) x s.1 (IsAscending-weaken b (omega arith) t.1)))
  | inr (inr (e, h)) ↦ rw (merged-gt op p q x y a b e) (
      IsAscending-point _ _ lo y _ t.0
        (IsAscending-merged op (x ∷ a) p b (not q) y (omega arith, s.1) t.1))
]

-- Membership after a step that reads a point `u`, from membership after the rest.
module _ (op : CharRangeOp) (v u : ℕ) (before now a b : Bool) (rest : List ℕ) where
  inside-step :
      ((h : u ≤ v) → xor now (inside v rest) ≡ status op a b)
      → ((h : v < u) → before ≡ status op a b)
      → IsAscending u rest
      → xor before (inside v (point now before u rest)) ≡ status op a b
  inside-step above below s = elim (Bool-cases (leb u v)) [
    | inl h ↦ inside-point v u now before rest (leb→le u v h) ∙ above (leb→le u v h)
    | inr h ↦
        let under : v < u = ground arith in
        let flat : u ≤ u = omega arith in
        rw (inside_below v u _ under (IsAscending-point now before u u rest flat s), xor-false)
          (below under)
  ]

-- A list from `u` on is not met below `u`, and its first point is from `u` on.
not_yet : (v u : ℕ) (p : Bool) (a : List ℕ) → v < u → IsAscending u a → p ≡ xor p (inside v a)
not_yet v u p a h s = rw (inside_below v u a h s) (sym (xor-false p))

now_read :
    (v u : ℕ) (p : Bool) (a : List ℕ) → u ≤ v → xor (not p) (inside v a) ≡ xor p (inside v (u ∷ a))
now_read v u p a h = rw (le→leb u v h) (sym (xor-xor-true p (inside v a)))

pub inside-merged :
    (v : ℕ) (op : CharRangeOp) (a : List ℕ) (p : Bool) (b : List ℕ) (q : Bool) (lo : ℕ)
    → IsAscending lo a
    → IsAscending lo b
    → xor (status op p q) (inside v (merged op a p b q))
      ≡ status op (xor p (inside v a)) (xor q (inside v b))
inside-merged v op [] p [] q lo s t =
    unfold merged in
    xor-false (status op p q) ∙ ap₂ (status op) (sym (xor-false p)) (sym (xor-false q))
inside-merged v op (x ∷ a) p [] q lo s t = rw (merged-left op p q x 0 a []) (
    inside-step op v x _ _ _ _ _
      (λ h.
        inside-merged v op a (not p) [] q x s.1 tt
        ∙ ap (λ (c : Bool). status op c (xor q false)) (now_read v x p a h))
      (λ h. ap₂ (status op) (not_yet v x p (x ∷ a) h (omega arith, s.1)) (sym (xor-false q)))
      (IsAscending-merged op a (not p) [] q x s.1 tt))
inside-merged v op [] p (y ∷ b) q lo s t = rw (merged-right op p q 0 y [] b) (
    inside-step op v y _ _ _ _ _
      (λ h.
        inside-merged v op [] p b (not q) y tt t.1
        ∙ ap (λ (c : Bool). status op (xor p false) c) (now_read v y q b h))
      (λ h. ap₂ (status op) (sym (xor-false p)) (not_yet v y q (y ∷ b) h (omega arith, t.1)))
      (IsAscending-merged op [] p b (not q) y tt t.1))
inside-merged v op (x ∷ a) p (y ∷ b) q lo s t = elim (compare_cases x y) [
  | inl (e, h) ↦
      let b_from : IsAscending x (y ∷ b) = (omega arith, t.1) in
      rw (merged-lt op p q x y a b e) (
        inside-step op v x _ _ _ _ _
          (λ h.
            inside-merged v op a (not p) (y ∷ b) q x s.1 b_from
            ∙ ap (λ (c : Bool). status op c (xor q (inside v (y ∷ b)))) (now_read v x p a h))
          (λ h.
            ap₂ (status op) (not_yet v x p (x ∷ a) h (omega arith, s.1))
              (not_yet v x q (y ∷ b) h b_from))
          (IsAscending-merged op a (not p) (y ∷ b) q x s.1 b_from))
  | inr (inl (e, same)) ↦
      let b_from : IsAscending x b = IsAscending-weaken b (omega arith) t.1 in
      let q_read = λ (le : x ≤ v). now_read v y q b (omega arith) in
      rw (merged-eq op p q x y a b e) (
        inside-step op v x _ _ _ _ _
          (λ h.
            inside-merged v op a (not p) b (not q) x s.1 b_from
            ∙ ap₂ (status op) (now_read v x p a h) (q_read h))
          (λ h.
            ap₂ (status op) (not_yet v x p (x ∷ a) h (omega arith, s.1))
              (not_yet v x q (y ∷ b) h (omega arith, t.1)))
          (IsAscending-merged op a (not p) b (not q) x s.1 b_from))
  | inr (inr (e, h)) ↦
      let a_from : IsAscending y (x ∷ a) = (omega arith, s.1) in
      rw (merged-gt op p q x y a b e) (
        inside-step op v y _ _ _ _ _
          (λ h.
            inside-merged v op (x ∷ a) p b (not q) y a_from t.1
            ∙ ap (λ (c : Bool). status op (xor p (inside v (x ∷ a))) c) (now_read v y q b h))
          (λ h.
            ap₂ (status op) (not_yet v y p (x ∷ a) h a_from)
              (not_yet v y q (y ∷ b) h (omega arith, t.1)))
          (IsAscending-merged op (x ∷ a) p b (not q) y a_from t.1))
]

-- Parity of a list of points, as the code keeps it: in the low bit of `len`.
abbrev pub is_odd : List ℕ → Bool
is_odd [] = false
is_odd (x ∷ xs) = not (is_odd xs)

pub IsPaired-even : (ps : List ℕ) → IsPaired ps → is_odd ps ≡ false
IsPaired-even [] h = refl
IsPaired-even (p ∷ []) h = absurd h
IsPaired-even (p ∷ q ∷ ps) h = rw (IsPaired-even ps h)

pub even-IsPaired : (ps : List ℕ) → is_odd ps ≡ false → IsPaired ps
even-IsPaired [] h = tt
even-IsPaired (p ∷ []) h = cc
even-IsPaired (p ∷ q ∷ ps) h = even-IsPaired ps (sym (not_not (is_odd ps)) ∙ h)
  where
    not_not : (b : Bool) → not (not b) ≡ b
    not_not false = refl
    not_not true = refl

pub is_odd-point :
    (u : ℕ) (now before : Bool) (rest : List ℕ)
    → xor before (is_odd (point now before u rest)) ≡ xor now (is_odd rest)
unfolding point
is_odd-point u true true rest = refl
is_odd-point u false false rest = refl
is_odd-point u true false rest = ground arith
is_odd-point u false true rest = ground arith

xor-not : (p c : Bool) → xor (not p) c ≡ xor p (not c)
xor-not false false = refl
xor-not false true = refl
xor-not true false = refl
xor-not true true = refl

pub is_odd-merged :
    (op : CharRangeOp) (a : List ℕ) (p : Bool) (b : List ℕ) (q : Bool)
    → xor (status op p q) (is_odd (merged op a p b q))
      ≡ status op (xor p (is_odd a)) (xor q (is_odd b))
is_odd-merged op [] p [] q =
    unfold merged in
    xor-false (status op p q) ∙ ap₂ (status op) (sym (xor-false p)) (sym (xor-false q))
is_odd-merged op (x ∷ a) p [] q =
    rw (merged-left op p q x 0 a [])
      (is_odd-point x _ _ _ ∙ is_odd-merged op a (not p) [] q ∙ rw (xor-not p (is_odd a)))
is_odd-merged op [] p (y ∷ b) q =
    rw (merged-right op p q 0 y [] b)
      (is_odd-point y _ _ _ ∙ is_odd-merged op [] p b (not q) ∙ rw (xor-not q (is_odd b)))
is_odd-merged op (x ∷ a) p (y ∷ b) q = elim (compare_cases x y) [
  | inl (e, h) ↦
      rw (merged-lt op p q x y a b e)
        (is_odd-point x _ _ _ ∙ is_odd-merged op a (not p) (y ∷ b) q ∙ rw (xor-not p (is_odd a)))
  | inr (inl (e, h)) ↦ rw (merged-eq op p q x y a b e) (
      is_odd-point x _ _ _
      ∙ is_odd-merged op a (not p) b (not q)
      ∙ rw (xor-not p (is_odd a), xor-not q (is_odd b)))
  | inr (inr (e, h)) ↦
      rw (merged-gt op p q x y a b e)
        (is_odd-point y _ _ _ ∙ is_odd-merged op (x ∷ a) p b (not q) ∙ rw (xor-not q (is_odd b)))
]
