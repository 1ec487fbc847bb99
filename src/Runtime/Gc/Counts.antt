-- ===== src/Runtime/Gc/Counts.antt =====
-- How often an address is on a list, and sums over the addresses on one.
use quick_js_swift.Base.{
  ℕ, ◌+◌, ◌≤◌, ◌<◌, ◌≡◌, refl, sym, ap, ◌∙◌, inl, inr, List, [], ◌∷◌, ◌++◌, ◌==◌, ==_iff,
  if◌then◌else◌, length, Bool-cases, arith, false,
}
use quick_js_swift.Runtime.Gc.{unlinked}

-- 1 where the addresses are the same.
abbrev pub one_if : ℕ → ℕ → ℕ
one_if p q = if p == q then 1 else 0

-- The sum of what a function has at the addresses on a list.
abbrev pub total : (ℕ → ℕ) → List ℕ → ℕ
total w [] = 0
total w (x ∷ l) = w x + total w l

abbrev pub count : ℕ → List ℕ → ℕ
count p = total (λ x. one_if x p)

pub total-append : (w : ℕ → ℕ) (l m : List ℕ) → total w (l ++ m) ≡ total w l + total w m
total-append w [] m = omega arith
total-append w (x ∷ l) m = omega (arith, total-append w l m)

pub count-append : (p : ℕ) (l m : List ℕ) → count p (l ++ m) ≡ count p l + count p m
count-append p = total-append (λ x. one_if x p)

pub one_if_self : (p : ℕ) → one_if p p ≡ 1
one_if_self p = ground arith

module _ (p : ℕ) where
  -- An address that is not the first stands behind it.
  rest : (x : ℕ) (l : List ℕ) → 0 < count p (x ∷ l) → (x == p) ≡ false → 0 < count p l
  rest x l h there = ground arith

  pub count-unlinked :
      (q : ℕ) (l : List ℕ) → 0 < count p l → count q (unlinked p l) + one_if p q ≡ count q l
  count-unlinked q [] h = absurd (omega arith)
  count-unlinked q (x ∷ l) h = elim (Bool-cases (x == p)) [
    | inl here ↦ ground arith
    | inr there ↦ rw there (omega (arith, count-unlinked q l (rest x l h there)))
  ]

  pub total-unlinked :
      (w : ℕ → ℕ) (l : List ℕ) → 0 < count p l → total w (unlinked p l) + w p ≡ total w l
  total-unlinked w [] h = absurd (omega arith)
  total-unlinked w (x ∷ l) h = elim (Bool-cases (x == p)) [
    | inl here ↦ rw here (omega (arith, ap w ((==_iff x p).0 here)))
    | inr there ↦ rw there (omega (arith, total-unlinked w l (rest x l h there)))
  ]

  pub length-unlinked : (l : List ℕ) → 0 < count p l → length (unlinked p l) + 1 ≡ length l
  length-unlinked [] h = absurd (omega arith)
  length-unlinked (x ∷ l) h = elim (Bool-cases (x == p)) [
    | inl here ↦ rw here (omega arith)
    | inr there ↦ rw there (omega (arith, length-unlinked l (rest x l h there)))
  ]

-- Lists that hold the same addresses as often have the same sums.
pub total_same :
    (w : ℕ → ℕ) (xs ys : List ℕ) → ((a : ℕ) → count a xs ≡ count a ys) → total w xs ≡ total w ys
total_same w [] [] h = refl
total_same w [] (y ∷ ys) h = absurd (omega (arith, h y, one_if_self y))
total_same w (x ∷ xs) ys h =
    let there : 0 < count x ys = omega (arith, h x, one_if_self x) in
    omega (
      arith,
      total-unlinked x w ys there,
      total_same w xs (unlinked x ys) (λ a. omega (arith, h a, count-unlinked x a ys there)),
    )

pub le-total : (w : ℕ → ℕ) (p : ℕ) (l : List ℕ) → 0 < count p l → w p ≤ total w l
le-total w p l h = omega (arith, total-unlinked p w l h)

-- Two lists that share out the addresses of a third.
module _ (xs ys zs : List ℕ) (shared : (a : ℕ) → count a xs + count a ys ≡ count a zs) where
  pub total_parts : (w : ℕ → ℕ) → total w xs + total w ys ≡ total w zs
  total_parts w =
      sym (total-append w xs ys)
      ∙ total_same w (xs ++ ys) zs (λ a. omega (arith, count-append a xs ys, shared a))

  length-total : (l : List ℕ) → length l ≡ total (λ _. 1) l
  length-total [] = refl
  length-total (x ∷ l) = omega (arith, length-total l)

  pub length_parts : length xs + length ys ≡ length zs
  length_parts =
      omega (arith, length-total xs, length-total ys, length-total zs, total_parts (λ _. 1))
