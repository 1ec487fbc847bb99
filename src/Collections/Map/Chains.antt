-- ===== src/Collections/Map/Chains.antt =====
-- Lists of different addresses: selecting from them and deleting one.
use quick_js_swift.Base.{
  ℕ, suc, ◌≡◌, ◌⊎◌, refl, ap, inl, inr, List, [], ◌∷◌, ◌++◌, Bool, true, false, ◌==◌, ==_iff,
  Bool-cases, if◌then◌else◌, length, arith, All,
}
use quick_js_swift.Collections.Map.{list_del, upd}

unfoldable pub select : (ℕ → Bool) → List ℕ → List ℕ
select p [] = []
select p (x ∷ xs) = let rest = select p xs in if p x then x ∷ rest else rest

abbrev pub NotIn : ℕ → List ℕ → Type 0
NotIn mr xs = All (λ (y : ℕ). (y == mr) ≡ false) xs

abbrev pub Distinct : List ℕ → Type 0
Distinct [] = Unit
Distinct (x ∷ xs) = NotIn x xs × Distinct xs

pub select-append :
    (p : ℕ → Bool) (xs ys : List ℕ) → select p (xs ++ ys) ≡ select p xs ++ select p ys
unfolding select
select-append p [] ys = refl
select-append p (x ∷ xs) ys = elim (Bool-cases (p x)) [
  | inl same_one ↦ rw same_one (ap (λ (l : List ℕ). x ∷ l) (select-append p xs ys))
  | inr another ↦ rw another (select-append p xs ys)
]

pub select_same :
    (p q : ℕ → Bool) (xs : List ℕ) → All (λ (x : ℕ). p x ≡ q x) xs → select p xs ≡ select q xs
unfolding select
select_same p q [] h = refl
select_same p q (x ∷ xs) h = rw (h.0, select_same p q xs h.1) refl

pub All-select : (P : ℕ → Type 0) (p : ℕ → Bool) (xs : List ℕ) → All P xs → All P (select p xs)
unfolding select
All-select P p [] h = tt
All-select P p (x ∷ xs) h = elim (Bool-cases (p x)) [
  | inl same_one ↦ rw same_one (h.0, All-select _ p xs h.1)
  | inr another ↦ rw another (All-select _ p xs h.1)
]

pub Distinct-select : (p : ℕ → Bool) (xs : List ℕ) → Distinct xs → Distinct (select p xs)
unfolding select
Distinct-select p [] h = tt
Distinct-select p (x ∷ xs) h = elim (Bool-cases (p x)) [
  | inl same_one ↦ rw same_one (All-select _ p xs h.0, Distinct-select p xs h.1)
  | inr another ↦ rw another (Distinct-select p xs h.1)
]

pub All-list_del : (P : ℕ → Type 0) (mr : ℕ) (xs : List ℕ) → All P xs → All P (list_del mr xs)
unfolding list_del
All-list_del P mr [] h = tt
All-list_del P mr (x ∷ xs) h = elim (Bool-cases (x == mr)) [
  | inl same_one ↦ rw same_one h.1
  | inr another ↦ rw another (h.0, All-list_del _ mr xs h.1)
]

pub Distinct-list_del : (mr : ℕ) (xs : List ℕ) → Distinct xs → Distinct (list_del mr xs)
unfolding list_del
Distinct-list_del mr [] h = tt
Distinct-list_del mr (x ∷ xs) h = elim (Bool-cases (x == mr)) [
  | inl same_one ↦ rw same_one h.1
  | inr another ↦ rw another (All-list_del _ mr xs h.0, Distinct-list_del mr xs h.1)
]

list_del_absent : (mr : ℕ) (xs : List ℕ) → NotIn mr xs → list_del mr xs ≡ xs
unfolding list_del
list_del_absent mr [] h = refl
list_del_absent mr (x ∷ xs) h = rw (h.0, list_del_absent mr xs h.1) refl

absent_along : (x mr : ℕ) (xs : List ℕ) → (x == mr) ≡ true → NotIn x xs → NotIn mr xs
absent_along x mr xs e h = rw (← (==_iff x mr).0 e) h

pub NotIn-list_del : (mr : ℕ) (xs : List ℕ) → Distinct xs → NotIn mr (list_del mr xs)
unfolding list_del
NotIn-list_del mr [] h = tt
NotIn-list_del mr (x ∷ xs) h = elim (Bool-cases (x == mr)) [
  | inl same_one ↦ rw same_one (absent_along x mr xs same_one h.0)
  | inr another ↦ rw another (another, NotIn-list_del mr xs h.1)
]

-- A deleted address is one fewer selected.
pub select-list_del :
    (p : ℕ → Bool) (mr : ℕ) (xs : List ℕ)
    → Distinct xs
    → select p (list_del mr xs) ≡ list_del mr (select p xs)
unfolding select list_del
select-list_del p mr [] h = refl
select-list_del p mr (x ∷ xs) h = elim (Bool-cases (x == mr)) [
  | inl same_one ↦
      let absent =
        list_del_absent mr (select p xs) (All-select _ p xs (absent_along x mr xs same_one h.0)) in
      elim (Bool-cases (p x)) [
        | inl kept ↦ rw (same_one, kept, same_one) refl
        | inr dropped ↦ rw (same_one, dropped, absent) refl
      ]
  | inr another ↦ elim (Bool-cases (p x)) [
    | inl kept ↦
        rw (another, kept, another) (ap (λ (l : List ℕ). x ∷ l) (select-list_del p mr xs h.1))
    | inr dropped ↦ rw (another, dropped) (select-list_del p mr xs h.1)
  ]
]

-- An address that is selected no more is deleted from the selection.
pub select_dropped :
    (p q : ℕ → Bool) (mr : ℕ) (xs : List ℕ)
    → Distinct xs
    → q mr ≡ false
    → ((y : ℕ) → (y == mr) ≡ false → q y ≡ p y)
    → select q xs ≡ list_del mr (select p xs)
unfolding select list_del
select_dropped p q mr [] h gone same = refl
select_dropped p q mr (x ∷ xs) h gone same = elim (Bool-cases (x == mr)) [
  | inl same_one ↦
      let out : q x ≡ false = rw ((==_iff x mr).0 same_one) gone in
      let behind = absent_along x mr xs same_one h.0 in
      let rest : select q xs ≡ select p xs = select_same q p xs (agree xs behind) in
      let absent = list_del_absent mr (select p xs) (All-select _ p xs behind) in
      elim (Bool-cases (p x)) [
        | inl kept ↦ rw (out, kept, same_one, rest) refl
        | inr dropped ↦ rw (out, dropped, rest, absent) refl
      ]
  | inr another ↦ elim (Bool-cases (p x)) [
    | inl kept ↦
        rw (same x another, kept, another)
          (ap (λ (l : List ℕ). x ∷ l) (select_dropped p q mr xs h.1 gone same))
    | inr dropped ↦ rw (same x another, dropped) (select_dropped p q mr xs h.1 gone same)
  ]
]
  where
    agree : (ys : List ℕ) → NotIn mr ys → All (λ (y : ℕ). q y ≡ p y) ys
    agree [] u = tt
    agree (y ∷ ys) u = (same y u.0, agree ys u.1)

pub Distinct-append :
    (mr : ℕ) (xs : List ℕ) → NotIn mr xs → Distinct xs → Distinct (xs ++ (mr ∷ []))
Distinct-append mr [] h d = (tt, tt)
Distinct-append mr (x ∷ xs) h d =
    (behind xs d.0 (ground (arith, h.0)), Distinct-append mr xs h.1 d.1)
  where
    behind : (ys : List ℕ) → NotIn x ys → (mr == x) ≡ false → NotIn x (ys ++ (mr ∷ []))
    behind [] u n = (n, tt)
    behind (y ∷ ys) u n = (u.0, behind ys u.1 n)

-- A store elsewhere is not seen.
pub upd_other :
    {A : Type 0} (f : ℕ → A) (i : ℕ) (x : A) (j : ℕ) → (j == i) ≡ false → upd f i x j ≡ f j
unfolding upd
upd_other f i x j h = rw h refl

pub upd_here : {A : Type 0} (f : ℕ → A) (i : ℕ) (x : A) (j : ℕ) → (j == i) ≡ true → upd f i x j ≡ x
unfolding upd
upd_here f i x j h = rw h refl

-- An address that stands in a list.
abbrev pub In : ℕ → List ℕ → Type 0
In mr [] = ⊥
In mr (x ∷ xs) = ((x == mr) ≡ true) ⊎ In mr xs

pub not_both : (b : Bool) → b ≡ true → b ≡ false → ⊥
not_both b e n = cc

pub length-list_del : (mr : ℕ) (xs : List ℕ) → In mr xs → suc (length (list_del mr xs)) ≡ length xs
unfolding list_del
length-list_del mr [] i = elim i [ ]
length-list_del mr (x ∷ xs) i = elim (Bool-cases (x == mr)) [
  | inl here ↦ rw here refl
  | inr other ↦ rw other (ap suc (length-list_del mr xs (behind i other)))
]
  where
    behind : In mr (x ∷ xs) → (x == mr) ≡ false → In mr xs
    behind (inl e) n = absurd (not_both (x == mr) e n)
    behind (inr k) n = k

pub In-select : (p : ℕ → Bool) (mr : ℕ) (xs : List ℕ) → In mr xs → p mr ≡ true → In mr (select p xs)
unfolding select
In-select p mr [] i h = elim i [ ]
In-select p mr (x ∷ xs) (inl e) h =
    let chosen : p x ≡ true = rw ((==_iff x mr).0 e) h in rw chosen (inl e)
In-select p mr (x ∷ xs) (inr i) h = elim (Bool-cases (p x)) [
  | inl chosen ↦ rw chosen (inr (In-select p mr xs i h))
  | inr dropped ↦ rw dropped (In-select p mr xs i h)
]

pub All-append_one :
    (P : ℕ → Type 0) (xs : List ℕ) (x : ℕ) → All P xs → P x → All P (xs ++ (x ∷ []))
All-append_one P [] x h p = (p, tt)
All-append_one P (y ∷ xs) x h p = (h.0, All-append_one P xs x h.1 p)

pub All-along : (P Q : ℕ → Type 0) (xs : List ℕ) → All P xs → ((x : ℕ) → P x → Q x) → All Q xs
All-along P Q [] h f = tt
All-along P Q (x ∷ xs) h f = (f x h.0, All-along P Q xs h.1 f)

pub All-each : (P : ℕ → Type 0) (xs : List ℕ) → ((x : ℕ) → P x) → All P xs
All-each P [] f = tt
All-each P (x ∷ xs) f = (f x, All-each P xs f)

pub All-both :
    (P Q : ℕ → Type 0) (xs : List ℕ) → All P xs → All Q xs → All (λ (x : ℕ). P x × Q x) xs
All-both P Q [] p q = tt
All-both P Q (x ∷ xs) p q = ((p.0, q.0), All-both P Q xs p.1 q.1)

pub select-In :
    (p : ℕ → Bool) (mr : ℕ) (xs : List ℕ) → In mr (select p xs) → In mr xs × (p mr ≡ true)
unfolding select
select-In p mr [] i = elim i [ ]
select-In p mr (x ∷ xs) i = elim (Bool-cases (p x)) [
  | inl chosen ↦ elim (rw chosen at i) as (λ _. In mr (x ∷ xs) × (p mr ≡ true)) [
    | inl e ↦ (inl e, rw ((==_iff x mr).0 e) at chosen)
    | inr k ↦ let b = select-In p mr xs k in (inr b.0, b.1)
  ]
  | inr dropped ↦ let b = select-In p mr xs (rw dropped at i) in (inr b.0, b.1)
]

pub All-chosen : (p : ℕ → Bool) (xs : List ℕ) → All (λ (x : ℕ). p x ≡ true) (select p xs)
unfolding select
All-chosen p [] = tt
All-chosen p (x ∷ xs) = elim (Bool-cases (p x)) [
  | inl chosen ↦ rw chosen (chosen, All-chosen p xs)
  | inr dropped ↦ rw dropped (All-chosen p xs)
]

pub All-In : (xs : List ℕ) → All (λ (x : ℕ). In x xs) xs
All-In [] = tt
All-In (x ∷ xs) = (
  inl ((==_iff x x).1 refl),
  All-along _ (λ (y : ℕ). In y (x ∷ xs)) xs (All-In xs) (λ y i. inr i),
)

pub In-list_del : (y mr : ℕ) (xs : List ℕ) → (y == mr) ≡ false → In y xs → In y (list_del mr xs)
unfolding list_del
In-list_del y mr [] n i = i
In-list_del y mr (x ∷ xs) n (inl e) =
    let other : (x == mr) ≡ false = rw ((==_iff x y).0 e) n in rw other (inl e)
In-list_del y mr (x ∷ xs) n (inr k) = elim (Bool-cases (x == mr)) [
  | inl here ↦ rw here k
  | inr other ↦ rw other (inr (In-list_del y mr xs n k))
]
