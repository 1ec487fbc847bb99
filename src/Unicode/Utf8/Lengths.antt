-- ===== src/Unicode/Utf8/Lengths.antt =====
-- How many bytes `unicode_to_utf8` writes, and the first of them.
use quick_js_swift.Base.{
  ℕ, zero, suc, ◌+◌, ◌/◌, ◌^◌, ◌≤◌, ◌<◌, ◌≡◌, refl, ap, List, [], ◌∷◌, arith, length, ltb, ltb→lt,
  Bool-cases, inl, inr,
}
use quick_js_swift.Unicode.Utf8.{unicode_to_utf8}
use quick_js_swift.Unicode.Utf8.Continuation.{follows}
use quick_js_swift.Unicode.Utf8.Forms.{
  form1, form2, form3, form4, form5, form, Form, one, two, three, four, five, six,
}

length-follows : (l c : ℕ) → length (follows l c) ≡ l
length-follows zero c = refl
length-follows (suc l) c = ap suc (length-follows l c)

-- Past ASCII, the first byte is not ASCII, and others follow: up to two below 0x10000.
pub data Coded (c : ℕ) : Type 0 where
  coded :
      (b : ℕ) (p : List ℕ)
      → unicode_to_utf8 c ≡ b ∷ p
      → 128 ≤ b
      → 1 ≤ length p
      → length p ≤ 5
      → (c < 0x10000 → length p ≤ 2)
      → (c < 0x800 → length p ≤ 1)
      → (c < 0x200000 → length p ≤ 3)
      → Coded c

pub unicode_to_utf8-Coded : (c : ℕ) → 0x80 ≤ c → c < 2 ^ 31 → Coded c
unicode_to_utf8-Coded c lo h = go (form c h)
  where
    by :
        (l m : ℕ)
        → unicode_to_utf8 c ≡ m ∷ follows l c
        → 128 ≤ m
        → 1 ≤ l
        → l ≤ 5
        → (c < 0x10000 → l ≤ 2)
        → (c < 0x800 → l ≤ 1)
        → (c < 0x200000 → l ≤ 3)
        → Coded c
    by l m e b p q r s t =
        let n = length-follows l c in
        coded m (follows l c) e b (omega (arith, n)) (omega (arith, n)) (λ x. omega (arith, n, r x))
          (λ x. omega (arith, n, s x)) (λ x. omega (arith, n, t x))

    go : Form c → Coded c
    go (one s) = absurd (omega arith)
    go (two k s) =
        by 1 (0xc0 + c / 64) (form1 c k s) (omega arith) (omega arith) (omega arith)
          (λ x. omega arith) (λ x. omega arith) (λ x. omega arith)
    go (three k s) =
        by 2 (0xe0 + c / 64 ^ 2) (form2 c k s) (omega arith) (omega arith) (omega arith)
          (λ x. omega arith) (λ x. omega arith) (λ x. omega arith)
    go (four k s) =
        by 3 (0xf0 + c / 64 ^ 3) (form3 c k s) (omega arith) (omega arith) (omega arith)
          (λ x. omega arith) (λ x. omega arith) (λ x. omega arith)
    go (five k s) =
        by 4 (0xf8 + c / 64 ^ 4) (form4 c k s) (omega arith) (omega arith) (omega arith)
          (λ x. omega arith) (λ x. omega arith) (λ x. omega arith)
    go (six k s) =
        by 5 (0xfc + c / 64 ^ 5) (form5 c k s) (omega arith) (omega arith) (omega arith)
          (λ x. omega arith) (λ x. omega arith) (λ x. omega arith)

pub unicode_to_utf8-ascii : (c : ℕ) → c < 0x80 → unicode_to_utf8 c ≡ c ∷ []
unfolding unicode_to_utf8
unicode_to_utf8-ascii c h = ground arith

pub length-unicode_to_utf8_pos : (c : ℕ) → c < 2 ^ 31 → 0 < length (unicode_to_utf8 c)
length-unicode_to_utf8_pos c h = elim (Bool-cases (ltb c 0x80)) [
  | inl ascii ↦ rw (unicode_to_utf8-ascii c (ltb→lt _ _ ascii)) (omega arith)
  | inr more ↦ go (unicode_to_utf8-Coded c (ground arith) h)
]
  where
    go : Coded c → 0 < length (unicode_to_utf8 c)
    go (coded b p e _ _ _ _ _ _) = omega (arith, ap length e)
