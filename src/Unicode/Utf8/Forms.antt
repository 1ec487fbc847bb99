-- ===== src/Unicode/Utf8/Forms.antt =====
-- The six forms of UTF-8: what `unicode_to_utf8` writes
-- and what a first byte and those behind it say.
use quick_js_swift.Base.{
  ℕ, ◌+◌, ◌-◌, ◌*◌, ◌/◌, ◌%◌, ◌^◌, ◌≤◌, ◌<◌, bit_and, bit_or, List, ◌∷◌, ◌++◌, ◌≡◌, refl, ◌∙◌, ap,
  ltb, ltb→lt, if◌then◌else◌, arith, Bool-cases, inl, inr,
}
use quick_js_swift.Base.Bits.{and_ones, low_or_high, remainder}
use quick_js_swift.Unicode.Utf8.{
  u8, Decoded, code, error, follow_loop, unicode_to_utf8, unicode_from_utf8,
}
use quick_js_swift.Unicode.Utf8.Continuation.{follows, marked, follow_loop-follows, follow_loop_inv}

-- The mark of a first byte with `k` free bits, as a sum.
pub lead_or :
    (k x q : ℕ) → x < 2 ^ k → q * 2 ^ k + x < 256 → u8 (bit_or x (q * 2 ^ k)) ≡ q * 2 ^ k + x
lead_or k x q h fits = ap u8 (low_or_high k x q h) ∙ small _ fits
  where
    small : (n : ℕ) → n < 256 → n % 2 ^ 8 ≡ n
    small n h = omega arith

module _ (c : ℕ) where
  pub form1 : 0x80 ≤ c → c < 0x800 → unicode_to_utf8 c ≡ (0xc0 + c / 64) ∷ follows 1 c
  unfolding unicode_to_utf8
  form1 lo hi = ground (arith, marked c, marked (c / 1), lead_or 6 (c / 2 ^ 6) 3)

  pub form2 : 0x800 ≤ c → c < 0x10000 → unicode_to_utf8 c ≡ (0xe0 + c / 64 ^ 2) ∷ follows 2 c
  unfolding unicode_to_utf8
  form2 lo hi = ground (arith, marked (c / 1), marked (c / 2 ^ 6), lead_or 5 (c / 2 ^ 12) 7)

  pub form3 : 0x10000 ≤ c → c < 0x200000 → unicode_to_utf8 c ≡ (0xf0 + c / 64 ^ 3) ∷ follows 3 c
  unfolding unicode_to_utf8
  form3 lo hi =
      ground
        (arith, marked (c / 1), marked (c / 2 ^ 6), marked (c / 2 ^ 12), lead_or 4 (c / 2 ^ 18) 15)

  pub form4 : 0x200000 ≤ c → c < 0x4000000 → unicode_to_utf8 c ≡ (0xf8 + c / 64 ^ 4) ∷ follows 4 c
  unfolding unicode_to_utf8
  form4 lo hi = ground (
    arith,
    marked (c / 1),
    marked (c / 2 ^ 6),
    marked (c / 2 ^ 12),
    marked (c / 2 ^ 18),
    lead_or 3 (c / 2 ^ 24) 31,
  )

  pub form5 : 0x4000000 ≤ c → c < 0x80000000 → unicode_to_utf8 c ≡ (0xfc + c / 64 ^ 5) ∷ follows 5 c
  unfolding unicode_to_utf8
  form5 lo hi = ground (
    arith,
    marked (c / 1),
    marked (c / 2 ^ 6),
    marked (c / 2 ^ 12),
    marked (c / 2 ^ 18),
    marked (c / 2 ^ 24),
    lead_or 2 (c / 2 ^ 30) 63,
  )

-- Reading a first byte with `k` free bits: its mark goes, the rest of the bytes is left.
pub masked : (k x q : ℕ) → x < 2 ^ k → bit_and (q * 2 ^ k + x) (2 ^ k - 1) ≡ x
masked k x q h = and_ones k (q * 2 ^ k + x) ∙ remainder (q * 2 ^ k + x) (2 ^ k) q x refl h

-- The bytes behind a first byte with the value `x`, if `max_len` leaves room for `l` of them.
unfoldable pub behind : ℕ → ℕ → ℕ → List ℕ → ℕ → Decoded
behind l least x p max_len = if ltb (max_len - 1) l then error else follow_loop l least x p

module _ (x : ℕ) (p : List ℕ) (max_len : ℕ) where
  pub lead1 : x < 32 → unicode_from_utf8 ((0xc0 + x) ∷ p) max_len ≡ behind 1 0x80 x p max_len
  unfolding unicode_from_utf8 behind
  lead1 h = ground (arith, masked 5 x 6)

  pub lead2 : x < 16 → unicode_from_utf8 ((0xe0 + x) ∷ p) max_len ≡ behind 2 0x800 x p max_len
  unfolding unicode_from_utf8 behind
  lead2 h = ground (arith, masked 4 x 14)

  pub lead3 : x < 8 → unicode_from_utf8 ((0xf0 + x) ∷ p) max_len ≡ behind 3 0x10000 x p max_len
  unfolding unicode_from_utf8 behind
  lead3 h = ground (arith, masked 3 x 30)

  pub lead4 : x < 4 → unicode_from_utf8 ((0xf8 + x) ∷ p) max_len ≡ behind 4 0x200000 x p max_len
  unfolding unicode_from_utf8 behind
  lead4 h = ground (arith, masked 2 x 62)

  pub lead5 : x < 2 → unicode_from_utf8 ((0xfc + x) ∷ p) max_len ≡ behind 5 0x4000000 x p max_len
  unfolding unicode_from_utf8 behind
  lead5 h = ground (arith, masked 1 x 126)

pub behind-follows :
    (l least c max_len : ℕ) (rest : List ℕ)
    → least ≤ c
    → l < max_len
    → behind l least (c / 64 ^ l) (follows l c ++ rest) max_len ≡ code c rest
unfolding behind
behind-follows l least c max_len rest h room = ground (arith, follow_loop-follows l least c rest h)

pub behind_inv :
    (l least x max_len c : ℕ) (p rest : List ℕ)
    → 0 < l
    → behind l least x p max_len ≡ code c rest
    → (l < max_len) × (p ≡ follows l c ++ rest) × (c / 64 ^ l ≡ x) × (least ≤ c)
unfolding behind
behind_inv l least x max_len c p rest pos e = ground (arith, follow_loop_inv l least x c p rest)

-- Which of the six forms a code takes.
pub data Form (c : ℕ) : Type 0 where
  one : c < 0x80 → Form c
  two : 0x80 ≤ c → c < 0x800 → Form c
  three : 0x800 ≤ c → c < 0x10000 → Form c
  four : 0x10000 ≤ c → c < 0x200000 → Form c
  five : 0x200000 ≤ c → c < 0x4000000 → Form c
  six : 0x4000000 ≤ c → c < 0x80000000 → Form c

pub form : (c : ℕ) → c < 2 ^ 31 → Form c
form c h = elim (Bool-cases (ltb c 0x80)) [
  | inl b ↦ one (ltb→lt _ _ b)
  | inr a1 ↦ elim (Bool-cases (ltb c 0x800)) [
    | inl b ↦ two (ground arith) (ltb→lt _ _ b)
    | inr a2 ↦ elim (Bool-cases (ltb c 0x10000)) [
      | inl b ↦ three (ground arith) (ltb→lt _ _ b)
      | inr a3 ↦ elim (Bool-cases (ltb c 0x200000)) [
        | inl b ↦ four (ground arith) (ltb→lt _ _ b)
        | inr a4 ↦ elim (Bool-cases (ltb c 0x4000000)) [
          | inl b ↦ five (ground arith) (ltb→lt _ _ b)
          | inr a5 ↦ six (ground arith) h
        ]
      ]
    ]
  ]
]
