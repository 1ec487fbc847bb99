-- ===== src/Strings/Text/Encode.antt =====
-- The bytes that `JS_ToCStringLen2` writes: within what was allocated, and UTF-8 for the units.
use quick_js_swift.Base.{
  ℕ, ◌+◌, ◌*◌, ◌/◌, ◌%◌, ◌^◌, ◌≤◌, ◌<◌, ◌≡◌, refl, ap, inl, inr, bit_and, bit_or, List, [], ◌∷◌,
  ◌++◌, Bool, true, false, ◌&&◌, not, ltb, leb, ltb→lt, leb→le, Bool-cases, length, length-append,
  arith,
}
use mathlib.Core.List.{append-nil}
use quick_js_swift.Base.Bits.{and_ones, high_or_low}
use quick_js_swift.Unicode.Utf8.{u8, follow, unicode_to_utf8}
use quick_js_swift.Unicode.Utf8.Lengths.{Coded, coded, unicode_to_utf8-Coded, unicode_to_utf8-ascii}
use quick_js_swift.Strings.Buffer.Writes.{AreUnits}
use quick_js_swift.Strings.Buffer.Copy.{utf16}
use quick_js_swift.Strings.Buffer.Finish.{all_units}
use quick_js_swift.Strings.Text.{
  utf8_loop, count_high, utf8_of_str8, is_high_surrogate, is_low_surrogate, pair_code, one_code,
  utf8_of_str16,
}
use quick_js_swift.Strings.Text.Decode.{utf8_loop-unicode_to_utf8}

one_code-code : (c : ℕ) → one_code c ≡ unicode_to_utf8 c
unfolding one_code unicode_to_utf8
one_code-code c = elim (Bool-cases (ltb c 0x80)) [
  | inl ascii ↦ rw ascii refl
  | inr more ↦ rw more refl
]

-- Each code point of an 8-bit string is written as `unicode_to_utf8` writes it.
two_bytes :
    (c : ℕ)
    → ltb c 0x80 ≡ false
    → c < 0x100
    → u8 (bit_or (c / 2 ^ 6) 0xc0) ∷ u8 (bit_or (bit_and c 0x3f) 0x80) ∷ [] ≡ unicode_to_utf8 c
unfolding unicode_to_utf8 follow
two_bytes c more h = ground (arith, more)

utf8_of_str8-cons :
    (c : ℕ) (src : List ℕ)
    → c < 0x100
    → utf8_of_str8 (c ∷ src) ≡ unicode_to_utf8 c ++ utf8_of_str8 src
unfolding utf8_of_str8
utf8_of_str8-cons c src h = elim (Bool-cases (ltb c 0x80)) [
  | inl ascii ↦ rw (ascii, unicode_to_utf8-ascii c (ltb→lt _ _ ascii)) refl
  | inr more ↦ rw (more, ← two_bytes c more h) refl
]

-- What `JS_NewStringLen` makes of bytes.
abbrev pub decoded : List ℕ → List ℕ
decoded q = all_units (utf8_loop (length q) q)

decoded-code :
    (c : ℕ) (rest : List ℕ)
    → c < 0x110000
    → decoded (unicode_to_utf8 c ++ rest) ≡ utf16 c ++ decoded rest
decoded-code c rest h =
    utf8_loop-unicode_to_utf8 c (length (unicode_to_utf8 c ++ rest)) rest h (omega arith)

pub utf16_one : (c : ℕ) → c < 0x10000 → utf16 c ≡ c ∷ []
unfolding utf16
utf16_one c h = ground arith

decoded_nil : decoded [] ≡ []
unfolding utf8_loop
decoded_nil = refl

pub decoded-utf8_of_str8 : (src : List ℕ) → AreUnits false src → decoded (utf8_of_str8 src) ≡ src
decoded-utf8_of_str8 [] h = unfold utf8_of_str8 in decoded_nil
decoded-utf8_of_str8 (c ∷ src) h =
    rw
      (
        utf8_of_str8-cons c src h.0,
        decoded-code c (utf8_of_str8 src) (omega (arith, h.0)),
        utf16_one c (omega (arith, h.0)),
        decoded-utf8_of_str8 src h.1,
      )
      refl

pub both : (a b : Bool) → (a && b) ≡ true → (a ≡ true) × (b ≡ true)
both true true e = (refl, refl)
both true false e = cc
both false b e = cc

-- A surrogate pair has a code, whose units it is.
pair_code-sum : (c c1 : ℕ) → pair_code c c1 ≡ c % 2 ^ 10 * 2 ^ 10 + c1 % 2 ^ 10 + 0x10000
unfolding pair_code
pair_code-sum c c1 =
    rw (and_ones 10 c, and_ones 10 c1, high_or_low 10 (c % 2 ^ 10) (c1 % 2 ^ 10) (omega arith)) refl

abbrev pub IsPair : ℕ → ℕ → Type 0
IsPair c c1 =
    (0x10000 ≤ pair_code c c1)
    × (pair_code c c1 < 0x110000)
    × (utf16 (pair_code c c1) ≡ c ∷ c1 ∷ [])

pub pair_code_lem :
    (cesu8 : Bool) (c c1 : ℕ)
    → (is_high_surrogate c && (not cesu8 && is_low_surrogate c1)) ≡ true
    → IsPair c c1
unfolding utf16 is_high_surrogate is_low_surrogate
pair_code_lem cesu8 c c1 e =
    let (hi, tests) = both (is_high_surrogate c) (not cesu8 && is_low_surrogate c1) e in
    let lo = (both (not cesu8) (is_low_surrogate c1) tests).1 in
    let (hi0, hi1) = both (leb 0xd800 c) (ltb c 0xdc00) hi in
    let (lo0, lo1) = both (leb 0xdc00 c1) (ltb c1 0xe000) lo in
    let h0 = leb→le _ _ hi0 in
    let h1 = ltb→lt _ _ hi1 in
    let l0 = leb→le _ _ lo0 in
    let l1 = ltb→lt _ _ lo1 in
    rw (pair_code-sum c c1) (omega arith, omega arith, ground (arith, h0, h1, l0, l1))

pub decoded-utf8_of_str16 :
    (cesu8 : Bool) (src : List ℕ) → AreUnits true src → decoded (utf8_of_str16 cesu8 src) ≡ src
unfolding utf8_of_str16
decoded-utf8_of_str16 cesu8 [] h = decoded_nil
decoded-utf8_of_str16 cesu8 (c ∷ []) h =
    rw
      (
        one_code-code c,
        ← append-nil (unicode_to_utf8 c),
        decoded-code c [] (omega (arith, h.0)),
        utf16_one c h.0,
        decoded_nil,
      )
      refl
decoded-utf8_of_str16 cesu8 (c ∷ c1 ∷ src) h =
    elim (Bool-cases (is_high_surrogate c && (not cesu8 && is_low_surrogate c1))) [
      | inl pair ↦
          let (_, valid, is_units) = pair_code_lem cesu8 c c1 pair in
          rw
            (
              pair,
              decoded-code (pair_code c c1) (utf8_of_str16 cesu8 src) valid,
              is_units,
              decoded-utf8_of_str16 cesu8 src h.1.1,
            )
            refl
      | inr alone ↦
          rw
            (
              alone,
              one_code-code c,
              decoded-code c (utf8_of_str16 cesu8 (c1 ∷ src)) (omega (arith, h.0)),
              utf16_one c h.0,
              decoded-utf8_of_str16 cesu8 (c1 ∷ src) h.1,
            )
            refl
    ]

-- The bytes counted for an 8-bit string are those that are written.
pub length-utf8_of_str8 :
    (src : List ℕ) → AreUnits false src → length (utf8_of_str8 src) ≡ length src + count_high src
unfolding utf8_of_str8 count_high
length-utf8_of_str8 [] h = refl
length-utf8_of_str8 (c ∷ src) h =
    let rest = length-utf8_of_str8 src h.1 in
    elim (Bool-cases (ltb c 0x80)) [
      | inl ascii ↦ rw ascii (omega (arith, rest, ltb→lt _ _ ascii))
      | inr more ↦ rw more (ground (arith, rest, more, h.0))
    ]

length-code : (c : ℕ) → c < 0x10000 → length (unicode_to_utf8 c) ≤ 3
length-code c h = elim (Bool-cases (ltb c 0x80)) [
  | inl ascii ↦ rw (unicode_to_utf8-ascii c (ltb→lt _ _ ascii)) (omega arith)
  | inr more ↦ go (unicode_to_utf8-Coded c (ground (arith, more)) (omega arith))
]
  where
    go : Coded c → length (unicode_to_utf8 c) ≤ 3
    go (coded b p e _ _ _ short _ _) = omega (arith, ap length e, short h)

length-pair : (c : ℕ) → 0x10000 ≤ c → c < 0x110000 → length (unicode_to_utf8 c) ≤ 4
length-pair c lo hi = go (unicode_to_utf8-Coded c (omega arith) (omega arith))
  where
    go : Coded c → length (unicode_to_utf8 c) ≤ 4
    go (coded b p e _ _ _ _ _ short) = omega (arith, ap length e, short (omega arith))

-- Three bytes for each unit are enough for a 16-bit string.
pub length-utf8_of_str16 :
    (cesu8 : Bool) (src : List ℕ)
    → AreUnits true src
    → length (utf8_of_str16 cesu8 src) ≤ length src * 3
unfolding utf8_of_str16
length-utf8_of_str16 cesu8 [] h = omega arith
length-utf8_of_str16 cesu8 (c ∷ []) h = rw (one_code-code c) (length-code c h.0)
length-utf8_of_str16 cesu8 (c ∷ c1 ∷ src) h =
    elim (Bool-cases (is_high_surrogate c && (not cesu8 && is_low_surrogate c1))) [
      | inl pair ↦
          let (past, valid, _) = pair_code_lem cesu8 c c1 pair in
          let four = length-pair (pair_code c c1) past valid in
          rw pair (
            omega (
              arith,
              length-append (unicode_to_utf8 (pair_code c c1)) (utf8_of_str16 cesu8 src),
              four,
              length-utf8_of_str16 cesu8 src h.1.1,
            ))
      | inr alone ↦
          rw (alone, one_code-code c)
            (omega (
              arith,
              length-append (unicode_to_utf8 c) (utf8_of_str16 cesu8 (c1 ∷ src)),
              length-code c h.0,
              length-utf8_of_str16 cesu8 (c1 ∷ src) h.1,
            ))
    ]
