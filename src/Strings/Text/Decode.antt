-- ===== src/Strings/Text/Decode.antt =====
-- The loop of `JS_NewStringLen` ends, and what it makes of well-formed and of stray bytes.
use quick_js_swift.Base.{
  ℕ, zero, suc, ◌-◌, ◌%◌, ◌^◌, ◌≤◌, ◌<◌, ◌≡◌, refl, sym, ap, ◌∙◌, inl, inr, bit_and, List, [], ◌∷◌,
  ◌++◌, true, false, ltb, leb, ltb→lt, le→leb, Bool-cases, length, length-append, arith, get_or,
  drop,
}
use mathlib.Core.List.{append_assoc}
use quick_js_swift.Base.Bits.{and_ones}
use quick_js_swift.Unicode.Utf8.{Decoded, code, error, overrun, unicode_from_utf8, unicode_to_utf8}
use quick_js_swift.Unicode.Utf8.RoundTrip.{unicode_from_utf8_iff}
use quick_js_swift.Unicode.Utf8.Lengths.{
  Coded, coded, unicode_to_utf8-Coded, length-unicode_to_utf8_pos, unicode_to_utf8-ascii,
}
use quick_js_swift.Strings.Buffer.Copy.{utf16}
use quick_js_swift.Strings.Buffer.Finish.{Write, units, all_units}
use quick_js_swift.Strings.Text.{
  is_continuation, skip_continuations, skip_next, wide_round, round, utf8_loop,
}

length-skip_continuations : (p : List ℕ) → length (skip_continuations p) ≤ length p
unfolding skip_continuations
length-skip_continuations [] = omega arith
length-skip_continuations (b ∷ p) = ground (arith, length-skip_continuations p)

-- A byte that is skipped over, or the next one, is gone after both loops.
length-skip_next : (b : ℕ) (p : List ℕ) → length (skip_next (skip_continuations (b ∷ p))) ≤ length p
unfolding skip_next skip_continuations
length-skip_next b p = elim (Bool-cases (is_continuation b)) [
  | inl stray ↦ rw stray (shorter (skip_continuations p) (length-skip_continuations p))
  | inr head ↦ rw head (length-skip_continuations p)
]
  where
    shorter : (q : List ℕ) → length q ≤ length p → length (skip_next q) ≤ length p
    shorter [] h = omega arith
    shorter (x ∷ q) h = omega (arith, length-skip_continuations q)

-- Each round takes a byte at least.
length-round : (b : ℕ) (p : List ℕ) → length (round b p).1 ≤ length p
unfolding round utf16
length-round b p = elim (Bool-cases (ltb b 128)) [
  | inl ascii ↦ rw ascii (omega arith)
  | inr other ↦ rw other (wide (unicode_from_utf8 (b ∷ p) (suc (length p))) refl)
]
  where
    shorter :
        (c : ℕ) (rest : List ℕ)
        → c < 2 ^ 31
        → b ∷ p ≡ unicode_to_utf8 c ++ rest
        → length rest ≤ length p
    shorter c rest h e =
        omega (
          arith,
          length-unicode_to_utf8_pos c h,
          ap length e,
          length-append (unicode_to_utf8 c) rest,
        )

    wide :
        (d : Decoded)
        → unicode_from_utf8 (b ∷ p) (suc (length p)) ≡ d
        → length (wide_round (b ∷ p) d).1 ≤ length p
    wide (code c rest) e =
        let d = (unicode_from_utf8_iff (b ∷ p) (suc (length p)) c rest (omega arith)).0 e in
        let fewer : length rest ≤ length p = shorter c rest d.0 d.1 in
        elim (Bool-cases (ltb c 0x10000)) [
          | inl one ↦ rw one fewer
          | inr more ↦ elim (Bool-cases (leb c 0x10FFFF)) [
            | inl pair ↦ rw (more, pair) fewer
            | inr bad ↦ rw (more, bad) (length-skip_next b p)
          ]
        ]
    wide error e = length-skip_next b p
    wide overrun e = length-skip_next b p

-- The loop ends by its own test: any fuel from the number of bytes on gives the same writes.
pub utf8_loop_fuel :
    (fuel : ℕ) (p : List ℕ) → length p ≤ fuel → utf8_loop fuel p ≡ utf8_loop (length p) p
unfolding utf8_loop
utf8_loop_fuel fuel p h = same fuel (length p) p h (omega arith)
  where
    same : (f g : ℕ) (p : List ℕ) → length p ≤ f → length p ≤ g → utf8_loop f p ≡ utf8_loop g p
    same zero zero [] h k = refl
    same zero (suc g) [] h k = refl
    same (suc f) zero [] h k = refl
    same (suc f) (suc g) [] h k = refl
    same zero g (b ∷ p) h k = absurd (omega arith)
    same (suc f) zero (b ∷ p) h k = absurd (omega arith)
    same (suc f) (suc g) (b ∷ p) h k =
        let fewer = length-round b p in
        ap (λ (l : List Write). (round b p).0 ++ l)
          (same f g (round b p).1 (omega (arith, h, fewer)) (omega (arith, k, fewer)))

all_units-append : (a b : List Write) → all_units (a ++ b) ≡ all_units a ++ all_units b
all_units-append [] b = refl
all_units-append (x ∷ a) b =
    ap (λ (l : List ℕ). units x ++ l) (all_units-append a b)
    ∙ sym (append_assoc (units x) (all_units a) (all_units b))

-- One round of the loop, on any fuel.
pub utf8_loop-round :
    (fuel b : ℕ) (p : List ℕ)
    → length (b ∷ p) ≤ fuel
    → all_units (utf8_loop fuel (b ∷ p))
      ≡ all_units (round b p).0 ++ all_units (utf8_loop (length (round b p).1) (round b p).1)
unfolding utf8_loop
utf8_loop-round zero b p h = absurd (omega arith)
utf8_loop-round (suc fuel) b p h =
    all_units-append (round b p).0 (utf8_loop fuel (round b p).1)
    ∙ ap (λ (l : List Write). all_units (round b p).0 ++ all_units l)
        (utf8_loop_fuel fuel (round b p).1 (omega (arith, length-round b p)))

-- What a code adds, in a round at its first byte.
wide_round-code :
    (c : ℕ) (q rest : List ℕ)
    → c < 0x110000
    → (all_units (wide_round q (code c rest)).0 ≡ utf16 c) × ((wide_round q (code c rest)).1 ≡ rest)
unfolding wide_round utf16
wide_round-code c q rest h = elim (Bool-cases (ltb c 0x10000)) [
  | inl one ↦ let small : leb 0x10000 c ≡ false = ground arith in rw (one, small) (refl, refl)
  | inr more ↦
      let big : leb 0x10000 c ≡ true = ground arith in
      let valid : leb c 0x10FFFF ≡ true = le→leb _ _ (omega arith) in
      let low : bit_and (c - 0x10000) 0x3ff ≡ (c - 0x10000) % 2 ^ 10 = and_ones 10 (c - 0x10000) in
      rw (more, big, valid, low) (refl, refl)
]

round-unicode_to_utf8 :
    (c : ℕ) (rest : List ℕ) (b : ℕ) (p : List ℕ)
    → c < 0x110000
    → unicode_to_utf8 c ++ rest ≡ b ∷ p
    → (all_units (round b p).0 ≡ utf16 c) × ((round b p).1 ≡ rest)
unfolding round utf16
round-unicode_to_utf8 c rest b p h e = elim (Bool-cases (ltb c 0x80)) [
  | inl ascii ↦
      let one = unicode_to_utf8-ascii c (ltb→lt _ _ ascii) in
      let is_b : c ∷ rest ≡ b ∷ p = ap (λ (l : List ℕ). l ++ rest) (sym one) ∙ e in
      let narrow : leb 0x10000 c ≡ false = ground (arith, ascii) in
      let same : c ≡ b = ap (λ (l : List ℕ). get_or l 0 0) is_b in
      let ascii_b : ltb b 128 ≡ true = rw same at ascii in
      let behind : rest ≡ p = ap (λ (l : List ℕ). drop 1 l) is_b in
      rw (ascii_b, narrow, same) (refl, sym behind)
  | inr more ↦ wide (unicode_to_utf8-Coded c (ground (arith, more)) (omega arith))
]
  where
    wide : Coded c → (all_units (round b p).0 ≡ utf16 c) × ((round b p).1 ≡ rest)
    wide (coded b' p' e' big _ n _ _ _) =
        let is_b : b' ∷ (p' ++ rest) ≡ b ∷ p = ap (λ (l : List ℕ). l ++ rest) (sym e') ∙ e in
        let fits : length (unicode_to_utf8 c) ≤ length (b ∷ p) =
          omega (arith, ap length e, length-append (unicode_to_utf8 c) rest) in
        let decoded =
          (unicode_from_utf8_iff (b ∷ p) (length (b ∷ p)) c rest (omega arith)).1
            (omega arith, sym e, fits) in
        let past : ltb b 128 ≡ false =
          let same : b' ≡ b = ap (λ (l : List ℕ). get_or l 0 0) is_b in ground (arith, same, big) in
        rw (past, decoded) (wide_round-code c (b ∷ p) rest h)

-- A code of Unicode in UTF-8, with any bytes behind it, gives the units of the code.
pub utf8_loop-unicode_to_utf8 :
    (c fuel : ℕ) (rest : List ℕ)
    → c < 0x110000
    → length (unicode_to_utf8 c ++ rest) ≤ fuel
    → all_units (utf8_loop fuel (unicode_to_utf8 c ++ rest))
      ≡ utf16 c ++ all_units (utf8_loop (length rest) rest)
utf8_loop-unicode_to_utf8 c fuel rest h k = go (unicode_to_utf8 c ++ rest) refl k
  where
    go :
        (q : List ℕ)
        → unicode_to_utf8 c ++ rest ≡ q
        → length q ≤ fuel
        → all_units (utf8_loop fuel q) ≡ utf16 c ++ all_units (utf8_loop (length rest) rest)
    go [] e k = absurd (
        omega (
          arith,
          length-unicode_to_utf8_pos c (omega arith),
          ap length e,
          length-append (unicode_to_utf8 c) rest,
        ))
    go (b ∷ p) e k =
        let r = round-unicode_to_utf8 c rest b p h e in
        utf8_loop-round fuel b p k
        ∙ ap (λ (l : List ℕ). l ++ all_units (utf8_loop (length (round b p).1) (round b p).1)) r.0
        ∙ ap (λ (l : List ℕ). utf16 c ++ all_units (utf8_loop (length l) l)) r.1
