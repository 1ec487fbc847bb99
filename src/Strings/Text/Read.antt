-- ===== src/Strings/Text/Read.antt =====
-- Codes read out of strings by `string_getc`.
use quick_js_swift.Base.{
  Option, some, none, Bool, ◌⊎◌, ◌/◌, ◌%◌, ◌∙◌, sym, ap, leb, lt→ltb, drop_all, ℕ, zero, suc, ◌+◌,
  ◌-◌, ◌^◌, ◌≤◌, ◌<◌, ◌≡◌, refl, inl, inr, List, [], ◌∷◌, true, false, ◌&&◌, ltb, ltb→lt,
  Bool-cases, length, drop-get_or, arith, All, get_or, take, drop,
}
use quick_js_swift.Strings.Buffer.{JsString}
use quick_js_swift.Strings.Buffer.Writes.{AreUnits, wide_units}
use quick_js_swift.Strings.Buffer.Copy.{IsString, utf16}
use quick_js_swift.Strings.Text.{
  string_get, first_unit, second_unit, string_getc, is_high_surrogate, is_low_surrogate, pair_code,
}
use quick_js_swift.Strings.Text.Encode.{pair_code_lem, utf16_one, both}

get-lt :
    (n idx : ℕ) (cs : List ℕ) → All (λ (x : ℕ). x < n) cs → idx < length cs → get_or cs idx 0 < n
get-lt n idx [] u h = absurd (omega arith)
get-lt n zero (c ∷ cs) u h = u.0
get-lt n (suc idx) (c ∷ cs) u h = get-lt n idx cs u.1 (omega arith)

-- The next two units are those of a code that takes two.
abbrev pub HasPair : List ℕ → ℕ → Type 0
HasPair cs idx = (c : ℕ) × (0x10000 ≤ c) × (c < 0x110000) × (take 2 (drop idx cs) ≡ utf16 c)

-- A code was read at `idx`, with the next `idx`: it is made of the units between, and is a code of
-- two units if there is one. There was no read past the end.
abbrev pub IsRead : List ℕ → ℕ → Option (ℕ × ℕ) → Type 0
IsRead cs idx none = ⊥
IsRead cs idx (some (c, next)) =
    (c < 0x110000)
    × (idx < next)
    × (next ≤ length cs)
    × (take (next - idx) (drop idx cs) ≡ utf16 c)
    × ((0x10000 ≤ c) ⊎ ¬ HasPair cs idx)

two_units :
    (cs : List ℕ) (idx : ℕ)
    → idx + 1 < length cs
    → take 2 (drop idx cs) ≡ get_or cs idx 0 ∷ get_or cs (idx + 1) 0 ∷ []
two_units cs idx h =
    let after : suc idx ≡ idx + 1 = omega arith in
    rw (drop-get_or idx cs 0 (omega arith), drop-get_or (suc idx) cs 0 (omega arith), after) refl

cons_eq : (a b c d : ℕ) → a ∷ b ∷ [] ≡ c ∷ d ∷ [] → (a ≡ c) × (b ≡ d)
cons_eq a b c d e = (cc, cc)

one_not_two : (a c d : ℕ) → a ∷ [] ≡ c ∷ d ∷ [] → ⊥
one_not_two a c d e = absurd (omega (arith, ap length e))

-- A pair at `idx` passes the tests of `string_getc`.
HasPair-tests :
    (cs : List ℕ) (idx : ℕ)
    → idx < length cs
    → HasPair cs idx
    → (is_high_surrogate (get_or cs idx 0) ≡ true)
      × (ltb (idx + 1) (length cs) ≡ true)
      × (is_low_surrogate (get_or cs (idx + 1) 0) ≡ true)
unfolding is_high_surrogate is_low_surrogate utf16
HasPair-tests cs idx h (c, ge, lt, e) =
    let d = c - 0x10000 in
    let big : leb 0x10000 c ≡ true = ground arith in
    elim (Bool-cases (ltb (idx + 1) (length cs))) [
      | inr last ↦
          let nothing : drop (suc idx) cs ≡ [] = drop_all (suc idx) cs (ground arith) in
          absurd
            (one_not_two (get_or cs idx 0) _ _ (rw (drop-get_or idx cs 0 h, nothing, big) at e))
      | inl more ↦
          let (hi, lo) =
            cons_eq (get_or cs idx 0) (get_or cs (idx + 1) 0) (d / 2 ^ 10 + 0xd800)
              (d % 2 ^ 10 + 0xdc00) (sym (two_units cs idx (ltb→lt _ _ more)) ∙ rw big at e) in
          (rw hi (ground arith), more, rw lo (ground arith))
    ]

one-IsRead :
    (cs : List ℕ) (idx : ℕ)
    → AreUnits true cs
    → idx < length cs
    → ¬ HasPair cs idx
    → IsRead cs idx (some (get_or cs idx 0, idx + 1))
one-IsRead cs idx u h alone =
    let c = get_or cs idx 0 in
    let small : c < 2 ^ 16 = get-lt (2 ^ 16) idx cs u h in
    let moved : idx + 1 - idx ≡ 1 = omega arith in
    (
      omega arith,
      omega arith,
      omega arith,
      rw (moved, drop-get_or idx cs 0 h, utf16_one c small) refl,
      inr alone,
    )

pair-IsRead :
    (cs : List ℕ) (idx : ℕ)
    → idx + 1 < length cs
    → is_high_surrogate (get_or cs idx 0) ≡ true
    → is_low_surrogate (get_or cs (idx + 1) 0) ≡ true
    → IsRead cs idx (some (pair_code (get_or cs idx 0) (get_or cs (idx + 1) 0), idx + 2))
pair-IsRead cs idx h hi lo =
    let c = get_or cs idx 0 in
    let c1 = get_or cs (idx + 1) 0 in
    let (past, valid, is_units) = pair_code_lem false c c1 (rw (hi, lo) refl) in
    let moved : idx + 2 - idx ≡ 2 = omega arith in
    (valid, omega arith, omega arith, rw (moved, is_units) (two_units cs idx h), inl past)

narrow-HasPair : (cs : List ℕ) (idx : ℕ) → AreUnits false cs → idx < length cs → HasPair cs idx → ⊥
unfolding is_high_surrogate
narrow-HasPair cs idx u h pair =
    let (hi, _, _) = HasPair-tests cs idx h pair in
    let small = get-lt (2 ^ 8) idx cs u h in absurd (ground (arith, hi, small))

not_both : (b : Bool) → b ≡ true → b ≡ false → ⊥
not_both true e f = cc
not_both false e f = cc

not_pair :
    (p : JsString) (idx : ℕ)
    → IsString p
    → idx < length p.chars
    → (p.is_wide_char
        && (is_high_surrogate (get_or p.chars idx 0) && ltb (idx + 1) (length p.chars)))
      ≡ false
    → HasPair p.chars idx
    → ⊥
not_pair p idx u h alone pair =
    let (hi, more, lo) = HasPair-tests p.chars idx h pair in
    elim (Bool-cases p.is_wide_char) [
      | inl wide ↦ absurd (not_both _ refl (rw (wide, hi, more) at alone))
      | inr narrow ↦ narrow-HasPair p.chars idx (rw narrow at u) h pair
    ]

-- In a string whose units are of its width, `string_getc` at an index below the length reads no
-- unit past the end. The code that it reads is made of the units from there to the next index,
-- which is larger and within the string; it is a surrogate pair's code if such a pair stands there.
pub string_getc_lem :
    (p : JsString) (idx : ℕ)
    → IsString p
    → idx < length p.chars
    → IsRead p.chars idx (string_getc p idx)
unfolding string_getc string_get first_unit second_unit
string_getc_lem p idx u h =
    let cs = p.chars in
    let wide : AreUnits true cs = wide_units p.is_wide_char cs u in
    let there = lt→ltb _ _ h in
    elim (Bool-cases
      (p.is_wide_char && (is_high_surrogate (get_or cs idx 0) && ltb (idx + 1) (length cs)))) [
        | inr alone ↦ rw (there, alone) (one-IsRead cs idx wide h (not_pair p idx u h alone))
        | inl high ↦
            let tests = (both p.is_wide_char _ high).1 in
            let (hi, more) = both (is_high_surrogate (get_or cs idx 0)) _ tests in
            elim (Bool-cases (is_low_surrogate (get_or cs (idx + 1) 0))) [
              | inr alone ↦
                  rw (there, high, more, alone)
                    (one-IsRead cs idx wide h
                      (λ pair. absurd (not_both _ (HasPair-tests cs idx h pair).2 alone)))
              | inl low ↦ rw (there, high, more, low) (pair-IsRead cs idx (ltb→lt _ _ more) hi low)
            ]
      ]
