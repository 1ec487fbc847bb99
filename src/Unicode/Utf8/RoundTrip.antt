-- ===== src/Unicode/Utf8/RoundTrip.antt =====
-- Encoding and decoding UTF-8 are inverse.
use quick_js_swift.Base.{
  ℕ, ◌+◌, ◌-◌, ◌/◌, ◌^◌, ◌≤◌, ◌<◌, List, [], ◌∷◌, ◌++◌, ◌≡◌, ◌∙◌, ap, ltb, ltb→lt, arith, sym,
  Bool-cases, inl, inr, length, ◌⊎◌, ◌↔◌,
}
use quick_js_swift.Unicode.Utf8.{code, error, unicode_to_utf8, unicode_from_utf8}
use quick_js_swift.Unicode.Utf8.Continuation.{follows}
use quick_js_swift.Unicode.Utf8.Forms.{
  form2, form3, form4, form5, lead2, lead3, lead4, lead5, form1, lead1, behind-follows, behind_inv,
  Form, one, two, three, four, five, six, form,
}

decode_encoded :
    (c max_len : ℕ) (rest : List ℕ)
    → Form c
    → length (unicode_to_utf8 c) ≤ max_len
    → unicode_from_utf8 (unicode_to_utf8 c ++ rest) max_len ≡ code c rest
decode_encoded c max_len rest (one h) fits =
    unfold unicode_to_utf8 unicode_from_utf8 in ground arith
decode_encoded c max_len rest (two lo hi) fits =
    let e = form1 c lo hi in
    rw e (
      lead1 (c / 64) _ max_len (omega arith)
      ∙ behind-follows 1 0x80 c max_len rest lo (omega (arith, ap length e)))
decode_encoded c max_len rest (three lo hi) fits =
    let e = form2 c lo hi in
    rw e (
      lead2 (c / 64 ^ 2) _ max_len (omega arith)
      ∙ behind-follows 2 0x800 c max_len rest lo (omega (arith, ap length e)))
decode_encoded c max_len rest (four lo hi) fits =
    let e = form3 c lo hi in
    rw e (
      lead3 (c / 64 ^ 3) _ max_len (omega arith)
      ∙ behind-follows 3 0x10000 c max_len rest lo (omega (arith, ap length e)))
decode_encoded c max_len rest (five lo hi) fits =
    let e = form4 c lo hi in
    rw e (
      lead4 (c / 64 ^ 4) _ max_len (omega arith)
      ∙ behind-follows 4 0x200000 c max_len rest lo (omega (arith, ap length e)))
decode_encoded c max_len rest (six lo hi) fits =
    let e = form5 c lo hi in
    rw e (
      lead5 (c / 64 ^ 5) _ max_len (omega arith)
      ∙ behind-follows 5 0x4000000 c max_len rest lo (omega (arith, ap length e)))

unicode_to_utf8-ascii : (c : ℕ) → c < 0x80 → unicode_to_utf8 c ≡ c ∷ []
unfolding unicode_to_utf8
unicode_to_utf8-ascii c h = ground arith

ascii : (b : ℕ) (p : List ℕ) (max_len : ℕ) → b < 0x80 → unicode_from_utf8 (b ∷ p) max_len ≡ code b p
unfolding unicode_from_utf8
ascii b p max_len h = ground arith

-- What an accepted input is: the encoding of the code, with the rest behind it.
module _ (c max_len : ℕ) (rest : List ℕ) where
  abbrev IsEncoded : List ℕ → Type 0
  IsEncoded p =
      (c < 2 ^ 31) × (p ≡ unicode_to_utf8 c ++ rest) × (length (unicode_to_utf8 c) ≤ max_len)

  inv1 :
      (x : ℕ) (p : List ℕ)
      → x < 32
      → unicode_from_utf8 ((0xc0 + x) ∷ p) max_len ≡ code c rest
      → IsEncoded ((0xc0 + x) ∷ p)
  inv1 x p h e =
      let (room, bytes, high, lo) =
        behind_inv 1 0x80 x max_len c p rest (omega arith) (rw (lead1 x p max_len h) at e) in
      let hi : c < 0x800 = omega arith in
      let out = form1 c lo hi in
      (
        omega arith,
        rw (out, bytes) (ap (λ (t : ℕ). (0xc0 + t) ∷ (follows 1 c ++ rest)) (sym high)),
        rw out (omega arith),
      )

  inv2 :
      (x : ℕ) (p : List ℕ)
      → x < 16
      → unicode_from_utf8 ((0xe0 + x) ∷ p) max_len ≡ code c rest
      → IsEncoded ((0xe0 + x) ∷ p)
  inv2 x p h e =
      let (room, bytes, high, lo) =
        behind_inv 2 0x800 x max_len c p rest (omega arith) (rw (lead2 x p max_len h) at e) in
      let hi : c < 0x10000 = omega arith in
      let out = form2 c lo hi in
      (
        omega arith,
        rw (out, bytes) (ap (λ (t : ℕ). (0xe0 + t) ∷ (follows 2 c ++ rest)) (sym high)),
        rw out (omega arith),
      )

  inv3 :
      (x : ℕ) (p : List ℕ)
      → x < 8
      → unicode_from_utf8 ((0xf0 + x) ∷ p) max_len ≡ code c rest
      → IsEncoded ((0xf0 + x) ∷ p)
  inv3 x p h e =
      let (room, bytes, high, lo) =
        behind_inv 3 0x10000 x max_len c p rest (omega arith) (rw (lead3 x p max_len h) at e) in
      let hi : c < 0x200000 = omega arith in
      let out = form3 c lo hi in
      (
        omega arith,
        rw (out, bytes) (ap (λ (t : ℕ). (0xf0 + t) ∷ (follows 3 c ++ rest)) (sym high)),
        rw out (omega arith),
      )

  inv4 :
      (x : ℕ) (p : List ℕ)
      → x < 4
      → unicode_from_utf8 ((0xf8 + x) ∷ p) max_len ≡ code c rest
      → IsEncoded ((0xf8 + x) ∷ p)
  inv4 x p h e =
      let (room, bytes, high, lo) =
        behind_inv 4 0x200000 x max_len c p rest (omega arith) (rw (lead4 x p max_len h) at e) in
      let hi : c < 0x4000000 = omega arith in
      let out = form4 c lo hi in
      (
        omega arith,
        rw (out, bytes) (ap (λ (t : ℕ). (0xf8 + t) ∷ (follows 4 c ++ rest)) (sym high)),
        rw out (omega arith),
      )

  inv5 :
      (x : ℕ) (p : List ℕ)
      → x < 2
      → unicode_from_utf8 ((0xfc + x) ∷ p) max_len ≡ code c rest
      → IsEncoded ((0xfc + x) ∷ p)
  inv5 x p h e =
      let (room, bytes, high, lo) =
        behind_inv 5 0x4000000 x max_len c p rest (omega arith) (rw (lead5 x p max_len h) at e) in
      let hi : c < 0x80000000 = omega arith in
      let out = form5 c lo hi in
      (
        omega arith,
        rw (out, bytes) (ap (λ (t : ℕ). (0xfc + t) ∷ (follows 5 c ++ rest)) (sym high)),
        rw out (omega arith),
      )

  inv0 :
      (b : ℕ) (p : List ℕ)
      → 0 < max_len
      → b < 0x80
      → unicode_from_utf8 (b ∷ p) max_len ≡ code c rest
      → IsEncoded (b ∷ p)
  inv0 b p pos h e =
      let is_b : code b p ≡ code c rest = sym (ascii b p max_len h) ∙ e in
      ground (arith, unicode_to_utf8-ascii c)

  pub no_lead :
      (b : ℕ) (p : List ℕ)
      → 0x80 ≤ b
      → (b < 0xc0) ⊎ (0xfe ≤ b)
      → unicode_from_utf8 (b ∷ p) max_len ≡ error
  unfolding unicode_from_utf8
  no_lead b p lo h = ground arith

  -- The first byte as its mark and a value.
  by_lead :
      (base b : ℕ) (p : List ℕ)
      → base ≤ b
      → (unicode_from_utf8 ((base + (b - base)) ∷ p) max_len ≡ code c rest
          → IsEncoded ((base + (b - base)) ∷ p))
      → unicode_from_utf8 (b ∷ p) max_len ≡ code c rest
      → IsEncoded (b ∷ p)
  by_lead base b p h k e =
      let same : base + (b - base) ≡ b = omega arith in rw same at (k (rw same e))

  -- The ranges of first bytes of several-byte forms, in the order of the `switch`.
  from_e0 :
      (b : ℕ) (p : List ℕ)
      → 0xe0 ≤ b
      → unicode_from_utf8 (b ∷ p) max_len ≡ code c rest
      → IsEncoded (b ∷ p)
  from_e0 b p h e = elim (Bool-cases (ltb b 0xf0)) [
    | inl u ↦ by_lead 0xe0 b p h (inv2 (b - 0xe0) p (ground arith)) e
    | inr u ↦ elim (Bool-cases (ltb b 0xf8)) [
      | inl v ↦ by_lead 0xf0 b p (ground arith) (inv3 (b - 0xf0) p (ground arith)) e
      | inr v ↦ elim (Bool-cases (ltb b 0xfc)) [
        | inl w ↦ by_lead 0xf8 b p (ground arith) (inv4 (b - 0xf8) p (ground arith)) e
        | inr w ↦ elim (Bool-cases (ltb b 0xfe)) [
          | inl z ↦ by_lead 0xfc b p (ground arith) (inv5 (b - 0xfc) p (ground arith)) e
          | inr z ↦ cc (e, no_lead b p (omega arith) (inr (ground arith)))
        ]
      ]
    ]
  ]

  IsEncoded-decoded :
      (p : List ℕ) → 0 < max_len → unicode_from_utf8 p max_len ≡ code c rest → IsEncoded p
  IsEncoded-decoded [] pos e = unfold unicode_from_utf8 in cc
  IsEncoded-decoded (b ∷ p) pos e = elim (Bool-cases (ltb b 0x80)) [
    | inl u ↦ inv0 b p pos (ltb→lt _ _ u) e
    | inr u ↦ elim (Bool-cases (ltb b 0xc0)) [
      | inl v ↦ cc (e, no_lead b p (ground arith) (inl (ltb→lt _ _ v)))
      | inr v ↦ elim (Bool-cases (ltb b 0xe0)) [
        | inl w ↦ by_lead 0xc0 b p (ground arith) (inv1 (b - 0xc0) p (ground arith)) e
        | inr w ↦ from_e0 b p (ground arith) e
      ]
    ]
  ]

-- `unicode_from_utf8` returns `c` and the rest exactly when the input is the encoding of `c` by
-- `unicode_to_utf8` with that rest behind it, `c` has 31 bits, and the encoding fits `max_len`:
-- what was encoded is read back, and no other form (overlong, cut, badly continued) is accepted.
pub unicode_from_utf8_iff :
    (p : List ℕ) (max_len c : ℕ) (rest : List ℕ)
    → 0 < max_len
    → (unicode_from_utf8 p max_len ≡ code c rest)
      ↔ ((c < 2 ^ 31) × (p ≡ unicode_to_utf8 c ++ rest) × (length (unicode_to_utf8 c) ≤ max_len))
unicode_from_utf8_iff p max_len c rest pos = (
  IsEncoded-decoded c max_len rest p pos,
  λ h. rw (h.1) (decode_encoded c max_len rest (form c h.0) h.2),
)
