-- ===== src/Strings/Compare.antt =====
-- Comparison of strings: `memcmp16_8`, `memcmp16`, `js_string_memcmp` and `js_string_compare` of
-- Sources/QuickJSC/quickjs.c. `memcmp` of the C library is a parameter.
use quick_js_swift.Base.{
  ℕ, zero, suc, ◌+◌, ◌-◌, ◌≤◌, ◌<◌, min, ◌≡◌, refl, sym, ap, ◌∙◌, inl, inr, List, [], ◌∷◌, true,
  false, ltb, leb, ◌==◌, if◌then◌else◌, Bool-cases, length, take, arith,
}
use quick_js_swift.Base.Int.{ℤ, pos, negsuc, pos_part, neg_part, sub_ℕ, ◌-ℤ◌}
use quick_js_swift.Strings.Buffer.{JsString}

-- The loop of `memcmp16_8` and that of `memcmp16`, which differ in the width of the units.
pub memcmp16 : List ℕ → List ℕ → ℕ → ℤ
memcmp16 src1 src2 zero = pos 0
memcmp16 [] src2 (suc len) = pos 0
memcmp16 (a ∷ src1) [] (suc len) = pos 0
memcmp16 (a ∷ src1) (b ∷ src2) (suc len) =
    let rest = memcmp16 src1 src2 len in if a == b then rest else sub_ℕ a b

module _ (memcmp : List ℕ → List ℕ → ℕ → ℤ) where
  pub js_string_memcmp : JsString → JsString → ℕ → ℤ
  unfolding memcmp16
  js_string_memcmp p1 p2 len =
      let narrow =
        if p2.is_wide_char
        then pos 0 -ℤ memcmp16 p2.chars p1.chars len
        else memcmp p1.chars p2.chars len in
      if p1.is_wide_char then memcmp16 p1.chars p2.chars len else narrow

  unfoldable pub js_string_compare : JsString → JsString → ℤ
  unfolding js_string_memcmp
  js_string_compare p1 p2 =
      let res = js_string_memcmp p1 p2 (min (length p1.chars) (length p2.chars)) in
      if pos_part res == 0
      then if neg_part res == 0
        then if length p1.chars == length p2.chars
          then pos 0
          else if ltb (length p1.chars) (length p2.chars)
          then negsuc 0
          else pos 1
        else res
      else res

-- The order of two strings by their units.
pub data Order : Type 0 where
  less equal greater : Order

unfoldable pub sign : ℤ → Order
sign (pos zero) = equal
sign (pos (suc n)) = greater
sign (negsuc n) = less

unfoldable pub by_units : List ℕ → List ℕ → Order
by_units [] [] = equal
by_units [] (b ∷ q) = less
by_units (a ∷ p) [] = greater
by_units (a ∷ p) (b ∷ q) =
    let rest = by_units p q in if ltb a b then less else if ltb b a then greater else rest

sign_pos : (n : ℕ) → 0 < n → sign (pos n) ≡ greater
unfolding sign
sign_pos zero h = absurd (omega arith)
sign_pos (suc n) h = refl

pub memcmp16_lem :
    (len : ℕ) (p q : List ℕ)
    → len ≤ length p
    → len ≤ length q
    → sign (memcmp16 p q len) ≡ by_units (take len p) (take len q)
unfolding memcmp16 sign by_units
memcmp16_lem zero p q h k = refl
memcmp16_lem (suc len) [] q h k = absurd (omega arith)
memcmp16_lem (suc len) (a ∷ p) [] h k = absurd (omega arith)
memcmp16_lem (suc len) (a ∷ p) (b ∷ q) h k =
    let rest = memcmp16_lem len p q (omega arith) (omega arith) in
    elim (Bool-cases (a == b)) [
      | inl same ↦
          let not_less : ltb a b ≡ false = ground (arith, same) in
          let not_greater : ltb b a ≡ false = ground (arith, same) in
          rw (same, not_less, not_greater) rest
      | inr other ↦ elim (Bool-cases (ltb a b)) [
        | inl below ↦
            let past : leb b a ≡ false = ground (arith, below) in rw (other, below, past) refl
        | inr above ↦
            let greater_by : ltb b a ≡ true = ground (arith, above, other) in
            let past : leb b a ≡ true = ground (arith, above) in
            rw (other, above, greater_by, past) (sign_pos (a - b) (ground (arith, above, other)))
      ]
    ]

flip : Order → Order
flip less = greater
flip equal = equal
flip greater = less

flip-sign : (c : ℤ) → sign (pos 0 -ℤ c) ≡ flip (sign c)
unfolding sign flip ◌-ℤ◌
flip-sign (pos zero) = refl
flip-sign (pos (suc n)) = let past : leb (0 + suc n) (0 + 0) ≡ false = ground arith in rw past refl
flip-sign (negsuc n) =
    let past : leb (0 + 0) (0 + suc n) ≡ true = ground arith in
    rw past (sign_pos (0 + suc n - (0 + 0)) (omega arith))

flip-by_units : (p q : List ℕ) → flip (by_units p q) ≡ by_units q p
unfolding flip by_units
flip-by_units [] [] = refl
flip-by_units [] (b ∷ q) = refl
flip-by_units (a ∷ p) [] = refl
flip-by_units (a ∷ p) (b ∷ q) = ground (arith, flip-by_units p q)

-- The order of the common length decides, and then the lengths.
abbrev by_length : Order → ℕ → ℕ → Order
by_length less m n = less
by_length greater m n = greater
by_length equal m n = if ltb m n then less else if ltb n m then greater else equal

by_length-suc : (o : Order) (m n : ℕ) → by_length o (suc m) (suc n) ≡ by_length o m n
by_length-suc less m n = refl
by_length-suc greater m n = refl
by_length-suc equal m n = ground arith

by_units-take :
    (p q : List ℕ)
    → by_units p q
      ≡ by_length
          (by_units (take (min (length p) (length q)) p) (take (min (length p) (length q)) q))
          (length p)
          (length q)
unfolding by_units
by_units-take [] [] = refl
by_units-take [] (b ∷ q) =
    let none_common : min 0 (suc (length q)) ≡ 0 = omega arith in
    let shorter : ltb 0 (suc (length q)) ≡ true = ground arith in rw (none_common, shorter) refl
by_units-take (a ∷ p) [] =
    let none_common : min (suc (length p)) 0 ≡ 0 = omega arith in
    let longer : ltb 0 (suc (length p)) ≡ true = ground arith in
    let not_shorter : ltb (suc (length p)) 0 ≡ false = ground arith in
    rw (none_common, longer, not_shorter) refl
by_units-take (a ∷ p) (b ∷ q) =
    let common : min (suc (length p)) (suc (length q)) ≡ suc (min (length p) (length q)) =
      omega arith in
    rw common (elim (Bool-cases (ltb a b)) [
      | inl below ↦ rw below refl
      | inr above ↦ elim (Bool-cases (ltb b a)) [
        | inl over ↦ rw (above, over) refl
        | inr same ↦
            rw (above, same) (by_units-take p q ∙ sym (by_length-suc _ (length p) (length q)))
      ]
    ])

-- What `memcmp` does for `len` bytes of both: the order of the first bytes that differ.
abbrev pub Compares : (List ℕ → List ℕ → ℕ → ℤ) → Type 0
Compares memcmp =
    (p q : List ℕ) (len : ℕ)
    → len ≤ length p
    → len ≤ length q
    → sign (memcmp p q len) ≡ by_units (take len p) (take len q)

by_result :
    (res : ℤ) (m n : ℕ)
    → sign (
        if pos_part res == 0
        then if neg_part res == 0
          then if m == n then pos 0 else if ltb m n then negsuc 0 else pos 1
          else res
        else res)
      ≡ by_length (sign res) m n
unfolding sign
by_result (pos zero) m n = elim (Bool-cases (m == n)) [
  | inl same ↦
      let a : ltb m n ≡ false = ground (arith, same) in
      let b : ltb n m ≡ false = ground (arith, same) in rw (same, a, b) refl
  | inr other ↦ elim (Bool-cases (ltb m n)) [
    | inl shorter ↦ rw (other, shorter) refl
    | inr longer ↦
        let b : ltb n m ≡ true = ground (arith, other, longer) in rw (other, longer, b) refl
  ]
]
by_result (pos (suc k)) m n =
    let some_left : (suc k == 0) ≡ false = ground arith in rw some_left refl
by_result (negsuc k) m n = let some_left : (suc k == 0) ≡ false = ground arith in rw some_left refl

js_string_memcmp_lem :
    (memcmp : List ℕ → List ℕ → ℕ → ℤ) (p1 p2 : JsString) (len : ℕ)
    → Compares memcmp
    → len ≤ length p1.chars
    → len ≤ length p2.chars
    → sign (js_string_memcmp memcmp p1 p2 len) ≡ by_units (take len p1.chars) (take len p2.chars)
unfolding js_string_memcmp
js_string_memcmp_lem memcmp p1 p2 len law h k = elim (Bool-cases p1.is_wide_char) [
  | inl wide ↦ rw wide (memcmp16_lem len p1.chars p2.chars h k)
  | inr narrow ↦ elim (Bool-cases p2.is_wide_char) [
    | inl wide ↦
        rw (narrow, wide)
          (flip-sign (memcmp16 p2.chars p1.chars len)
            ∙ ap flip (memcmp16_lem len p2.chars p1.chars k h)
            ∙ flip-by_units (take len p2.chars) (take len p1.chars))
    | inr both ↦ rw (narrow, both) (law p1.chars p2.chars len h k)
  ]
]

-- With a `memcmp` that compares bytes, the sign of `js_string_compare` is the order of the strings
-- by their units, whatever the widths in which they are stored.
pub js_string_compare_lem :
    (memcmp : List ℕ → List ℕ → ℕ → ℤ) (p1 p2 : JsString)
    → Compares memcmp
    → sign (js_string_compare memcmp p1 p2) ≡ by_units p1.chars p2.chars
unfolding js_string_compare
js_string_compare_lem memcmp p1 p2 law =
    let m = length p1.chars in
    let n = length p2.chars in
    by_result (js_string_memcmp memcmp p1 p2 (min m n)) m n
    ∙ ap (λ (o : Order). by_length o m n)
        (js_string_memcmp_lem memcmp p1 p2 (min m n) law (omega arith) (omega arith))
    ∙ sym (by_units-take p1.chars p2.chars)
