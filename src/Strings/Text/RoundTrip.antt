-- ===== src/Strings/Text/RoundTrip.antt =====
-- Strings made from the bytes of strings.
use quick_js_swift.Base.{
  ℕ, zero, suc, ◌+◌, ◌-◌, ◌*◌, ◌^◌, ◌≤◌, ◌<◌, ◌≡◌, refl, ap, ◌∙◌, inl, inr, List, [], ◌∷◌, ◌++◌,
  Bool, true, false, Option, none, some, ltb, leb, ◌==◌, ==_iff, ltb→lt, leb→le, if◌then◌else◌,
  Bool-cases, length, length-drop, arith, All, take, drop,
}
use quick_js_swift.Base.Bits.{and_ones}
use quick_js_swift.Unicode.Utf8.{Decoded, code, error, overrun, unicode_from_utf8}
use quick_js_swift.Strings.Buffer.{
  JsString, Memory, js_string_len_max, string_buffer_init2, string_buffer_init,
}
use quick_js_swift.Strings.Buffer.Writes.{AreUnits, Serves}
use quick_js_swift.Strings.Buffer.Copy.{IsString}
use quick_js_swift.Strings.Buffer.Finish.{
  Write, putc8, write8, IsWrite, all_units, Gives, build, build_served,
}
use quick_js_swift.Strings.Text.{
  wide_round, round, utf8_loop, ascii_prefix, js_new_string8, new_wide_string, js_new_string_len,
  count_high, js_to_cstring_len2,
}
use quick_js_swift.Strings.Text.Decode.{utf8_loop_fuel, utf8_loop-round}
use quick_js_swift.Strings.Text.Encode.{
  decoded, decoded-utf8_of_str8, decoded-utf8_of_str16, length-utf8_of_str8, length-utf8_of_str16,
}

-- The calls of the loop are for units of their writer, whatever the bytes are.
wide_round-IsWrite : (q : List ℕ) (d : Decoded) → All IsWrite (wide_round q d).0
unfolding wide_round
wide_round-IsWrite q (code c p) = elim (Bool-cases (ltb c 0x10000)) [
  | inl one ↦ rw one (ltb→lt _ _ one, tt)
  | inr more ↦ elim (Bool-cases (leb c 0x10FFFF)) [
    | inl pair ↦
        let valid = leb→le _ _ pair in
        let low = and_ones 10 (c - 0x10000) in
        rw (more, pair) (omega arith, (omega (arith, low), tt))
    | inr bad ↦ rw (more, bad) (omega arith, tt)
  ]
]
wide_round-IsWrite q error = (omega arith, tt)
wide_round-IsWrite q overrun = (omega arith, tt)

round-IsWrite : (b : ℕ) (p : List ℕ) → All IsWrite (round b p).0
unfolding round
round-IsWrite b p = elim (Bool-cases (ltb b 128)) [
  | inl ascii ↦ rw ascii (omega (arith, ltb→lt _ _ ascii), tt)
  | inr more ↦ rw more (wide_round-IsWrite (b ∷ p) (unicode_from_utf8 (b ∷ p) (suc (length p))))
]

All-append : (a b : List Write) → All IsWrite a → All IsWrite b → All IsWrite (a ++ b)
All-append [] b h k = k
All-append (x ∷ a) b h k = (h.0, All-append a b h.1 k)

utf8_loop-IsWrite : (fuel : ℕ) (p : List ℕ) → All IsWrite (utf8_loop fuel p)
unfolding utf8_loop
utf8_loop-IsWrite zero p = tt
utf8_loop-IsWrite (suc fuel) [] = tt
utf8_loop-IsWrite (suc fuel) (b ∷ p) =
    All-append (round b p).0 (utf8_loop fuel (round b p).1) (round-IsWrite b p)
      (utf8_loop-IsWrite fuel (round b p).1)

-- The ASCII bytes at the start are the units that the loop would write for them.
ascii_prefix-AreUnits : (q : List ℕ) → AreUnits false (take (ascii_prefix q) q)
unfolding ascii_prefix
ascii_prefix-AreUnits [] = tt
ascii_prefix-AreUnits (b ∷ q) = elim (Bool-cases (ltb b 128)) [
  | inl ascii ↦ rw ascii (omega (arith, ltb→lt _ _ ascii), ascii_prefix-AreUnits q)
  | inr more ↦ rw more tt
]

round_ascii : (b : ℕ) (q : List ℕ) → ltb b 128 ≡ true → round b q ≡ (putc8 b ∷ [], q)
unfolding round
round_ascii b q ascii = rw ascii refl

decoded-ascii : (b : ℕ) (q : List ℕ) → ltb b 128 ≡ true → decoded (b ∷ q) ≡ b ∷ decoded q
decoded-ascii b q ascii =
    let one = round_ascii b q ascii in
    utf8_loop-round (suc (length q)) b q (omega arith) ∙ rw one refl

decoded-ascii_prefix :
    (q : List ℕ) → take (ascii_prefix q) q ++ decoded (drop (ascii_prefix q) q) ≡ decoded q
unfolding ascii_prefix
decoded-ascii_prefix [] = refl
decoded-ascii_prefix (b ∷ q) = elim (Bool-cases (ltb b 128)) [
  | inl ascii ↦
      rw (ascii, decoded-ascii b q ascii) (ap (λ (l : List ℕ). b ∷ l) (decoded-ascii_prefix q))
  | inr more ↦ rw more refl
]

ascii_prefix_units : (q : List ℕ) → ascii_prefix q ≤ length (decoded q)
unfolding ascii_prefix
ascii_prefix_units [] = omega arith
ascii_prefix_units (b ∷ q) = elim (Bool-cases (ltb b 128)) [
  | inl ascii ↦ rw (ascii, decoded-ascii b q ascii) (omega (arith, ascii_prefix_units q))
  | inr more ↦ rw more (omega arith)
]

-- Nothing but ASCII stands for itself.
all_ascii : (q : List ℕ) → ascii_prefix q ≡ length q → (decoded q ≡ q) × AreUnits false q
unfolding ascii_prefix
all_ascii [] e = (unfold utf8_loop in refl, tt)
all_ascii (b ∷ q) e = elim (Bool-cases (ltb b 128)) [
  | inl ascii ↦
      let rest = all_ascii q (omega (arith, rw ascii at e)) in
      (
        decoded-ascii b q ascii ∙ ap (λ (l : List ℕ). b ∷ l) rest.0,
        (omega (arith, ltb→lt _ _ ascii), rest.1),
      )
  | inr more ↦ absurd (omega (arith, rw more at e))
]

no_units : (l : List ℕ) → length l ≡ 0 → [] ≡ l
no_units [] e = refl
no_units (x ∷ l) e = absurd (omega arith)

if_true : {A : Type 0} {b : Bool} (x y : A) → b ≡ true → (if b then x else y) ≡ x
if_true x y e = rw e refl

-- No byte past ASCII was counted.
count_high_zero : (src : List ℕ) → count_high src ≡ 0 → ascii_prefix src ≡ length src
unfolding count_high ascii_prefix
count_high_zero [] e = refl
count_high_zero (c ∷ src) e = ground (arith, count_high_zero src (omega (arith, e)))

module _ {W : Type 0} (mem : Memory W) where
  -- The calls of the buffer for bytes that are not all ASCII.
  abbrev calls : List ℕ → List Write
  calls q = write8 (take (ascii_prefix q) q) ∷ utf8_loop (length q) (drop (ascii_prefix q) q)

  calls-units : (q : List ℕ) → all_units (calls q) ≡ decoded q
  calls-units q =
      let behind = drop (ascii_prefix q) q in
      ap (λ (l : List Write). take (ascii_prefix q) q ++ all_units l)
        (utf8_loop_fuel (length q) behind (omega (arith, length-drop (ascii_prefix q) q)))
      ∙ decoded-ascii_prefix q

  calls-IsWrite : (q : List ℕ) → All IsWrite (calls q)
  calls-IsWrite q =
      (ascii_prefix-AreUnits q, utf8_loop-IsWrite (length q) (drop (ascii_prefix q) q))

  ascii_served :
      (ctx : W) (q : List ℕ)
      → Serves mem
      → (decoded q ≡ q) × AreUnits false q
      → Gives (decoded q) (js_new_string8 mem ctx q).1
  unfolding js_new_string8
  ascii_served ctx q serves (e, u) = elim (Bool-cases (length q == 0)) [
    | inl empty ↦
        rw (empty, e)
          (record { is_wide_char = false; chars = [] }, refl, no_units q ((==_iff _ _).0 empty), tt)
    | inr more ↦
        rw (more, serves.alloc_served ctx (length q) false, e)
          (record { is_wide_char = false; chars = q }, refl, refl, u)
  ]

  new_wide_string-build :
      (ctx : W) (q : List ℕ)
      → (mem.alloc_string ctx (length q) false).1 ≡ true
      → (new_wide_string mem ctx q (ascii_prefix q)).1 ≡ build mem ctx (length q) false (calls q)
  unfolding new_wide_string string_buffer_init string_buffer_init2 build
  new_wide_string-build ctx q granted = ap (λ (r : W × Option JsString). r.1) (if_true _ _ granted)

  -- Where memory is never refused there is no exception.
  pub js_new_string_len-Gives :
      (ctx : W) (q : List ℕ)
      → Serves mem
      → length (decoded q) ≤ js_string_len_max
      → Gives (decoded q) (js_new_string_len mem ctx q).1
  unfolding js_new_string_len
  js_new_string_len-Gives ctx q serves fits =
      let short : ltb js_string_len_max (ascii_prefix q) ≡ false =
        ground (arith, ascii_prefix_units q, fits) in
      elim (Bool-cases (ascii_prefix q == length q)) [
        | inl all ↦ rw (short, all) (ascii_served ctx q serves (all_ascii q ((==_iff _ _).0 all)))
        | inr past ↦
            rw
              (
                short,
                past,
                new_wide_string-build ctx q (serves.alloc_served ctx (length q) false),
                ← calls-units q,
              )
              (build_served mem ctx (length q) false (calls q) serves (calls-IsWrite q)
                (rw (calls-units q) fits))
      ]

  -- What the bytes of a string are: within those that were allocated, and its units when decoded.
  abbrev IsText : JsString → List ℕ × ℕ → Type 0
  IsText str (bytes, size) = (length bytes ≤ size) × (decoded bytes ≡ str.chars)

  abbrev Text : JsString → Option (List ℕ × ℕ) → Type 0
  Text str none = Unit
  Text str (some text) = IsText str text

  is_text :
      {ctx : W} {text : List ℕ × ℕ} (str : JsString) (r : W × Option (List ℕ × ℕ))
      → r ≡ (ctx, some text)
      → Text str r.1
      → IsText str text
  is_text str r e t = rw e at t

  js_to_cstring_len2-Text :
      (ctx : W) (str : JsString) (cesu8 : Bool)
      → IsString str
      → Text str (js_to_cstring_len2 mem ctx str cesu8).1
  unfolding js_to_cstring_len2
  js_to_cstring_len2-Text ctx str cesu8 u = elim (Bool-cases str.is_wide_char) [
    | inl wide ↦ elim (Bool-cases (mem.alloc_string ctx (length str.chars * 3) false).1) [
      | inl granted ↦
          let v : AreUnits true str.chars = rw wide at u in
          rw (wide, granted)
            (length-utf8_of_str16 cesu8 str.chars v, decoded-utf8_of_str16 cesu8 str.chars v)
      | inr refused ↦ rw (wide, refused) tt
    ]
    | inr narrow ↦ elim (Bool-cases (count_high str.chars == 0)) [
      | inl ascii ↦
          let v : AreUnits false str.chars = rw narrow at u in
          rw (narrow, ascii)
            (
              omega arith,
              (all_ascii str.chars (count_high_zero str.chars ((==_iff _ _).0 ascii))).0,
            )
      | inr high ↦
          elim (Bool-cases
            (mem.alloc_string ctx (length str.chars + count_high str.chars) false).1) [
              | inl granted ↦
                  let v : AreUnits false str.chars = rw narrow at u in
                  rw (narrow, high, granted)
                    (
                      omega (arith, length-utf8_of_str8 str.chars v),
                      decoded-utf8_of_str8 str.chars v,
                    )
              | inr refused ↦ rw (narrow, high, refused) tt
            ]
    ]
  ]

  -- Where memory is never refused, a string whose units are of its width, and whose bytes an
  -- `int` counts, is made again from the bytes of it, in both codings of surrogate pairs.
  pub js_new_string_len-js_to_cstring_len2 :
      (ctx ctx1 ctx2 : W) (str : JsString) (cesu8 : Bool) (bytes : List ℕ) (size : ℕ)
      → Serves mem
      → IsString str
      → length str.chars * 3 < 2 ^ 31
      → js_to_cstring_len2 mem ctx str cesu8 ≡ (ctx1, some (bytes, size))
      → Gives str.chars (js_new_string_len mem ctx2 bytes).1
  js_new_string_len-js_to_cstring_len2 ctx ctx1 ctx2 str cesu8 bytes size serves u fits e =
      let text : IsText str (bytes, size) =
        is_text str (js_to_cstring_len2 mem ctx str cesu8) e
          (js_to_cstring_len2-Text ctx str cesu8 u) in
      rw (← text.1) (js_new_string_len-Gives ctx2 bytes serves (rw text.1 (omega (arith, fits))))

  -- The bytes for a string whose units are of its width, and whose bytes an `int` counts, are
  -- within those that were allocated for them.
  pub js_to_cstring_len2-le :
      (ctx ctx1 : W) (str : JsString) (cesu8 : Bool) (bytes : List ℕ) (size : ℕ)
      → IsString str
      → length str.chars * 3 < 2 ^ 31
      → js_to_cstring_len2 mem ctx str cesu8 ≡ (ctx1, some (bytes, size))
      → length bytes ≤ size
  js_to_cstring_len2-le ctx ctx1 str cesu8 bytes size u fits e =
      let text : IsText str (bytes, size) =
        is_text str (js_to_cstring_len2 mem ctx str cesu8) e
          (js_to_cstring_len2-Text ctx str cesu8 u) in
      text.0
