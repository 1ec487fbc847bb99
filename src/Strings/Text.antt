-- ===== src/Strings/Text.antt =====
-- Strings from UTF-8 and back: `JS_NewStringLen`, `JS_ToCStringLen2`, `string_get` and
-- `string_getc` of Sources/QuickJSC/quickjs.c.
pub mod Decode
pub mod Encode
pub mod RoundTrip
pub mod Read
pub mod Stray
use quick_js_swift.Base.{
  ℕ, zero, suc, ◌+◌, ◌-◌, ◌*◌, ◌/◌, ◌%◌, ◌^◌, bit_and, bit_or, List, [], ◌∷◌, ◌++◌, Bool, true,
  false, ◌&&◌, not, Option, none, some, ltb, leb, ◌==◌, if◌then◌else◌, length, get_or, take, drop,
}
use quick_js_swift.Unicode.Utf8.{
  Decoded, code, error, overrun, u8, unicode_from_utf8, unicode_to_utf8,
}
use quick_js_swift.Strings.Buffer.{
  JsString, Memory, js_string_len_max, string_buffer_init, string_buffer_free, string_buffer_end,
}
use quick_js_swift.Strings.Buffer.Finish.{Write, putc8, putc16, write8, run}

pub is_continuation : ℕ → Bool
is_continuation b = leb 0x80 b && ltb b 0xc0

-- while (p < p_end && (*p >= 0x80 && *p < 0xc0)) p++;
pub skip_continuations : List ℕ → List ℕ
unfolding is_continuation
skip_continuations [] = []
skip_continuations (b ∷ p) =
    let rest = skip_continuations p in if is_continuation b then rest else (b ∷ p)

pub skip_next : List ℕ → List ℕ
unfolding skip_continuations
skip_next [] = []
skip_next (b ∷ p) = skip_continuations p

-- A round of the loop at a byte past 0x7f: the units written, and the next `p`. The bytes up to
-- the end of the buffer are given to `unicode_from_utf8`, which does not read past them.
pub wide_round : List ℕ → Decoded → List Write × List ℕ
unfolding skip_next
wide_round p (code c p_next) =
    let d = c - 0x10000 in
    if ltb c 0x10000
    then (putc16 c ∷ [], p_next)
    else if leb c 0x10FFFF
    then (putc16 (d / 2 ^ 10 + 0xd800) ∷ putc16 (bit_and d 0x3ff + 0xdc00) ∷ [], p_next)
    else (putc16 0xfffd ∷ [], skip_next (skip_continuations p))
wide_round p error = (putc16 0xfffd ∷ [], skip_next (skip_continuations p))
wide_round p overrun = (putc16 0xfffd ∷ [], skip_next (skip_continuations p))

pub round : ℕ → List ℕ → List Write × List ℕ
unfolding wide_round
round b p =
    let q = b ∷ p in
    if ltb b 128 then (putc8 b ∷ [], p) else wide_round q (unicode_from_utf8 q (length q))

-- The calls of the loop. A round takes a byte at least, so the number of bytes is enough fuel.
pub utf8_loop : ℕ → List ℕ → List Write
unfolding round
utf8_loop zero p = []
utf8_loop (suc fuel) [] = []
utf8_loop (suc fuel) (b ∷ p) = let r = round b p in r.0 ++ utf8_loop fuel r.1

-- The bytes below 128 at the start.
pub ascii_prefix : List ℕ → ℕ
ascii_prefix [] = 0
ascii_prefix (b ∷ p) = if ltb b 128 then suc (ascii_prefix p) else 0

module _ {W : Type 0} (mem : Memory W) where
  -- `none` is JS_EXCEPTION; the empty string is an atom.
  pub js_new_string8 : W → List ℕ → W × Option JsString
  js_new_string8 ctx buf =
      let str : JsString = record { is_wide_char = false; chars = buf } in
      let empty : JsString = record { is_wide_char = false; chars = [] } in
      let (ctx', granted) = mem.alloc_string ctx (length buf) false in
      if length buf == 0
      then (ctx, some empty)
      else if granted
      then (ctx', some str)
      else (ctx', none)

  -- The part of `js_new_string_len` for a buffer that is not all ASCII.
  pub new_wide_string : W → List ℕ → ℕ → W × Option JsString
  unfolding utf8_loop run string_buffer_init string_buffer_free
  new_wide_string ctx buf len1 =
      let b = string_buffer_init mem ctx (length buf) in
      let calls = write8 (take len1 buf) ∷ utf8_loop (length buf) (drop len1 buf) in
      if b.1
      then string_buffer_end mem (run mem b.0 calls)
      else ((string_buffer_free mem b.0).ctx, none)

  unfoldable pub js_new_string_len : W → List ℕ → W × Option JsString
  unfolding ascii_prefix js_new_string8 new_wide_string
  js_new_string_len ctx buf =
      let len1 = ascii_prefix buf in
      let wide = new_wide_string ctx buf len1 in
      let ascii = js_new_string8 ctx buf in
      if ltb js_string_len_max len1
      then (mem.throw_internal_error ctx, none)
      else if len1 == length buf
      then ascii
      else wide

-- How many bytes of an 8-bit string are not ASCII.
pub count_high : List ℕ → ℕ
count_high [] = 0
count_high (c ∷ src) = c / 2 ^ 7 + count_high src

-- The bytes for an 8-bit string.
pub utf8_of_str8 : List ℕ → List ℕ
utf8_of_str8 [] = []
utf8_of_str8 (c ∷ src) =
    let rest = utf8_of_str8 src in
    if ltb c 0x80
    then c ∷ rest
    else u8 (bit_or (c / 2 ^ 6) 0xc0) ∷ u8 (bit_or (bit_and c 0x3f) 0x80) ∷ rest

pub is_high_surrogate : ℕ → Bool
is_high_surrogate c = leb 0xd800 c && ltb c 0xdc00

pub is_low_surrogate : ℕ → Bool
is_low_surrogate c = leb 0xdc00 c && ltb c 0xe000

-- The code of a surrogate pair.
pub pair_code : ℕ → ℕ → ℕ
pair_code c c1 = bit_or (bit_and c 0x3ff * 2 ^ 10) (bit_and c1 0x3ff) + 0x10000

pub one_code : ℕ → List ℕ
one_code c = if ltb c 0x80 then u8 c ∷ [] else unicode_to_utf8 c

-- The bytes for a 16-bit string. A surrogate that is not paired is kept.
pub utf8_of_str16 : Bool → List ℕ → List ℕ
unfolding is_high_surrogate is_low_surrogate pair_code one_code
utf8_of_str16 cesu8 [] = []
utf8_of_str16 cesu8 (c ∷ []) = one_code c
utf8_of_str16 cesu8 (c ∷ c1 ∷ src) =
    let alone = one_code c ++ utf8_of_str16 cesu8 (c1 ∷ src) in
    let paired = unicode_to_utf8 (pair_code c c1) ++ utf8_of_str16 cesu8 src in
    if is_high_surrogate c && (not cesu8 && is_low_surrogate c1) then paired else alone

-- `JS_ToCStringLen2` of a string: the bytes before the 0 that ends them, and the bytes that were
-- allocated for them; `none` is NULL. A string of ASCII bytes is returned as it is.
module _ {W : Type 0} (mem : Memory W) where
  unfoldable pub js_to_cstring_len2 : W → JsString → Bool → W × Option (List ℕ × ℕ)
  unfolding utf8_of_str8 utf8_of_str16 count_high
  js_to_cstring_len2 ctx str cesu8 =
      let src = str.chars in
      let len = length src in
      let count = count_high src in
      let (ctx8, granted8) = mem.alloc_string ctx (len + count) false in
      let (ctx16, granted16) = mem.alloc_string ctx (len * 3) false in
      let narrow =
        if granted8 then (ctx8, some (utf8_of_str8 src, len + count)) else (ctx8, none) in
      let wide =
        if granted16 then (ctx16, some (utf8_of_str16 cesu8 src, len * 3)) else (ctx16, none) in
      if str.is_wide_char then wide else if count == 0 then (ctx, some (src, len)) else narrow

-- `none` is a read past the end.
pub string_get : JsString → ℕ → Option ℕ
string_get p idx = if ltb idx (length p.chars) then some (get_or p.chars idx 0) else none

-- The unit that was read after a high surrogate.
pub second_unit : ℕ → ℕ → Option ℕ → Option (ℕ × ℕ)
unfolding is_low_surrogate pair_code
second_unit c idx none = none
second_unit c idx (some c1) =
    if is_low_surrogate c1 then some (pair_code c c1, idx + 2) else some (c, idx + 1)

-- The unit that was read at `idx`.
pub first_unit : JsString → ℕ → Option ℕ → Option (ℕ × ℕ)
unfolding string_get is_high_surrogate second_unit
first_unit p idx none = none
first_unit p idx (some c) =
    if p.is_wide_char && (is_high_surrogate c && ltb (idx + 1) (length p.chars))
    then second_unit c idx (string_get p (idx + 1))
    else some (c, idx + 1)

-- The code at `idx` and the next `idx`; `none` is a read past the end.
unfoldable pub string_getc : JsString → ℕ → Option (ℕ × ℕ)
unfolding first_unit
string_getc p idx = first_unit p idx (string_get p idx)
