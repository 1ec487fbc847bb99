-- ===== src/Unicode/Utf8.antt =====
-- UTF-8: `unicode_to_utf8` and `unicode_from_utf8` of Sources/QuickJSC/cutils.c.
pub mod Continuation
pub mod Forms
pub mod RoundTrip
pub mod Overrun
pub mod Lengths
use quick_js_swift.Base.{
  ℕ, zero, suc, ◌+◌, ◌-◌, ◌*◌, ◌/◌, ◌%◌, ◌^◌, bit_and, bit_or, List, [], ◌∷◌, Option, none, some,
  ltb, leb, if◌then◌else◌, get_or, ◌||◌,
}

-- A store into a `uint8_t`.
abbrev pub u8 : ℕ → ℕ
u8 n = n % 2 ^ 8

-- `((c >> k) & 0x3f) | 0x80`
unfoldable pub follow : ℕ → ℕ → ℕ
follow c k = u8 (bit_or (bit_and (c / 2 ^ k) 0x3f) 0x80)

-- The bytes written to `buf`; there are none (the result is 0) for `c` past 31 bits.
unfoldable pub unicode_to_utf8 : ℕ → List ℕ
unfolding follow
unicode_to_utf8 c =
    let t0 = follow c 0 ∷ [] in
    let t6 = follow c 6 ∷ t0 in
    let t12 = follow c 12 ∷ t6 in
    let t18 = follow c 18 ∷ t12 in
    if ltb c 0x80
    then u8 c ∷ []
    else if ltb c 0x800
    then u8 (bit_or (c / 2 ^ 6) 0xc0) ∷ t0
    else if ltb c 0x10000
    then u8 (bit_or (c / 2 ^ 12) 0xe0) ∷ t6
    else if ltb c 0x00200000
    then u8 (bit_or (c / 2 ^ 18) 0xf0) ∷ t12
    else if ltb c 0x04000000
    then u8 (bit_or (c / 2 ^ 24) 0xf8) ∷ t18
    else if ltb c 0x80000000
    then u8 (bit_or (c / 2 ^ 30) 0xfc) ∷ follow c 24 ∷ t18
    else []

-- The code and what `*pp` points to; -1; or a read past the end of the memory at `p`.
pub data Decoded : Type 0 where
  code : ℕ → List ℕ → Decoded
  error overrun : Decoded

utf8_min_code : List ℕ
utf8_min_code = 0x80 ∷ 0x800 ∷ 0x10000 ∷ 0x00200000 ∷ 0x04000000 ∷ []

utf8_first_code_mask : List ℕ
utf8_first_code_mask = 0x1f ∷ 0xf ∷ 0x7 ∷ 0x3 ∷ 0x1 ∷ []

-- The `switch` on the first byte, from 0x80 on: how many bytes follow.
pub follow_count : ℕ → Option ℕ
follow_count c =
    if ltb c 0xc0
    then none
    else if ltb c 0xe0
    then some 1
    else if ltb c 0xf0
    then some 2
    else if ltb c 0xf8
    then some 3
    else if ltb c 0xfc
    then some 4
    else if ltb c 0xfe
    then some 5
    else none

-- The loop over the `l` bytes that follow, and the test against the shortest form.
pub follow_loop : ℕ → ℕ → ℕ → List ℕ → Decoded
follow_loop zero least c p = if ltb c least then error else code c p
follow_loop (suc l) least c [] = overrun
follow_loop (suc l) least c (b ∷ p) =
    let rest = follow_loop l least (bit_or (c * 2 ^ 6) (bit_and b 0x3f)) p in
    if ltb b 0x80 || leb 0xc0 b then error else rest

pub from_lead : ℕ → ℕ → Option ℕ → List ℕ → Decoded
unfolding follow_loop utf8_min_code utf8_first_code_mask
from_lead c max_len none p = error
from_lead c max_len (some l) p =
    let masked = bit_and c (get_or utf8_first_code_mask (l - 1) 0) in
    let decoded = follow_loop l (get_or utf8_min_code (l - 1) 0) masked p in
    if ltb (max_len - 1) l then error else decoded

pub unicode_from_utf8 : List ℕ → ℕ → Decoded
unfolding from_lead follow_count
unicode_from_utf8 [] max_len = overrun
unicode_from_utf8 (c ∷ p) max_len =
    if ltb c 0x80 then code c p else from_lead c max_len (follow_count c) p
