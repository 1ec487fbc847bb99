-- ===== src/Bytes/Leb128.antt =====
-- LEB128: `dbuf_put_leb128`, `dbuf_put_sleb128`, `get_leb128` and `get_sleb128` of
-- Sources/QuickJSC/quickjs.c. An `int32_t` is its bit pattern, a number below 2 ^ 32.
pub mod Write
pub mod RoundTrip
use quick_js_swift.Base.{
  ℕ, zero, suc, ◌+◌, ◌-◌, ◌*◌, ◌/◌, ◌%◌, ◌^◌, List, [], ◌∷◌, Option, none, some, ◌==◌,
  if◌then◌else◌, bit_and, bit_or, bit_xor,
}
use quick_js_swift.Bytes.DynBuf.{DynBuf, dbuf_putc}

abbrev pub uint32 : ℕ → ℕ
uint32 n = n % 2 ^ 32

-- `-x` on `uint32_t`.
abbrev pub negate : ℕ → ℕ
negate x = (2 ^ 32 - x) % 2 ^ 32

-- The value that `dbuf_put_sleb128` writes, and the one that `get_sleb128` makes of it.
pub zigzag : ℕ → ℕ
zigzag v = bit_xor (uint32 (2 * v)) (negate (v / 2 ^ 31))

pub unzigzag : ℕ → ℕ
unzigzag val = bit_xor (val / 2) (negate (bit_and val 1))

module _ {S : Type 0} (realloc : S → List ℕ → ℕ → S × Option (List ℕ)) where
  -- The loop; seven bits go in a round, so five rounds take every `uint32_t`.
  unfoldable pub put_loop : ℕ → DynBuf S → ℕ → DynBuf S
  put_loop zero s v = s
  put_loop (suc fuel) s v =
      let a = bit_and v 0x7f in
      let more = put_loop fuel (dbuf_putc realloc s (bit_or a 0x80)).0 (v / 2 ^ 7) in
      if v / 2 ^ 7 == 0 then (dbuf_putc realloc s a).0 else more

  unfoldable pub dbuf_put_leb128 : DynBuf S → ℕ → DynBuf S
  unfolding put_loop
  dbuf_put_leb128 s v = put_loop 5 s v

  unfoldable pub dbuf_put_sleb128 : DynBuf S → ℕ → DynBuf S
  unfolding dbuf_put_leb128 zigzag
  dbuf_put_sleb128 s v = dbuf_put_leb128 s (zigzag v)

-- What a reader returns (`none` is -1) and what it stores in `*pval`.
abbrev pub Read : Type 0
Read = Option ℕ × ℕ

-- `left` of the five rounds remain, in round `i`.
unfoldable pub get_loop : ℕ → ℕ → List ℕ → ℕ → Read
get_loop zero i buf v = (none, 0)
get_loop (suc left) i [] v = (none, 0)
get_loop (suc left) i (a ∷ buf) v =
    let v' = bit_or v (uint32 (bit_and a 0x7f * 2 ^ (i * 7))) in
    let rest = get_loop left (i + 1) buf v' in
    if bit_and a 0x80 == 0 then (some (i + 1), v') else rest

-- The list is the bytes from `buf` to `buf_end`.
unfoldable pub get_leb128 : List ℕ → Read
unfolding get_loop
get_leb128 buf = get_loop 5 0 buf 0

get_sleb128_of : Read → Read
get_sleb128_of (none, val) = (none, 0)
get_sleb128_of (some ret, val) = (some ret, unzigzag val)

unfoldable pub get_sleb128 : List ℕ → Read
unfolding get_leb128 get_sleb128_of unzigzag
get_sleb128 buf = get_sleb128_of (get_leb128 buf)
