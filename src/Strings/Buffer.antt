-- ===== src/Strings/Buffer.antt =====
-- String buffers: `StringBuffer` and the `string_buffer_` functions of Sources/QuickJSC/quickjs.c.
-- The memory functions of the context are parameters. The units in use are a list, so
-- the loop of `string_buffer_widen` that makes 16-bit units of 8-bit units in place keeps them.
pub mod Writes
pub mod Append
pub mod Copy
pub mod Finish
pub mod Values
use quick_js_swift.Base.{
  ℕ, zero, suc, ◌+◌, ◌-◌, ◌*◌, ◌/◌, ◌%◌, ◌^◌, min, max, bit_and, bit_or, List, [], ◌∷◌, ◌++◌, Bool,
  true, false, ◌&&◌, not, Option, none, some, ltb, leb, ◌==◌, if◌then◌else◌, length, take, drop,
  map,
}

-- `chars` are the `len` units of `u.str8` or `u.str16`.
pub record JsString : Type 0 where
  pub is_wide_char : Bool
  pub chars : List ℕ

abbrev pub js_string_len_max : ℕ
js_string_len_max = 2 ^ 30 - 1

-- What the buffers call: `js_alloc_string`, `js_realloc2` with its slack, `js_realloc_rt`,
-- `js_free`, and `JS_ThrowInternalError`; and sizeof(JSString).
pub record Memory (W : Type 0) : Type 0 where
  pub header : ℕ
  pub alloc_string : W → ℕ → Bool → W × Bool
  pub realloc2 : W → ℕ → W × Option ℕ
  pub realloc_rt : W → ℕ → W × Bool
  pub free : W → W
  pub throw_internal_error : W → W

-- `has_str` is whether `str` is not NULL; `chars` are the first `len` units of it.
pub record StringBuffer (W : Type 0) : Type 0 where
  pub ctx : W
  pub has_str : Bool
  pub chars : List ℕ
  pub size : ℕ
  pub is_wide_char : Bool
  pub error_status : Bool

-- The buffer, and whether 0 (`true`) or -1 was returned.
abbrev pub Outcome : Type 0 → Type 0
Outcome W = StringBuffer W × Bool

infixl 5 ◌>>=◌
abbrev pub ◌>>=◌ : {W : Type 0} → Outcome W → (StringBuffer W → Outcome W) → Outcome W
(s, true) >>= f = f s
(s, false) >>= f = (s, false)

-- `n << is_wide_char` and `n >> is_wide_char`.
abbrev pub shl : ℕ → Bool → ℕ
shl n wide = if wide then n * 2 else n

abbrev pub shr : ℕ → Bool → ℕ
shr n wide = if wide then n / 2 else n

-- A store into a unit.
abbrev pub unit : Bool → ℕ → ℕ
unit wide c = if wide then c % 2 ^ 16 else c % 2 ^ 8

-- The units of `src`, stored at the end.
pub stored : {W : Type 0} → StringBuffer W → List ℕ → StringBuffer W
stored s src = record s { chars = s.chars ++ map (unit s.is_wide_char) src }

-- The bits of all units together.
pub all_bits : ℕ → List ℕ → ℕ
all_bits c [] = c
all_bits c (x ∷ src) = all_bits (bit_or c x) src

module _ {W : Type 0} (mem : Memory W) where
  open mem use {header, alloc_string, realloc2, realloc_rt, free, throw_internal_error}

  unfoldable pub string_buffer_init2 : W → ℕ → Bool → Outcome W
  string_buffer_init2 ctx size is_wide =
      let (ctx', granted) = alloc_string ctx size is_wide in
      let s : StringBuffer W = record {
        ctx = ctx';
        has_str = granted;
        chars = [];
        size = if granted then size else 0;
        is_wide_char = is_wide;
        error_status = not granted;
      } in
      (s, granted)

  unfoldable pub string_buffer_init : W → ℕ → Outcome W
  unfolding string_buffer_init2
  string_buffer_init ctx size = string_buffer_init2 ctx size false

  unfoldable pub string_buffer_free : StringBuffer W → StringBuffer W
  string_buffer_free s = record s { ctx = free s.ctx; has_str = false }

  pub string_buffer_set_error : StringBuffer W → Outcome W
  string_buffer_set_error s = (
    record s { ctx = free s.ctx; has_str = false; size = 0; chars = []; error_status = true },
    false,
  )

  -- What `string_buffer_widen` does with the new block.
  pub widened : StringBuffer W → ℕ → W × Option ℕ → Outcome W
  unfolding string_buffer_set_error
  widened s size (ctx, none) = string_buffer_set_error (record s { ctx = ctx })
  widened s size (ctx, some slack) =
      (record s { ctx = ctx; is_wide_char = true; size = size + slack / 2 }, true)

  pub string_buffer_widen : StringBuffer W → ℕ → Outcome W
  unfolding widened
  string_buffer_widen s size =
      let done = widened s size (realloc2 s.ctx (header + size * 2)) in
      if s.error_status then (s, false) else done

  -- What `string_buffer_realloc` does with the new block.
  pub resized : StringBuffer W → ℕ → W × Option ℕ → Outcome W
  unfolding string_buffer_set_error
  resized s new_size (ctx, none) = string_buffer_set_error (record s { ctx = ctx })
  resized s new_size (ctx, some slack) =
      let size = min (new_size + shr slack s.is_wide_char) js_string_len_max in
      (record s { ctx = ctx; size = size }, true)

  pub string_buffer_realloc : StringBuffer W → ℕ → ℕ → Outcome W
  unfolding string_buffer_widen resized
  string_buffer_realloc s new_len c =
      let too_long = string_buffer_set_error (record s { ctx = throw_internal_error s.ctx }) in
      let new_size = min (max new_len (s.size * 3 / 2)) js_string_len_max in
      let end = if s.is_wide_char then 0 else 1 in
      let same = resized s new_size (realloc2 s.ctx (header + shl new_size s.is_wide_char + end)) in
      if s.error_status
      then (s, false)
      else if ltb js_string_len_max new_len
      then too_long
      else if not s.is_wide_char && leb 0x100 c
      then string_buffer_widen s new_size
      else same

  -- The store of `string_buffer_putc_slow`.
  pub store_slow : ℕ → StringBuffer W → Outcome W
  unfolding string_buffer_widen
  store_slow c s =
      let wider = string_buffer_widen s s.size >>= λ s'. (stored s' (c ∷ []), true) in
      let narrow = if ltb c 0x100 then (stored s (c ∷ []), true) else wider in
      if s.is_wide_char then (stored s (c ∷ []), true) else narrow

  pub string_buffer_putc_slow : StringBuffer W → ℕ → Outcome W
  unfolding string_buffer_realloc store_slow
  string_buffer_putc_slow s c = do
    s' ←
        if leb s.size (length s.chars)
        then string_buffer_realloc s (length s.chars + 1) c
        else (s, true)
    store_slow c s'

  pub string_buffer_putc8 : StringBuffer W → ℕ → Outcome W
  unfolding string_buffer_realloc
  string_buffer_putc8 s c = do
    s' ←
        if leb s.size (length s.chars)
        then string_buffer_realloc s (length s.chars + 1) c
        else (s, true)
    (stored s' (c ∷ []), true)

  pub string_buffer_putc16 : StringBuffer W → ℕ → Outcome W
  unfolding string_buffer_putc_slow
  string_buffer_putc16 s c =
      let slow = string_buffer_putc_slow s c in
      if ltb (length s.chars) s.size
      then if s.is_wide_char
        then (stored s (c ∷ []), true)
        else if ltb c 0x100
        then (stored s (c ∷ []), true)
        else slow
      else slow

  -- A code past 0xffff is a surrogate pair.
  pub string_buffer_putc : StringBuffer W → ℕ → Outcome W
  unfolding string_buffer_putc16
  string_buffer_putc s c =
      let d = c - 0x10000 in
      let pair = string_buffer_putc16 s (d / 2 ^ 10 + 0xd800) >>= λ s'.
      string_buffer_putc16 s' (bit_and d 0x3ff + 0xdc00) in
      if leb 0x10000 c then pair else string_buffer_putc16 s c

  pub string_buffer_write8 : StringBuffer W → List ℕ → Outcome W
  unfolding string_buffer_realloc
  string_buffer_write8 s p = do
    s' ←
        if ltb s.size (length s.chars + length p)
        then string_buffer_realloc s (length s.chars + length p) 0
        else (s, true)
    (stored s' p, true)

  pub string_buffer_write16 : StringBuffer W → List ℕ → Outcome W
  unfolding string_buffer_realloc string_buffer_widen all_bits
  string_buffer_write16 s p = do
    let c = all_bits 0 p
    s' ←
        if ltb s.size (length s.chars + length p)
        then string_buffer_realloc s (length s.chars + length p) c
        else if not s.is_wide_char && leb 0x100 c
        then string_buffer_widen s s.size
        else (s, true)
    (stored s' p, true)

  pub string_buffer_puts8 : StringBuffer W → List ℕ → Outcome W
  unfolding string_buffer_write8
  string_buffer_puts8 s str = string_buffer_write8 s str

  pub string_buffer_concat : StringBuffer W → JsString → ℕ → ℕ → Outcome W
  unfolding string_buffer_write8 string_buffer_write16
  string_buffer_concat s p from to =
      let src = take (to - from) (drop from p.chars) in
      if leb to from
      then (s, true)
      else if p.is_wide_char
      then string_buffer_write16 s src
      else string_buffer_write8 s src

  -- The loop of `string_buffer_fill`.
  pub fill_loop : ℕ → StringBuffer W → ℕ → Outcome W
  unfolding string_buffer_putc16
  fill_loop zero s c = (s, true)
  fill_loop (suc count) s c = string_buffer_putc16 s c >>= λ s'. fill_loop count s' c

  pub string_buffer_fill : StringBuffer W → ℕ → ℕ → Outcome W
  unfolding string_buffer_realloc fill_loop
  string_buffer_fill s c count = do
    s' ←
        if ltb s.size (length s.chars + count)
        then string_buffer_realloc s (length s.chars + count) c
        else (s, true)
    fill_loop count s' c

  -- `none` is JS_EXCEPTION. The empty string is an atom; otherwise the block is cut to its length,
  -- and kept whole where that fails.
  unfoldable pub string_buffer_end : StringBuffer W → W × Option JsString
  string_buffer_end s =
      let end = if s.is_wide_char then 0 else 1 in
      let cut = (realloc_rt s.ctx (header + shl (length s.chars) s.is_wide_char + end)).0 in
      let ctx = if ltb (length s.chars) s.size then cut else s.ctx in
      let str : JsString = record { is_wide_char = s.is_wide_char; chars = s.chars } in
      let empty : JsString = record { is_wide_char = false; chars = [] } in
      if s.error_status
      then (s.ctx, none)
      else if length s.chars == 0
      then (free s.ctx, some empty)
      else (ctx, some str)
