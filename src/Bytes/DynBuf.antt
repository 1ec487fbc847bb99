-- ===== src/Bytes/DynBuf.antt =====
-- Dynamic buffers: `DynBuf` of Sources/QuickJSC/include/cutils.h, and its functions in
-- Sources/QuickJSC/cutils.c. `realloc_func` is a parameter; it is given the block and returns
-- a block of the new size, or nothing.
pub mod Append
pub mod Extend
use quick_js_swift.Base.{
  ℕ, ◌+◌, ◌*◌, ◌/◌, ◌%◌, ◌^◌, ◌≤◌, ◌≡◌, List, [], ◌∷◌, ◌++◌, Bool, true, false, Option, none, some,
  ltb, if◌then◌else◌, length, take, drop,
}

-- `buf` is the whole block, of `allocated_size` bytes; those from `size` on are not in use.
pub record DynBuf (S : Type 0) : Type 0 where
  pub buf : List ℕ
  pub size : ℕ
  pub allocated_size : ℕ
  pub error : Bool
  pub opaque : S

-- The buffer, and whether 0 (`true`) or -1 (`false`) was returned.
abbrev pub Outcome : Type 0 → Type 0
Outcome S = DynBuf S × Bool

infixl 5 ◌>>=◌
abbrev pub ◌>>=◌ : {S : Type 0} → Outcome S → (DynBuf S → Outcome S) → Outcome S
(s, true) >>= f = f s
(s, false) >>= f = (s, false)

abbrev pub size_t : ℕ → ℕ
size_t n = n % 2 ^ 64

-- memcpy(buf + offset, src, len), within the block.
abbrev pub copy_to : List ℕ → ℕ → List ℕ → List ℕ
copy_to buf offset src = take offset buf ++ (src ++ drop (offset + length src) buf)

-- What the buffer holds.
abbrev pub contents : {S : Type 0} → DynBuf S → List ℕ
contents s = take s.size s.buf

unfoldable pub dbuf_init2 : {S : Type 0} → S → DynBuf S
dbuf_init2 opaque = record {
  buf = [];
  size = 0;
  allocated_size = 0;
  error = false;
  opaque = opaque;
}

-- The size asked for: half as much again as there is, or more if that is not enough.
abbrev pub grown : {S : Type 0} → DynBuf S → ℕ → ℕ
grown s new_size =
    let size = size_t (s.allocated_size * 3) / 2 in if ltb new_size size then size else new_size

-- What `dbuf_realloc` does with the allocator's answer.
unfoldable pub answered : {S : Type 0} → DynBuf S → ℕ → S × Option (List ℕ) → Outcome S
answered s new_size (opaque, none) = (record s { error = true; opaque = opaque }, false)
answered s new_size (opaque, some buf) =
    (record s { buf = buf; allocated_size = new_size; opaque = opaque }, true)

module _ {S : Type 0} (realloc : S → List ℕ → ℕ → S × Option (List ℕ)) where
  unfoldable pub dbuf_realloc : DynBuf S → ℕ → Outcome S
  unfolding answered
  dbuf_realloc s new_size =
      let size = grown s new_size in
      let answer = answered s size (realloc s.opaque s.buf size) in
      if ltb s.allocated_size new_size then (if s.error then (s, false) else answer) else (s, true)

  unfoldable pub dbuf_write : DynBuf S → ℕ → List ℕ → Outcome S
  dbuf_write s offset src = do
    let end = size_t (offset + length src)
    s' ← dbuf_realloc s end
    let buf = copy_to s'.buf offset src
    (record s' { buf = buf; size = if ltb s'.size end then end else s'.size }, true)

  -- The reallocation of `dbuf_put` and `dbuf_put_self`.
  unfoldable pub make_room : DynBuf S → ℕ → Outcome S
  make_room s len =
      if ltb s.allocated_size (size_t (s.size + len))
      then dbuf_realloc s (size_t (s.size + len))
      else (s, true)

  unfoldable pub dbuf_put : DynBuf S → List ℕ → Outcome S
  dbuf_put s src = do
    s' ← make_room s (length src)
    let buf = copy_to s'.buf s'.size src
    (record s' { buf = buf; size = size_t (s'.size + length src) }, true)

  unfoldable pub dbuf_put_self : DynBuf S → ℕ → ℕ → Outcome S
  dbuf_put_self s offset len = do
    s' ← make_room s len
    let buf = copy_to s'.buf s'.size (take len (drop offset s'.buf))
    (record s' { buf = buf; size = size_t (s'.size + len) }, true)

  unfoldable pub dbuf_putc : DynBuf S → ℕ → Outcome S
  dbuf_putc s c = dbuf_put s ((c % 2 ^ 8) ∷ [])

  unfoldable pub dbuf_putstr : DynBuf S → List ℕ → Outcome S
  dbuf_putstr s str = dbuf_put s str

  -- The block is handed back, and all fields are cleared; the allocator's state comes second.
  unfoldable pub dbuf_free : S → DynBuf S → DynBuf S × S
  unfolding dbuf_init2
  dbuf_free null s =
      (dbuf_init2 null, if ltb 0 (length s.buf) then (realloc s.opaque s.buf 0).0 else s.opaque)
