-- ===== src/Bytes/LineTable.antt =====
-- The line table of a function: `add_pc2line_info`, `compute_pc2line_info` and `find_line_num` of
-- Sources/QuickJSC/quickjs.c. An `int` is its bit pattern, a number below 2 ^ 32.
pub mod Entry
pub mod Lookup
pub mod Kept
pub mod Slots
pub mod Compute
pub mod Record
use quick_js_swift.Base.{
  ℕ, zero, suc, ◌+◌, ◌-◌, ◌*◌, ◌/◌, ◌%◌, ◌^◌, List, [], ◌∷◌, ◌++◌, Bool, false, not, Option, none,
  some, ltb, leb, ◌==◌, ◌&&◌, ◌||◌, if◌then◌else◌, length, take, drop,
}
use quick_js_swift.Bytes.DynBuf.{DynBuf, dbuf_init2, dbuf_putc}
use quick_js_swift.Bytes.Leb128.{
  Read, uint32, negate, dbuf_put_leb128, dbuf_put_sleb128, get_leb128, get_sleb128,
}

-- PC2LINE_BASE is -1.
abbrev pub pc2line_range : ℕ
pc2line_range = 5

abbrev pub pc2line_op_first : ℕ
pc2line_op_first = 1

abbrev pub pc2line_diff_pc_max : ℕ
pc2line_diff_pc_max = (255 - pc2line_op_first) / pc2line_range

-- `a < b` on `int`, and `a - b`.
abbrev pub int_lt : ℕ → ℕ → Bool
int_lt a b = ltb (uint32 (a + 2 ^ 31)) (uint32 (b + 2 ^ 31))

abbrev pub minus : ℕ → ℕ → ℕ
minus a b = uint32 (a + negate b)

abbrev pub pc2line_base : ℕ
pc2line_base = 2 ^ 32 - 1

pub record LineNumberSlot : Type 0 where
  pub pc : ℕ
  pub line_num : ℕ

-- The fields of `JSFunctionDef` for the line table. `line_number_slots` is `none` for NULL, and
-- holds the first `line_number_count` slots.
pub record FunctionDef (S : Type 0) : Type 0 where
  pub strip : Bool
  pub line_num : ℕ
  pub line_number_slots : Option (List LineNumberSlot)
  pub line_number_size : ℕ
  pub line_number_last : ℕ
  pub line_number_last_pc : ℕ
  pub pc2line : DynBuf S

-- What `add_pc2line_info` does with the slots that are there.
pub add_slot : {S : Type 0} → FunctionDef S → ℕ → ℕ → Option (List LineNumberSlot) → FunctionDef S
add_slot s pc line_num none = s
add_slot s pc line_num (some slots) =
    let slot : LineNumberSlot = record { pc = pc; line_num = line_num } in
    if ltb (length slots) s.line_number_size
      && (leb s.line_number_last_pc pc && not (line_num == s.line_number_last))
    then record s {
      line_number_slots = some (slots ++ (slot ∷ []));
      line_number_last_pc = pc;
      line_number_last = line_num;
    }
    else s

pub add_pc2line_info : {S : Type 0} → FunctionDef S → ℕ → ℕ → FunctionDef S
unfolding add_slot
add_pc2line_info s pc line_num = add_slot s pc line_num s.line_number_slots

-- The test for the encoding in one byte.
pub is_short : ℕ → ℕ → Bool
is_short diff_pc diff_line =
    not (int_lt diff_line pc2line_base)
    && (int_lt diff_line (uint32 (pc2line_base + pc2line_range))
        && not (int_lt pc2line_diff_pc_max diff_pc))

module _ {S : Type 0} (realloc : S → List ℕ → ℕ → S × Option (List ℕ)) where
  pub put_entry : ℕ → ℕ → DynBuf S → DynBuf S
  unfolding is_short
  put_entry diff_pc diff_line buf =
      let op = minus diff_line pc2line_base + diff_pc * pc2line_range + pc2line_op_first in
      let marked = (dbuf_putc realloc buf 0).0 in
      let long = dbuf_put_sleb128 realloc (dbuf_put_leb128 realloc marked diff_pc) diff_line in
      if is_short diff_pc diff_line then (dbuf_putc realloc buf (uint32 op)).0 else long

  -- The loop over the slots.
  pub slot_loop : List LineNumberSlot → ℕ → ℕ → DynBuf S → DynBuf S
  unfolding put_entry
  slot_loop [] last_pc last_line_num buf = buf
  slot_loop (slot ∷ slots) last_pc last_line_num buf =
      let diff_pc = minus slot.pc last_pc in
      let diff_line = minus slot.line_num last_line_num in
      let continue = slot_loop slots last_pc last_line_num buf in
      let put = slot_loop slots slot.pc slot.line_num (put_entry diff_pc diff_line buf) in
      if int_lt slot.line_num 0
      then continue
      else if diff_line == 0 || int_lt diff_pc 0
      then continue
      else put

  -- `opaque` is the context that `js_dbuf_init` gives to the allocator.
  pub compute : S → FunctionDef S → Option (List LineNumberSlot) → FunctionDef S
  unfolding slot_loop
  compute opaque s none = s
  compute opaque s (some slots) =
      if not s.strip
      then record s { pc2line = slot_loop slots 0 s.line_num (dbuf_init2 opaque) }
      else s

  pub compute_pc2line_info : S → FunctionDef S → FunctionDef S
  unfolding compute
  compute_pc2line_info opaque s = compute opaque s s.line_number_slots

module _ {S : Type 0} (realloc : S → List ℕ → ℕ → S × Option (List ℕ)) where
  -- The buffer after `js_realloc` to its size, which may be refused.
  pub shrunk : List ℕ → ℕ → Option (List ℕ) → Option (List ℕ)
  shrunk buf size none = some (take size buf)
  shrunk buf size (some block) = some block

  -- The first `debug.pc2line_len` bytes of the `debug.pc2line_buf` that `js_create_function` keeps;
  -- `none` is NULL. `js_realloc` to size 0 returns NULL, so then it is the buffer as it was, which
  -- is NULL if nothing was ever written.
  unfoldable pub debug_pc2line_buf : DynBuf S → Option (List ℕ)
  unfolding shrunk
  debug_pc2line_buf s =
      let unchanged : Option (List ℕ) = if length s.buf == 0 then none else some [] in
      let block = shrunk s.buf s.size (realloc s.opaque s.buf s.size).1 in
      if s.size == 0 then unchanged else block

-- What one round of `find_line_num` reads: what it adds to `pc` and to `line_num`, and `p` after
-- that. `none` is the jump to `fail`.
abbrev pub Step : Type 0
Step = Option (ℕ × ℕ × List ℕ)

pub line_step : ℕ → List ℕ → Read → Step
line_step val p (none, v) = none
line_step val p (some ret, v) = some (val, v, drop ret p)

pub pc_step : List ℕ → Read → Step
unfolding line_step
pc_step p (none, val) = none
pc_step p (some ret, val) = line_step val (drop ret p) (get_sleb128 (drop ret p))

pub read_step : ℕ → List ℕ → Step
unfolding pc_step
read_step op p =
    let first = op - pc2line_op_first in
    let short = some (first / pc2line_range, first % pc2line_range + pc2line_base, p) in
    if op == 0 then pc_step p (get_leb128 p) else short

-- A round takes a byte at least, so the length of the buffer is enough fuel. `start` is
-- `debug.line_num`.
pub find_loop : ℕ → ℕ → ℕ → List ℕ → ℕ → ℕ → ℕ
unfolding read_step
find_loop zero start pc_value p pc line_num = line_num
find_loop (suc fuel) start pc_value [] pc line_num = line_num
find_loop (suc fuel) start pc_value (op ∷ p) pc line_num = elim (read_step op p) [
  | none ↦ start
  | some s ↦
      let pc' = uint32 (pc + s.0) in
      let rest = find_loop fuel start pc_value s.2 pc' (uint32 (line_num + s.1)) in
      if ltb pc_value pc' then line_num else rest
]

-- `none` is a NULL `pc2line_buf`, which the source takes for a stripped function: the result is -1.
pub find_line_num : Option (List ℕ) → ℕ → ℕ → ℕ
unfolding find_loop
find_line_num none line_num pc_value = 2 ^ 32 - 1
find_line_num (some pc2line_buf) line_num pc_value =
    find_loop (length pc2line_buf) line_num pc_value pc2line_buf 0 line_num
