-- ===== src/Bytecode/Flow.antt =====
-- What an instruction of the bytecode says in its bytes: the operands, what it takes from the
-- stack and where it goes on, as `compute_stack_size` of Sources/QuickJSC/quickjs.c reads them.
-- The numbers in the bytes are those of a little-endian machine, as `get_u16` and `get_u32` of
-- Sources/QuickJSC/include/cutils.h read them. An `int` is a number below 2 ^ 32.
use quick_js_swift.Base.{ℕ, ◌+◌, ◌-◌, ◌*◌, ◌%◌, ◌^◌, List, ◌||◌, ltb, ◌==◌, if◌then◌else◌, get_or}
use quick_js_swift.Bytecode.Opcodes
use quick_js_swift.Bytecode.Opcodes.{JsOpcode, OpcodeFormat}

-- `bc_buf[pos]`
abbrev pub byte : List ℕ → ℕ → ℕ
byte code pos = get_or code pos 0

unfoldable pub get_u16 : List ℕ → ℕ → ℕ
get_u16 code pos = byte code pos + byte code (pos + 1) * 2 ^ 8

unfoldable pub get_u32 : List ℕ → ℕ → ℕ
unfolding get_u16
get_u32 code pos = get_u16 code pos + get_u16 code (pos + 2) * 2 ^ 16

-- `(int8_t)` and `(int16_t)`, as an `int`.
unfoldable pub sign_extend : ℕ → ℕ → ℕ
sign_extend width n = if ltb n (2 ^ (width - 1)) then n else n + 2 ^ 32 - 2 ^ width

-- What the `switch` does after an opcode.
pub data Flow : Type 0 where
  stops jumps jumps16 jumps8 branches8 branches calls_finally with_value with_reference : Flow
  with_store goes_on : Flow

unfoldable pub flow : ℕ → Flow
flow op =
    if op == Opcodes.op_tail_call
      || op == Opcodes.op_tail_call_method
      || op == Opcodes.op_return
      || op == Opcodes.op_return_undef
      || op == Opcodes.op_return_async
      || op == Opcodes.op_throw
      || op == Opcodes.op_throw_error
      || op == Opcodes.op_ret
    then stops
    else if op == Opcodes.op_goto
    then jumps
    else if op == Opcodes.op_goto16
    then jumps16
    else if op == Opcodes.op_goto8
    then jumps8
    else if op == Opcodes.op_if_true8 || op == Opcodes.op_if_false8
    then branches8
    else if op == Opcodes.op_if_true || op == Opcodes.op_if_false || op == Opcodes.op_catch
    then branches
    else if op == Opcodes.op_gosub
    then calls_finally
    else if op == Opcodes.op_with_get_var || op == Opcodes.op_with_delete_var
    then with_value
    else if op == Opcodes.op_with_make_ref
        || op == Opcodes.op_with_get_ref
        || op == Opcodes.op_with_get_ref_undef
    then with_reference
    else if op == Opcodes.op_with_put_var
    then with_store
    else goes_on

-- What an opcode pops, with the arguments of a call.
unfoldable pub popped : List ℕ → ℕ → ℕ → JsOpcode → ℕ
unfolding get_u16
popped code pos op oi = elim oi.fmt [
  | OpcodeFormat.npop ↦ oi.n_pop + get_u16 code (pos + 1)
  | OpcodeFormat.npop_u16 ↦ oi.n_pop + get_u16 code (pos + 1)
  | OpcodeFormat.npopx ↦ oi.n_pop + (op - Opcodes.op_call0)
  | _ ↦ oi.n_pop
]

-- `at + diff`, an `int` that is read as `unsigned`; a sum that overflows is taken to wrap.
unfoldable pub jump : ℕ → ℕ → ℕ
jump at diff = (at + diff) % 2 ^ 32
