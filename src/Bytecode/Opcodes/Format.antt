-- ===== src/Bytecode/Opcodes/Format.antt =====
-- An entry of the opcode table: `JSOpCode` and `OPCodeFormat` of Sources/QuickJSC/quickjs.c.
use Prim.Native.Nat.{ℕ}
use Prim.Native.String.{String}

pub data OpcodeFormat : Type 0 where
  none none_int none_loc none_arg none_var_ref u8 i8 loc8 : OpcodeFormat
  const8 label8 u16 i16 label16 npop npopx npop_u16 : OpcodeFormat
  loc arg var_ref u32 i32 const label atom : OpcodeFormat
  atom_u8 atom_u16 atom_label_u8 atom_label_u16 label_u16 : OpcodeFormat

-- The opcode takes `n_pop` items from the stack and then pushes `n_push` items; `size` is in bytes.
pub record JsOpcode : Type 0 where
  pub name : String
  pub size : ℕ
  pub n_pop : ℕ
  pub n_push : ℕ
  pub fmt : OpcodeFormat

-- An entry, as the table writes it.
abbrev pub op : String → ℕ → ℕ → ℕ → OpcodeFormat → JsOpcode
op name size n_pop n_push fmt = record {
  name = name;
  size = size;
  n_pop = n_pop;
  n_push = n_push;
  fmt = fmt;
}
