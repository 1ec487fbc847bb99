-- ===== src/Bytecode/Opcodes.antt =====
-- The opcodes of the bytecode: Sources/QuickJSC/include/quickjs-opcode.h, and `opcode_info` with
-- `short_opcode_info` of Sources/QuickJSC/quickjs.c, with SHORT_OPCODES and without CONFIG_BIGNUM.
pub mod Format
mod Values
mod Variables
mod Operators
mod Short
use quick_js_swift.Base.{ℕ, ◌+◌, List, ◌++◌, Option, leb, if◌then◌else◌, get_elem?}
pub use Format.{JsOpcode, OpcodeFormat}
use Values.{value_opcodes}
use Variables.{variable_opcodes, local_opcodes}
use Operators.{object_opcodes, operator_opcodes, temporary_opcodes}
use Short.{short_opcodes}

pub opcode_info : List JsOpcode
unfolding value_opcodes variable_opcodes local_opcodes object_opcodes operator_opcodes
    temporary_opcodes short_opcodes
opcode_info =
    value_opcodes ++ variable_opcodes ++ local_opcodes ++ object_opcodes ++ operator_opcodes
    ++ temporary_opcodes ++ short_opcodes

-- Numbers of opcodes: those of `OPCodeEnum`, which leaves out the temporary ones.
abbrev pub op_count : ℕ
op_count = 244

abbrev pub op_temp_start : ℕ
op_temp_start = 178

-- `OP_TEMP_END - OP_TEMP_START`
abbrev pub temporaries : ℕ
temporaries = 15

unfoldable pub short_opcode_info : ℕ → Option JsOpcode
unfolding opcode_info
short_opcode_info op = get_elem? opcode_info (if leb op_temp_start op then op + temporaries else op)

abbrev pub op_tail_call : ℕ
op_tail_call = 35

abbrev pub op_tail_call_method : ℕ
op_tail_call_method = 37

abbrev pub op_return : ℕ
op_return = 40

abbrev pub op_return_undef : ℕ
op_return_undef = 41

abbrev pub op_return_async : ℕ
op_return_async = 46

abbrev pub op_throw : ℕ
op_throw = 47

abbrev pub op_throw_error : ℕ
op_throw_error = 48

abbrev pub op_ret : ℕ
op_ret = 110

abbrev pub op_goto : ℕ
op_goto = 107

abbrev pub op_goto16 : ℕ
op_goto16 = 235

abbrev pub op_goto8 : ℕ
op_goto8 = 234

abbrev pub op_if_true8 : ℕ
op_if_true8 = 233

abbrev pub op_if_false8 : ℕ
op_if_false8 = 232

abbrev pub op_if_true : ℕ
op_if_true = 106

abbrev pub op_if_false : ℕ
op_if_false = 105

abbrev pub op_catch : ℕ
op_catch = 108

abbrev pub op_gosub : ℕ
op_gosub = 109

abbrev pub op_with_get_var : ℕ
op_with_get_var = 114

abbrev pub op_with_delete_var : ℕ
op_with_delete_var = 116

abbrev pub op_with_make_ref : ℕ
op_with_make_ref = 117

abbrev pub op_with_get_ref : ℕ
op_with_get_ref = 118

abbrev pub op_with_get_ref_undef : ℕ
op_with_get_ref_undef = 119

abbrev pub op_with_put_var : ℕ
op_with_put_var = 115

abbrev pub op_call0 : ℕ
op_call0 = 236
