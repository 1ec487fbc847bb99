-- ===== src/Bytecode/Opcodes/Short.antt =====
-- A part of the opcode table of Sources/QuickJSC/include/quickjs-opcode.h.
use quick_js_swift.Base.{List, [], ◌∷◌}
use quick_js_swift.Bytecode.Opcodes.Format.{
  JsOpcode, op, none, none_int, none_loc, none_arg, none_var_ref, i8, loc8, const8, label8, i16,
  label16, npopx,
}

-- Short forms, numbered from `OP_TEMP_START`.
unfoldable pub short_opcodes : List JsOpcode
short_opcodes =
    op "push_minus1" 1 0 1 none_int
    ∷ op "push_0" 1 0 1 none_int
    ∷ op "push_1" 1 0 1 none_int
    ∷ op "push_2" 1 0 1 none_int
    ∷ op "push_3" 1 0 1 none_int
    ∷ op "push_4" 1 0 1 none_int
    ∷ op "push_5" 1 0 1 none_int
    ∷ op "push_6" 1 0 1 none_int
    ∷ op "push_7" 1 0 1 none_int
    ∷ op "push_i8" 2 0 1 i8
    ∷ op "push_i16" 3 0 1 i16
    ∷ op "push_const8" 2 0 1 const8
    ∷ op "fclosure8" 2 0 1 const8
    ∷ op "push_empty_string" 1 0 1 none
    ∷ op "get_loc8" 2 0 1 loc8
    ∷ op "put_loc8" 2 1 0 loc8
    ∷ op "set_loc8" 2 1 1 loc8
    ∷ op "get_loc0" 1 0 1 none_loc
    ∷ op "get_loc1" 1 0 1 none_loc
    ∷ op "get_loc2" 1 0 1 none_loc
    ∷ op "get_loc3" 1 0 1 none_loc
    ∷ op "put_loc0" 1 1 0 none_loc
    ∷ op "put_loc1" 1 1 0 none_loc
    ∷ op "put_loc2" 1 1 0 none_loc
    ∷ op "put_loc3" 1 1 0 none_loc
    ∷ op "set_loc0" 1 1 1 none_loc
    ∷ op "set_loc1" 1 1 1 none_loc
    ∷ op "set_loc2" 1 1 1 none_loc
    ∷ op "set_loc3" 1 1 1 none_loc
    ∷ op "get_arg0" 1 0 1 none_arg
    ∷ op "get_arg1" 1 0 1 none_arg
    ∷ op "get_arg2" 1 0 1 none_arg
    ∷ op "get_arg3" 1 0 1 none_arg
    ∷ op "put_arg0" 1 1 0 none_arg
    ∷ op "put_arg1" 1 1 0 none_arg
    ∷ op "put_arg2" 1 1 0 none_arg
    ∷ op "put_arg3" 1 1 0 none_arg
    ∷ op "set_arg0" 1 1 1 none_arg
    ∷ op "set_arg1" 1 1 1 none_arg
    ∷ op "set_arg2" 1 1 1 none_arg
    ∷ op "set_arg3" 1 1 1 none_arg
    ∷ op "get_var_ref0" 1 0 1 none_var_ref
    ∷ op "get_var_ref1" 1 0 1 none_var_ref
    ∷ op "get_var_ref2" 1 0 1 none_var_ref
    ∷ op "get_var_ref3" 1 0 1 none_var_ref
    ∷ op "put_var_ref0" 1 1 0 none_var_ref
    ∷ op "put_var_ref1" 1 1 0 none_var_ref
    ∷ op "put_var_ref2" 1 1 0 none_var_ref
    ∷ op "put_var_ref3" 1 1 0 none_var_ref
    ∷ op "set_var_ref0" 1 1 1 none_var_ref
    ∷ op "set_var_ref1" 1 1 1 none_var_ref
    ∷ op "set_var_ref2" 1 1 1 none_var_ref
    ∷ op "set_var_ref3" 1 1 1 none_var_ref
    ∷ op "get_length" 1 1 1 none
    ∷ op "if_false8" 2 1 0 label8
    ∷ op "if_true8" 2 1 0 label8
    ∷ op "goto8" 2 0 0 label8
    ∷ op "goto16" 3 0 0 label16
    ∷ op "call0" 1 1 1 npopx
    ∷ op "call1" 1 1 1 npopx
    ∷ op "call2" 1 1 1 npopx
    ∷ op "call3" 1 1 1 npopx
    ∷ op "is_undefined" 1 1 1 none
    ∷ op "is_null" 1 1 1 none
    ∷ op "typeof_is_undefined" 1 1 1 none
    ∷ op "typeof_is_function" 1 1 1 none
    ∷ []
