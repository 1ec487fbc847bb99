-- ===== src/Bytecode/Opcodes/Variables.antt =====
-- A part of the opcode table of Sources/QuickJSC/include/quickjs-opcode.h.
use quick_js_swift.Base.{List, [], ◌∷◌}
use quick_js_swift.Bytecode.Opcodes.Format.{
  JsOpcode, op, none, u8, loc, arg, var_ref, label, atom, atom_u8,
}

-- Opcodes for variables and properties.
unfoldable pub variable_opcodes : List JsOpcode
variable_opcodes =
    op "check_var" 5 0 1 atom
    ∷ op "get_var_undef" 5 0 1 atom
    ∷ op "get_var" 5 0 1 atom
    ∷ op "put_var" 5 1 0 atom
    ∷ op "put_var_init" 5 1 0 atom
    ∷ op "put_var_strict" 5 2 0 atom
    ∷ op "get_ref_value" 1 2 3 none
    ∷ op "put_ref_value" 1 3 0 none
    ∷ op "define_var" 6 0 0 atom_u8
    ∷ op "check_define_var" 6 0 0 atom_u8
    ∷ op "define_func" 6 1 0 atom_u8
    ∷ op "get_field" 5 1 1 atom
    ∷ op "get_field2" 5 1 2 atom
    ∷ op "put_field" 5 2 0 atom
    ∷ op "get_private_field" 1 2 1 none
    ∷ op "put_private_field" 1 3 0 none
    ∷ op "define_private_field" 1 3 1 none
    ∷ op "get_array_el" 1 2 1 none
    ∷ op "get_array_el2" 1 2 2 none
    ∷ op "put_array_el" 1 3 0 none
    ∷ op "get_super_value" 1 3 1 none
    ∷ op "put_super_value" 1 4 0 none
    ∷ op "define_field" 5 2 1 atom
    ∷ op "set_name" 5 1 1 atom
    ∷ op "set_name_computed" 1 2 2 none
    ∷ op "set_proto" 1 2 1 none
    ∷ op "set_home_object" 1 2 2 none
    ∷ op "define_array_el" 1 3 2 none
    ∷ op "append" 1 3 2 none
    ∷ op "copy_data_properties" 2 3 3 u8
    ∷ op "define_method" 6 2 1 atom_u8
    ∷ op "define_method_computed" 2 3 1 u8
    ∷ op "define_class" 6 2 2 atom_u8
    ∷ op "define_class_computed" 6 3 3 atom_u8
    ∷ []

-- Opcodes for the locals, the arguments and the closure, and for control.
unfoldable pub local_opcodes : List JsOpcode
local_opcodes =
    op "get_loc" 3 0 1 loc
    ∷ op "put_loc" 3 1 0 loc
    ∷ op "set_loc" 3 1 1 loc
    ∷ op "get_arg" 3 0 1 arg
    ∷ op "put_arg" 3 1 0 arg
    ∷ op "set_arg" 3 1 1 arg
    ∷ op "get_var_ref" 3 0 1 var_ref
    ∷ op "put_var_ref" 3 1 0 var_ref
    ∷ op "set_var_ref" 3 1 1 var_ref
    ∷ op "set_loc_uninitialized" 3 0 0 loc
    ∷ op "get_loc_check" 3 0 1 loc
    ∷ op "put_loc_check" 3 1 0 loc
    ∷ op "put_loc_check_init" 3 1 0 loc
    ∷ op "get_var_ref_check" 3 0 1 var_ref
    ∷ op "put_var_ref_check" 3 1 0 var_ref
    ∷ op "put_var_ref_check_init" 3 1 0 var_ref
    ∷ op "close_loc" 3 0 0 loc
    ∷ op "if_false" 5 1 0 label
    ∷ op "if_true" 5 1 0 label
    ∷ op "goto" 5 0 0 label
    ∷ op "catch" 5 0 1 label
    ∷ op "gosub" 5 0 0 label
    ∷ op "ret" 1 1 0 none
    ∷ []
