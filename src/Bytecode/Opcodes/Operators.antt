-- ===== src/Bytecode/Opcodes/Operators.antt =====
-- A part of the opcode table of Sources/QuickJSC/include/quickjs-opcode.h.
use quick_js_swift.Base.{List, [], ◌∷◌}
use quick_js_swift.Bytecode.Opcodes.Format.{
  JsOpcode, op, none, u8, loc8, u16, u32, label, atom, atom_u16, atom_label_u8, atom_label_u16,
}

-- Opcodes for scopes of `with`, iterators and generators.
unfoldable pub object_opcodes : List JsOpcode
object_opcodes =
    op "to_object" 1 1 1 none
    ∷ op "to_propkey" 1 1 1 none
    ∷ op "to_propkey2" 1 2 2 none
    ∷ op "with_get_var" 10 1 0 atom_label_u8
    ∷ op "with_put_var" 10 2 1 atom_label_u8
    ∷ op "with_delete_var" 10 1 0 atom_label_u8
    ∷ op "with_make_ref" 10 1 0 atom_label_u8
    ∷ op "with_get_ref" 10 1 0 atom_label_u8
    ∷ op "with_get_ref_undef" 10 1 0 atom_label_u8
    ∷ op "make_loc_ref" 7 0 2 atom_u16
    ∷ op "make_arg_ref" 7 0 2 atom_u16
    ∷ op "make_var_ref_ref" 7 0 2 atom_u16
    ∷ op "make_var_ref" 5 0 2 atom
    ∷ op "for_in_start" 1 1 1 none
    ∷ op "for_of_start" 1 1 3 none
    ∷ op "for_await_of_start" 1 1 3 none
    ∷ op "for_in_next" 1 1 3 none
    ∷ op "for_of_next" 2 3 5 u8
    ∷ op "iterator_check_object" 1 1 1 none
    ∷ op "iterator_get_value_done" 1 1 2 none
    ∷ op "iterator_close" 1 3 0 none
    ∷ op "iterator_close_return" 1 4 4 none
    ∷ op "iterator_next" 1 4 4 none
    ∷ op "iterator_call" 2 4 5 u8
    ∷ op "initial_yield" 1 0 0 none
    ∷ op "yield" 1 1 2 none
    ∷ op "yield_star" 1 1 2 none
    ∷ op "async_yield_star" 1 1 2 none
    ∷ op "await" 1 1 1 none
    ∷ []

-- The operators.
unfoldable pub operator_opcodes : List JsOpcode
operator_opcodes =
    op "neg" 1 1 1 none
    ∷ op "plus" 1 1 1 none
    ∷ op "dec" 1 1 1 none
    ∷ op "inc" 1 1 1 none
    ∷ op "post_dec" 1 1 2 none
    ∷ op "post_inc" 1 1 2 none
    ∷ op "dec_loc" 2 0 0 loc8
    ∷ op "inc_loc" 2 0 0 loc8
    ∷ op "add_loc" 2 1 0 loc8
    ∷ op "not" 1 1 1 none
    ∷ op "lnot" 1 1 1 none
    ∷ op "typeof" 1 1 1 none
    ∷ op "delete" 1 2 1 none
    ∷ op "delete_var" 5 0 1 atom
    ∷ op "mul" 1 2 1 none
    ∷ op "div" 1 2 1 none
    ∷ op "mod" 1 2 1 none
    ∷ op "add" 1 2 1 none
    ∷ op "sub" 1 2 1 none
    ∷ op "pow" 1 2 1 none
    ∷ op "shl" 1 2 1 none
    ∷ op "sar" 1 2 1 none
    ∷ op "shr" 1 2 1 none
    ∷ op "lt" 1 2 1 none
    ∷ op "lte" 1 2 1 none
    ∷ op "gt" 1 2 1 none
    ∷ op "gte" 1 2 1 none
    ∷ op "instanceof" 1 2 1 none
    ∷ op "in" 1 2 1 none
    ∷ op "eq" 1 2 1 none
    ∷ op "neq" 1 2 1 none
    ∷ op "strict_eq" 1 2 1 none
    ∷ op "strict_neq" 1 2 1 none
    ∷ op "and" 1 2 1 none
    ∷ op "xor" 1 2 1 none
    ∷ op "or" 1 2 1 none
    ∷ op "is_undefined_or_null" 1 1 1 none
    ∷ op "nop" 1 0 0 none
    ∷ []

-- Opcodes that are gone from the final bytecode.
unfoldable pub temporary_opcodes : List JsOpcode
temporary_opcodes =
    op "enter_scope" 3 0 0 u16
    ∷ op "leave_scope" 3 0 0 u16
    ∷ op "label" 5 0 0 label
    ∷ op "scope_get_var_undef" 7 0 1 atom_u16
    ∷ op "scope_get_var" 7 0 1 atom_u16
    ∷ op "scope_put_var" 7 1 0 atom_u16
    ∷ op "scope_delete_var" 7 0 1 atom_u16
    ∷ op "scope_make_ref" 11 0 2 atom_label_u16
    ∷ op "scope_get_ref" 7 0 2 atom_u16
    ∷ op "scope_put_var_init" 7 0 2 atom_u16
    ∷ op "scope_get_private_field" 7 1 1 atom_u16
    ∷ op "scope_get_private_field2" 7 1 2 atom_u16
    ∷ op "scope_put_private_field" 7 1 1 atom_u16
    ∷ op "set_class_name" 5 1 1 u32
    ∷ op "line_num" 5 0 0 u32
    ∷ []
