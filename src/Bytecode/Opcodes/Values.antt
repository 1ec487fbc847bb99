-- ===== src/Bytecode/Opcodes/Values.antt =====
-- A part of the opcode table of Sources/QuickJSC/include/quickjs-opcode.h.
use quick_js_swift.Base.{List, [], ◌∷◌}
use quick_js_swift.Bytecode.Opcodes.Format.{
  JsOpcode, op, none, u8, u16, npop, npop_u16, i32, const, atom, atom_u8,
}

-- Opcodes that push values, move them about and call.
unfoldable pub value_opcodes : List JsOpcode
value_opcodes =
    op "invalid" 1 0 0 none
    ∷ op "push_i32" 5 0 1 i32
    ∷ op "push_const" 5 0 1 const
    ∷ op "fclosure" 5 0 1 const
    ∷ op "push_atom_value" 5 0 1 atom
    ∷ op "private_symbol" 5 0 1 atom
    ∷ op "undefined" 1 0 1 none
    ∷ op "null" 1 0 1 none
    ∷ op "push_this" 1 0 1 none
    ∷ op "push_false" 1 0 1 none
    ∷ op "push_true" 1 0 1 none
    ∷ op "object" 1 0 1 none
    ∷ op "special_object" 2 0 1 u8
    ∷ op "rest" 3 0 1 u16
    ∷ op "drop" 1 1 0 none
    ∷ op "nip" 1 2 1 none
    ∷ op "nip1" 1 3 2 none
    ∷ op "dup" 1 1 2 none
    ∷ op "dup1" 1 2 3 none
    ∷ op "dup2" 1 2 4 none
    ∷ op "dup3" 1 3 6 none
    ∷ op "insert2" 1 2 3 none
    ∷ op "insert3" 1 3 4 none
    ∷ op "insert4" 1 4 5 none
    ∷ op "perm3" 1 3 3 none
    ∷ op "perm4" 1 4 4 none
    ∷ op "perm5" 1 5 5 none
    ∷ op "swap" 1 2 2 none
    ∷ op "swap2" 1 4 4 none
    ∷ op "rot3l" 1 3 3 none
    ∷ op "rot3r" 1 3 3 none
    ∷ op "rot4l" 1 4 4 none
    ∷ op "rot5l" 1 5 5 none
    ∷ op "call_constructor" 3 2 1 npop
    ∷ op "call" 3 1 1 npop
    ∷ op "tail_call" 3 1 0 npop
    ∷ op "call_method" 3 2 1 npop
    ∷ op "tail_call_method" 3 2 0 npop
    ∷ op "array_from" 3 0 1 npop
    ∷ op "apply" 3 3 1 u16
    ∷ op "return" 1 1 0 none
    ∷ op "return_undef" 1 0 0 none
    ∷ op "check_ctor_return" 1 1 2 none
    ∷ op "check_ctor" 1 0 0 none
    ∷ op "check_brand" 1 2 2 none
    ∷ op "add_brand" 1 2 0 none
    ∷ op "return_async" 1 1 0 none
    ∷ op "throw" 1 1 0 none
    ∷ op "throw_error" 6 0 0 atom_u8
    ∷ op "eval" 5 1 1 npop_u16
    ∷ op "apply_eval" 3 2 1 u16
    ∷ op "regexp" 1 2 1 none
    ∷ op "get_super" 1 1 1 none
    ∷ op "import" 1 1 1 none
    ∷ []
