-- ===== src/Tests/StackSizes.antt =====
-- The stack size of a few lines of bytecode.
use quick_js_swift.Base.{ℕ, ◌+◌, ◌≤◌, ◌≡◌, refl, List, [], ◌∷◌, some, inl, inr, arith, map, ◌⊎◌}
use mathlib.Core.Option
use quick_js_swift.Runtime.Malloc.{
  MallocState, CHeap, js_def_malloc, js_def_free, js_resize_array, resized,
}
use quick_js_swift.Bytecode.Opcodes
use quick_js_swift.Bytecode.Opcodes.{JsOpcode, OpcodeFormat, short_opcode_info}
use quick_js_swift.Bytecode.Opcodes.Format.{op}
use quick_js_swift.Bytecode.Flow.{flow, popped}
use quick_js_swift.Bytecode.StackSize.{
  compute_stack_size, StackError, stack_underflow, inconsistent,
}
use quick_js_swift.Bytecode.StackSize.Runs.{
  Reach, went_on, instruction, targets, CanRun, after, entered, HasFault, Needs,
}
use quick_js_swift.Bytecode.StackSize.Sound.{
  stack_size_safe, stack_size_least, stack_size_fault, compute_stack_size_returns,
}

-- A heap that always gives the next block.
abbrev pool : CHeap ℕ
pool = record {
  malloc = λ h n. (h + 1, h + 1);
  free = λ h p. h;
  realloc = λ h p n. (h + 1, h + 1);
  malloc_usable_size = λ h p. 64;
}

abbrev empty : MallocState ℕ
empty = record { malloc_count = 0; malloc_size = 0; malloc_limit = 1000; heap = 0 }

-- push_true, if_false8 over push_0 and drop, return_undef
abbrev conditional : List ℕ
conditional = 10 ∷ 232 ∷ 3 ∷ 179 ∷ 14 ∷ 41 ∷ []

sized : compute_stack_size pool conditional empty ≡ some (record empty { heap = 2 }, inr 1)
unfolding compute_stack_size js_def_malloc js_def_free js_resize_array resized
sized = refl

-- drop, return_undef
abbrev dropping : List ℕ
dropping = 14 ∷ 41 ∷ []

underflow :
    compute_stack_size pool dropping empty
    ≡ some (record empty { heap = 2 }, inl (stack_underflow 14 0))
unfolding compute_stack_size js_def_malloc js_def_free js_resize_array resized
underflow = refl

-- A loop that pushes more and more: push_true, goto8 to the start.
abbrev growing : List ℕ
growing = 10 ∷ 234 ∷ 254 ∷ []

inconsistent_levels :
    compute_stack_size pool growing empty
    ≡ some (record empty { heap = 2 }, inl (inconsistent 234 0))
unfolding compute_stack_size js_def_malloc js_def_free js_resize_array resized
inconsistent_levels = refl

-- The numbers of the opcodes are their places in the table.
named :
    map
      (λ op. Option.map (λ (oi : JsOpcode). oi.name) (short_opcode_info op))
      (Opcodes.op_tail_call ∷ Opcodes.op_tail_call_method ∷ Opcodes.op_return
        ∷ Opcodes.op_return_undef ∷ Opcodes.op_return_async ∷ Opcodes.op_throw
        ∷ Opcodes.op_throw_error ∷ Opcodes.op_ret ∷ Opcodes.op_goto ∷ Opcodes.op_goto16
        ∷ Opcodes.op_goto8 ∷ Opcodes.op_if_true8 ∷ Opcodes.op_if_false8 ∷ Opcodes.op_if_true
        ∷ Opcodes.op_if_false ∷ Opcodes.op_catch ∷ Opcodes.op_gosub ∷ Opcodes.op_with_get_var
        ∷ Opcodes.op_with_delete_var ∷ Opcodes.op_with_make_ref ∷ Opcodes.op_with_get_ref
        ∷ Opcodes.op_with_get_ref_undef ∷ Opcodes.op_with_put_var ∷ Opcodes.op_call0 ∷ [])
    ≡ some "tail_call"
      ∷ some "tail_call_method"
      ∷ some "return"
      ∷ some "return_undef"
      ∷ some "return_async"
      ∷ some "throw"
      ∷ some "throw_error"
      ∷ some "ret"
      ∷ some "goto"
      ∷ some "goto16"
      ∷ some "goto8"
      ∷ some "if_true8"
      ∷ some "if_false8"
      ∷ some "if_true"
      ∷ some "if_false"
      ∷ some "catch"
      ∷ some "gosub"
      ∷ some "with_get_var"
      ∷ some "with_delete_var"
      ∷ some "with_make_ref"
      ∷ some "with_get_ref"
      ∷ some "with_get_ref_undef"
      ∷ some "with_put_var"
      ∷ some "call0"
      ∷ []
unfolding short_opcode_info
named = refl

-- The place after push_true, with its value on the stack.
abbrev push_true : JsOpcode
push_true = op "push_true" 1 0 1 OpcodeFormat.none

pushed : Reach conditional 1 1
unfolding instruction short_opcode_info flow popped targets
pushed =
    went_on {pos = 0} {len = 0} push_true entered
      (record { known = refl; within = omega arith; enough = omega arith }) (inl refl)

stack_size_safe_example :
    (oi : JsOpcode) × CanRun conditional 1 1 oi × (1 ≤ 1) × (after conditional 1 1 oi ≤ 1)
stack_size_safe_example =
    stack_size_safe pool conditional empty (record empty { heap = 2 }) 1 sized 1 1 pushed

stack_size_least_example : (1 ≤ 65534) × Needs conditional 1
stack_size_least_example =
    stack_size_least pool conditional empty (record empty { heap = 2 }) 1 sized

stack_size_fault_example : HasFault dropping (stack_underflow 14 0)
stack_size_fault_example =
    stack_size_fault pool dropping empty (record empty { heap = 2 }) (stack_underflow 14 0)
      underflow

compute_stack_size_returns_example :
    (r : MallocState ℕ × (StackError ⊎ ℕ)) × (compute_stack_size pool growing empty ≡ some r)
compute_stack_size_returns_example = compute_stack_size_returns pool growing empty
