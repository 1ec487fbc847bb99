-- ===== src/Bytecode/StackSize.antt =====
-- The size of the stack that a function needs: `ss_check` and `compute_stack_size` of
-- Sources/QuickJSC/quickjs.c, over the allocator that stands behind `def_malloc_funcs`. An `int`
-- is a number below 2 ^ 32. `bc_len` is one: the code is taken to be shorter than 2 ^ 31 bytes,
-- as the lengths and places here do not wrap.
pub mod Runs
pub mod Checks
pub mod Exploration
pub mod Follow
pub mod Visit
pub mod Rounds
pub mod Sound
use quick_js_swift.Base.{
  ℕ, zero, suc, ◌+◌, ◌-◌, ◌*◌, ◌%◌, ◌^◌, List, [], ◌∷◌, Bool, ◌&&◌, ◌||◌, Option, none, some, ltb,
  leb, ◌==◌, if◌then◌else◌, length, get_or, set, map, ◌⊎◌, inl, inr,
}
use mathlib.Core.Option
use quick_js_swift.Runtime.Malloc.{
  MallocState, CHeap, JsArray, js_def_malloc, js_def_free, js_resize_array,
}
use quick_js_swift.Bytecode.Opcodes
use quick_js_swift.Bytecode.Opcodes.{JsOpcode, short_opcode_info}
use quick_js_swift.Bytecode.Flow.{
  Flow, stops, jumps, jumps16, jumps8, branches8, branches, calls_finally, with_value,
  with_reference, with_store, goes_on, byte, get_u16, get_u32, sign_extend, flow, popped, jump,
}

abbrev pub js_stack_size_max : ℕ
js_stack_size_max = 65534

-- The level of a place that is not explored yet.
abbrev pub unexplored : ℕ
unexplored = 0xffff

-- The exceptions, with `op` and `pc`.
pub data StackError : Type 0 where
  buffer_overflow stack_overflow inconsistent invalid_opcode stack_underflow : ℕ → ℕ → StackError
  out_of_memory : StackError

-- `pc_stack` has its last entry first; `slots` is its block, with `pc_stack_size`. `bc_len` is
-- the length of the code.
pub record StackSizeState (H : Type 0) : Type 0 where
  pub stack_len_max : ℕ
  pub stack_level_tab : List ℕ
  pub pc_stack : List ℕ
  pub slots : JsArray
  pub memory : MallocState H

-- Going on with a state, or failing in it.
pub data Checked (H : Type 0) : Type 0 where
  pass : StackSizeState H → Checked H
  fail : StackError → StackSizeState H → Checked H

infixl 5 ◌>>=◌
abbrev pub ◌>>=◌ : {H : Type 0} → Checked H → (StackSizeState H → Checked H) → Checked H
pass s >>= f = f s
fail e s >>= f = fail e s

module _ {H : Type 0} where
  -- The new greatest length.
  pub raise : StackSizeState H → ℕ → StackSizeState H
  raise s stack_len = record s {
    stack_len_max = if ltb s.stack_len_max stack_len then stack_len else s.stack_len_max;
  }

  -- Whether it is new and too great.
  pub too_long : StackSizeState H → ℕ → Bool
  too_long s stack_len = ltb s.stack_len_max stack_len && ltb js_stack_size_max stack_len

  -- What `js_resize_array` makes of the queue.
  pub queued : StackSizeState H → ℕ → MallocState H × Option JsArray → Checked H
  queued s pos (memory, none) = fail out_of_memory (record s { memory = memory })
  queued s pos (memory, some slots) =
      pass (record s { pc_stack = pos ∷ s.pc_stack; slots = slots; memory = memory })

module _ {H : Type 0} (heap : CHeap H) where
  -- Marks a place and puts it into the queue.
  pub explore : StackSizeState H → ℕ → ℕ → Checked H
  unfolding queued
  explore s pos stack_len =
      let marked = record s { stack_level_tab = set s.stack_level_tab pos (stack_len % 2 ^ 16) } in
      queued marked pos (js_resize_array heap s.memory s.slots 4 (length s.pc_stack + 1))

  unfoldable pub ss_check : List ℕ → StackSizeState H → ℕ → ℕ → ℕ → Checked H
  unfolding raise too_long explore
  ss_check code s pos op stack_len =
      let level = get_or s.stack_level_tab pos unexplored in
      let s1 = raise s stack_len in
      let seen = if level == stack_len then pass s1 else fail (inconsistent op pos) s1 in
      let new = if level == unexplored then explore s1 pos stack_len else seen in
      let fits = if too_long s stack_len then fail (stack_overflow op pos) s1 else new in
      if leb (length code) pos then fail (buffer_overflow op pos) s else fits

  -- The `switch`, with the checks of where it goes on. `next` is `pos_next`.
  -- OP_with_put_var pushes a value, so its `len - 1` does not stop at 0.
  pub branch : Flow → List ℕ → ℕ → ℕ → ℕ → ℕ → StackSizeState H → Checked H
  unfolding ss_check jump get_u32 sign_extend
  branch stops code pos op next len s = pass s
  branch jumps code pos op next len s =
      ss_check code s (jump (pos + 1) (get_u32 code (pos + 1))) op len
  branch jumps16 code pos op next len s =
      ss_check code s (jump (pos + 1) (sign_extend 16 (get_u16 code (pos + 1)))) op len
  branch jumps8 code pos op next len s =
      ss_check code s (jump (pos + 1) (sign_extend 8 (byte code (pos + 1)))) op len
  branch branches8 code pos op next len s = do
    s1 ← ss_check code s (jump (pos + 1) (sign_extend 8 (byte code (pos + 1)))) op len
    ss_check code s1 next op len
  branch branches code pos op next len s = do
    s1 ← ss_check code s (jump (pos + 1) (get_u32 code (pos + 1))) op len
    ss_check code s1 next op len
  branch calls_finally code pos op next len s = do
    s1 ← ss_check code s (jump (pos + 1) (get_u32 code (pos + 1))) op (len + 1)
    ss_check code s1 next op len
  branch with_value code pos op next len s = do
    s1 ← ss_check code s (jump (pos + 5) (get_u32 code (pos + 5))) op (len + 1)
    ss_check code s1 next op len
  branch with_reference code pos op next len s = do
    s1 ← ss_check code s (jump (pos + 5) (get_u32 code (pos + 5))) op (len + 2)
    ss_check code s1 next op len
  branch with_store code pos op next len s = do
    s1 ← ss_check code s (jump (pos + 5) (get_u32 code (pos + 5))) op (len - 1)
    ss_check code s1 next op len
  branch goes_on code pos op next len s = ss_check code s next op len

  -- An opcode that is there, with its entry.
  pub effect : List ℕ → ℕ → ℕ → ℕ → JsOpcode → StackSizeState H → Checked H
  unfolding raise too_long branch popped flow
  effect code pos op stack_len oi s =
      let n_pop = popped code pos op oi in
      let next = pos + oi.size in
      let len = stack_len + oi.n_push - n_pop in
      let s1 = raise s len in
      let on = branch (flow op) code pos op next len s1 in
      let fits = if too_long s len then fail (stack_overflow op pos) s1 else on in
      let enough = if ltb stack_len n_pop then fail (stack_underflow op pos) s else fits in
      if ltb (length code) next then fail (buffer_overflow op pos) s else enough

  pub decode : List ℕ → ℕ → ℕ → ℕ → Option JsOpcode → StackSizeState H → Checked H
  unfolding effect
  decode code pos op stack_len none s = fail (invalid_opcode op pos) s
  decode code pos op stack_len (some oi) s =
      let valid = effect code pos op stack_len oi s in
      if op == 0 || leb Opcodes.op_count op then fail (invalid_opcode op pos) s else valid

  -- The body of the loop.
  pub visit : List ℕ → ℕ → StackSizeState H → Checked H
  unfolding decode short_opcode_info
  visit code pos s =
      let op = byte code pos in
      let stack_len = get_or s.stack_level_tab pos unexplored in
      decode code pos op stack_len (short_opcode_info op) s

  -- The loop; `none` is a lack of fuel.
  pub loop : ℕ → List ℕ → Checked H → Option (Checked H)
  unfolding visit
  loop zero code c = none
  loop (suc fuel) code (fail e s) = some (fail e s)
  loop (suc fuel) code (pass s) = elim s.pc_stack [
    | [] ↦ some (pass s)
    | pos ∷ rest ↦ loop fuel code (visit code pos (record s { pc_stack = rest }))
  ]

  -- The table and the queue are freed, whatever the outcome. `inl` is -1 with its exception.
  pub finish : ℕ → Checked H → MallocState H × (StackError ⊎ ℕ)
  finish tab (fail e s) = (js_def_free heap (js_def_free heap s.memory tab) s.slots.parray, inl e)
  finish tab (pass s) =
      (js_def_free heap (js_def_free heap s.memory tab) s.slots.parray, inr s.stack_len_max)

  -- The state before the loop, with the table marked by its own loop.
  unfoldable pub start : List ℕ → MallocState H → StackSizeState H
  start code memory = record {
    stack_len_max = 0;
    stack_level_tab = map (λ _. unexplored) code;
    pc_stack = [];
    slots = record { parray = 0; psize = 0 };
    memory = memory;
  }

  -- The exploration, from the first check on. The fuel is for each place and the last test.
  unfoldable pub explored : List ℕ → MallocState H → Option (Checked H)
  unfolding loop start ss_check
  explored code memory = loop (length code + 1) code (ss_check code (start code memory) 0 0 0)

  unfoldable pub compute_stack_size :
      List ℕ → MallocState H → Option (MallocState H × (StackError ⊎ ℕ))
  unfolding explored finish
  compute_stack_size code memory =
      let (memory1, tab) = js_def_malloc heap memory (2 * length code) in
      let done = Option.map (finish tab) (explored code memory1) in
      if tab == 0 then some (memory1, inl out_of_memory) else done
