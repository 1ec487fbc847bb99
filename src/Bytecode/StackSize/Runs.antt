-- ===== src/Bytecode/StackSize/Runs.antt =====
-- What a function may do with the stack, apart from how its size is found: the places that a run
-- of the bytecode can reach, with the length of the stack there.
use quick_js_swift.Base.{
  ℕ, ◌+◌, ◌-◌, ◌≤◌, ◌<◌, ◌≡◌, ◌≢◌, ◌⊎◌, List, [], ◌∷◌, ◌||◌, Option, none, some, leb, ◌==◌,
  if◌then◌else◌, length,
}
use quick_js_swift.Bytecode.Opcodes
use quick_js_swift.Bytecode.Opcodes.{JsOpcode, short_opcode_info}
use quick_js_swift.Bytecode.Flow.{
  Flow, stops, jumps, jumps16, jumps8, branches8, branches, calls_finally, with_value,
  with_reference, with_store, goes_on, byte, get_u16, get_u32, sign_extend, flow, popped, jump,
}
use quick_js_swift.Bytecode.StackSize.{
  StackError, buffer_overflow, stack_overflow, inconsistent, invalid_opcode, stack_underflow,
  out_of_memory, js_stack_size_max,
}

-- `a` is one of a list.
abbrev pub In : {A : Type 0} → A → List A → Type 0
In a [] = ⊥
In a (b ∷ bs) = (a ≡ b) ⊎ In a bs

-- The instruction at a place, if the byte there is an opcode of the final bytecode.
unfoldable pub instruction : List ℕ → ℕ → Option JsOpcode
instruction code pos =
    let op = byte code pos in
    let entry = short_opcode_info op in if op == 0 || leb Opcodes.op_count op then none else entry

-- The length of the stack after it.
abbrev pub after : List ℕ → ℕ → ℕ → JsOpcode → ℕ
after code pos len oi = len + oi.n_push - popped code pos (byte code pos) oi

-- The places it may go on at, with their lengths: for a `with`, first the object's property.
unfoldable pub targets : Flow → List ℕ → ℕ → ℕ → ℕ → List (ℕ × ℕ)
targets stops code pos next len = []
targets jumps code pos next len = (jump (pos + 1) (get_u32 code (pos + 1)), len) ∷ []
targets jumps16 code pos next len =
    (jump (pos + 1) (sign_extend 16 (get_u16 code (pos + 1))), len) ∷ []
targets jumps8 code pos next len = (jump (pos + 1) (sign_extend 8 (byte code (pos + 1))), len) ∷ []
targets branches8 code pos next len =
    (jump (pos + 1) (sign_extend 8 (byte code (pos + 1))), len) ∷ (next, len) ∷ []
targets branches code pos next len =
    (jump (pos + 1) (get_u32 code (pos + 1)), len) ∷ (next, len) ∷ []
targets calls_finally code pos next len =
    (jump (pos + 1) (get_u32 code (pos + 1)), len + 1) ∷ (next, len) ∷ []
targets with_value code pos next len =
    (jump (pos + 5) (get_u32 code (pos + 5)), len + 1) ∷ (next, len) ∷ []
targets with_reference code pos next len =
    (jump (pos + 5) (get_u32 code (pos + 5)), len + 2) ∷ (next, len) ∷ []
targets with_store code pos next len =
    (jump (pos + 5) (get_u32 code (pos + 5)), len - 1) ∷ (next, len) ∷ []
targets goes_on code pos next len = (next, len) ∷ []

module _ (code : List ℕ) where
  -- The instruction `oi` is there, lies in the code, and finds what it pops.
  pub record CanRun (pos len : ℕ) (oi : JsOpcode) : Type 0 where
    pub known : instruction code pos ≡ some oi
    pub within : pos + oi.size ≤ length code
    pub enough : popped code pos (byte code pos) oi ≤ len

  abbrev pub successors : ℕ → ℕ → JsOpcode → List (ℕ × ℕ)
  successors pos len oi =
      targets (flow (byte code pos)) code pos (pos + oi.size) (after code pos len oi)

  -- A run gets to a place with so many values on the stack.
  pub data Reach : ℕ → ℕ → Type 0 where
    entered : Reach 0 0
    went_on :
        {pos len q h : ℕ} (oi : JsOpcode)
        → Reach pos len
        → CanRun pos len oi
        → In (q, h) (successors pos len oi)
        → Reach q h

  -- A run gets to a place after an opcode, or has it first, when the opcode is named 0.
  pub data Comes : ℕ → ℕ → ℕ → Type 0 where
    started : Comes 0 0 0
    came :
        {op pos len q h : ℕ} (oi : JsOpcode)
        → op ≡ byte code pos
        → Reach pos len
        → CanRun pos len oi
        → In (q, h) (successors pos len oi)
        → Comes op q h

  pub Comes-Reach : {op q h : ℕ} → Comes op q h → Reach q h
  Comes-Reach started = entered
  Comes-Reach (came oi e at runs i) = went_on oi at runs i

  -- A run has `n` values on the stack, before an instruction or after it.
  abbrev pub Needs : ℕ → Type 0
  Needs n =
      (pos : ℕ) × (len : ℕ) × Reach pos len
      × ((n ≡ len) ⊎ ((oi : JsOpcode) × CanRun pos len oi × (n ≡ after code pos len oi)))

  -- The flaw that an exception reports, in a run that shows it. `pos` is the place of the flaw;
  -- `op` is the opcode there, or where the flaw is in going to `pos`, the one before.
  abbrev pub HasFault : StackError → Type 0
  HasFault (buffer_overflow op pos) =
      (len : ℕ) × Reach pos len
      × ((Comes op pos len × (length code ≤ pos))
          ⊎ ((oi : JsOpcode) × (op ≡ byte code pos)
              × (instruction code pos ≡ some oi)
              × (length code < pos + oi.size)))
  HasFault (stack_overflow op pos) =
      (len : ℕ) × Reach pos len
      × ((Comes op pos len × (js_stack_size_max < len))
          ⊎ ((oi : JsOpcode) × (op ≡ byte code pos)
              × CanRun pos len oi
              × (js_stack_size_max < after code pos len oi)))
  HasFault (inconsistent op pos) =
      (len : ℕ) × (len' : ℕ) × Reach pos len × Comes op pos len' × (len ≢ len')
  HasFault (invalid_opcode op pos) =
      (len : ℕ) × Reach pos len × (op ≡ byte code pos) × (instruction code pos ≡ none)
  HasFault (stack_underflow op pos) =
      (len : ℕ) × (oi : JsOpcode) × Reach pos len
      × (op ≡ byte code pos)
      × (instruction code pos ≡ some oi)
      × (len < popped code pos (byte code pos) oi)
  HasFault out_of_memory = Unit {0}
