-- ===== src/Bytecode/StackSize/Sound.antt =====
-- What `compute_stack_size` finds: it returns, its size is kept to by every run and needed by one,
-- and an exception reports a flaw that a run has.
use quick_js_swift.Base.{ℕ, ◌≤◌, ◌≡◌, ◌⊎◌, sym, ◌∙◌, inl, inr, List, [], ◌∷◌, some, All, arith}
use mathlib.Core.Path.{subst}
use quick_js_swift.Runtime.Malloc.{MallocState, CHeap}
use quick_js_swift.Bytecode.Opcodes.{JsOpcode}
use quick_js_swift.Bytecode.StackSize.{StackError, js_stack_size_max, pass, compute_stack_size}
use quick_js_swift.Bytecode.StackSize.Runs.{
  In, CanRun, after, successors, Reach, entered, went_on, Needs, HasFault,
}
use quick_js_swift.Bytecode.StackSize.Checks.{level}
use quick_js_swift.Bytecode.StackSize.Exploration.{Levelled, Settled}
use quick_js_swift.Bytecode.StackSize.Rounds.{State, Ends, returns, verdict}

All-In : {A : Type 0} (P : A → Type 0) (xs : List A) → All P xs → (a : A) → In a xs → P a
All-In P (x ∷ xs) (p, ps) a (inl same) = subst P (sym same) p
All-In P (x ∷ xs) (p, ps) a (inr later) = All-In P xs ps a later
All-In P [] ps a i = absurd i

module _ {H : Type 0} (heap : CHeap H) (code : List ℕ) where
  module _ (s : State heap code) (ends : Ends heap code (pass s)) where
    Settled-level : (p : ℕ) → level s p ≤ js_stack_size_max → Settled code s p
    Settled-level p le = elim (ends.0.settled p (λ e. absurd (omega arith))) [
      | inl waits ↦ absurd (subst (In p) ends.2 waits)
      | inr (inl done) ↦ done
      | inr (inr never) ↦ absurd never
    ]

    -- The table has the length with which a run gets to a place.
    levelled : {p len : ℕ} → Reach code p len → Levelled code s (p, len)
    levelled entered = (ends.1, omega arith)
    levelled {p = q} {len = h} (went_on {pos} {len} oi at runs i) =
        let (here, le) = levelled at in
        let (oi', runs', _, all) = Settled-level pos (omega arith) in
        let same : oi' ≡ oi = some-injective (sym runs'.known ∙ runs.known) in
        All-In (Levelled code s) (successors code pos len oi)
          (subst (λ (x : JsOpcode). All (Levelled code s) (successors code pos len x)) same
            (subst (λ (l : ℕ). All (Levelled code s) (successors code pos l oi')) here all))
          (q, h) i
      where
        some-injective : {A : Type 0} {a b : A} → some a ≡ some b → a ≡ b
        some-injective e = cc

    kept :
        {p len : ℕ}
        → Reach code p len
        → (oi : JsOpcode) × CanRun code p len oi
          × (len ≤ s.stack_len_max)
          × (after code p len oi ≤ s.stack_len_max)
    kept {p} {len} at =
        let (here, le) = levelled at in
        let (oi, runs, fits, _) = Settled-level p (omega arith) in
        (
          oi,
          subst (λ (l : ℕ). CanRun code p l oi) here runs,
          omega (arith, here, ends.0.below p (λ e. absurd (omega arith))),
          subst (λ (l : ℕ). after code p l oi ≤ s.stack_len_max) here fits,
        )

  module _ (memory memory' : MallocState H) (size : ℕ)
      (found : compute_stack_size heap code memory ≡ some (memory', inr size)) where
    -- When a size is found, no run of the bytecode gets stuck: wherever a run can get to, there is
    -- an instruction that lies in the code and finds what it pops, and neither before it nor after
    -- it are there more values on the stack than that size.
    pub stack_size_safe :
        (p len : ℕ)
        → Reach code p len
        → (oi : JsOpcode) × CanRun code p len oi × (len ≤ size) × (after code p len oi ≤ size)
    stack_size_safe p len at =
        let (s, ends, e) = verdict heap code memory (memory', inr size) found in
        let (oi, runs, before, behind) = kept s ends at in
        (oi, runs, omega (arith, before, e), omega (arith, behind, e))

    -- When a size is found, it is at most JS_STACK_SIZE_MAX, and some run has exactly so many
    -- values on the stack: no smaller size would do.
    pub stack_size_least : (size ≤ js_stack_size_max) × Needs code size
    stack_size_least =
        let (s, ends, e) = verdict heap code memory (memory', inr size) found in
        (omega (arith, ends.0.bounded, e), subst (Needs code) e ends.0.needed)

    -- When a size is found, every run that gets to a place has the same number of values on the
    -- stack there.
    pub stack_levels_agree : (p len len' : ℕ) → Reach code p len → Reach code p len' → len ≡ len'
    stack_levels_agree p len len' at at' =
        let (s, ends, e) = verdict heap code memory (memory', inr size) found in
        omega (arith, levelled s ends at, levelled s ends at')

  -- When an exception is thrown, a run of the bytecode shows the flaw that it reports, at the place
  -- that it names, with the opcode that it names there, or going there where the flaw is in that;
  -- for lack of memory nothing is claimed.
  pub stack_size_fault :
      (memory memory' : MallocState H) (e : StackError)
      → compute_stack_size heap code memory ≡ some (memory', inl e)
      → HasFault code e
  stack_size_fault memory memory' e thrown = verdict heap code memory (memory', inl e) thrown

  -- The exploration of any bytecode ends within its fuel, whatever the memory.
  pub compute_stack_size_returns :
      (memory : MallocState H)
      → (r : MallocState H × (StackError ⊎ ℕ)) × (compute_stack_size heap code memory ≡ some r)
  compute_stack_size_returns memory = let (r, e, _) = returns heap code memory in (r, e)
