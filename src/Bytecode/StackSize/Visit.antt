-- ===== src/Bytecode/StackSize/Visit.antt =====
-- One round of the exploration: a place is taken from the queue, and settled.
use quick_js_swift.Base.{
  ℕ, ◌+◌, ◌≤◌, ◌≡◌, ◌≢◌, refl, sym, inl, inr, List, ◌&&◌, ◌||◌, Option, none, some, ltb, leb, ◌==◌,
  ltb→lt, length, All, arith, Bool-cases, Option-cases,
}
use mathlib.Core.Path.{subst}
use quick_js_swift.Runtime.Malloc.{CHeap}
use quick_js_swift.Bytecode.Opcodes
use quick_js_swift.Bytecode.Opcodes.{JsOpcode, short_opcode_info}
use quick_js_swift.Bytecode.Flow.{byte, flow, popped}
use quick_js_swift.Bytecode.StackSize.{
  js_stack_size_max, unexplored, StackSizeState, Checked, pass, fail, raise, too_long, branch,
  effect, decode, visit,
}
use quick_js_swift.Bytecode.StackSize.Runs.{
  instruction, CanRun, after, successors, came, Needs, HasFault,
}
use quick_js_swift.Bytecode.StackSize.Checks.{level, greatest, work}
use quick_js_swift.Bytecode.StackSize.Exploration.{
  Levelled, Settled, Explores, Extends, Extends-trans, Outcome, greatest-Explores, raised,
}
use quick_js_swift.Bytecode.StackSize.Follow.{check_all, branch_lem, check_all-Outcome}

module _ {H : Type 0} (heap : CHeap H) (code : List ℕ) where
  abbrev State : Type 0
  State = StackSizeState H

  -- What a round comes to.
  abbrev pub Round : State → Checked H → Type 0
  Round s (pass t) = Explores code (λ _. ⊥) t × Extends code s t × (work t ≡ work s)
  Round s (fail e t) = HasFault code e

  -- A place that is settled is no longer open.
  closed :
      (s t : State) (p : ℕ)
      → Explores code (λ q. q ≡ p) t
      → Settled code t p
      → Extends code s t
      → work t ≡ work s
      → Round s (pass t)
  closed s t p inv done later same = (
    record {
      sized = inv.sized;
      bounded = inv.bounded;
      reached = inv.reached;
      below = inv.below;
      settled = λ q e. elim (inv.settled q e) [
        | inl waits ↦ inl waits
        | inr (inl x) ↦ inr (inl x)
        | inr (inr now) ↦ inr (inl (subst (Settled code t) (sym now) done))
      ];
      pending = inv.pending;
      needed = inv.needed;
    },
    later,
    same,
  )

  module _ (s : State) (p : ℕ) (known : level s p ≢ unexplored)
      (inv : Explores code (λ q. q ≡ p) s) where
    abbrev len : ℕ
    len = level s p

    abbrev raised_state : ℕ → State
    raised_state h = record s { stack_len_max = greatest s h }

    -- The checks of where an instruction goes on settle it.
    followed :
        (oi : JsOpcode)
        → CanRun code p len oi
        → after code p len oi ≤ js_stack_size_max
        → Round s (
            branch heap
              (flow (byte code p))
              code
              p
              (byte code p)
              (p + oi.size)
              (after code p len oi)
              (raised_state (after code p len oi)))
    followed oi runs le =
        let h = after code p len oi in
        let at = inv.reached p known in
        let need : Needs code h = (p, len, at, inr (oi, runs, refl)) in
        let (keeps, later) = raised code s h inv le need in
        let (_, _, _, fits) = greatest-Explores code s h inv le need in
        let c = check_all heap code (byte code p) (successors code p len oi) (raised_state h) in
        subst (Round s)
          (sym (branch_lem heap code (flow (byte code p)) p (byte code p) (p + oi.size) h _))
          (go later fits c (
            check_all-Outcome heap code (byte code p) (successors code p len oi) (raised_state h)
              keeps (λ t i. came oi refl at runs i)))
      where
        h : ℕ
        h = after code p len oi

        go :
            Extends code s (raised_state h)
            → h ≤ greatest s h
            → (c : Checked H)
            → Outcome code (λ q. q ≡ p) (raised_state h) (successors code p len oi) c
            → Round s c
        go later fits (fail e t) o = o
        go later fits (pass t) (inv', later', all, same) =
            let on = Extends-trans code later later' in
            let e = on.levels p known in
            closed s t p inv'
              (
                oi,
                subst (λ (l : ℕ). CanRun code p l oi) (sym e) runs,
                subst (λ (l : ℕ). after code p l oi ≤ t.stack_len_max) (sym e)
                    (omega (arith, fits, later'.grows)),
                subst (λ (l : ℕ). All (Levelled code t) (successors code p l oi)) (sym e) all,
              )
              on same

    executed :
        (oi : JsOpcode)
        → instruction code p ≡ some oi
        → Round s (effect heap code p (byte code p) len oi s)
    unfolding effect raise too_long
    executed oi is =
        let at = inv.reached p known in
        let h = after code p len oi in
        elim (Bool-cases (ltb (length code) (p + oi.size))) [
          | inl out ↦ rw out (len, at, inr (oi, refl, is, ltb→lt _ _ out))
          | inr fits ↦ elim (Bool-cases (ltb len (popped code p (byte code p) oi))) [
            | inl under ↦ rw (fits, under) (len, oi, at, refl, is, ltb→lt _ _ under)
            | inr enough ↦
                let runs : CanRun code p len oi = record {
                  known = is;
                  within = ground arith;
                  enough = ground arith;
                } in
                elim (Bool-cases (ltb s.stack_len_max h && ltb js_stack_size_max h)) [
                  | inl long ↦ rw (fits, enough, long) (len, at, inr (oi, refl, runs, ground arith))
                  | inr short ↦
                      let cap = inv.bounded in
                      rw (fits, enough, short) (followed oi runs (ground arith))
                ]
          ]
        ]

    nowhere :
        short_opcode_info (byte code p) ≡ none
        → Round s (decode heap code p (byte code p) len none s)
    unfolding decode instruction
    nowhere missing =
        let absent : instruction code p ≡ none =
          elim (Bool-cases (byte code p == 0 || leb Opcodes.op_count (byte code p))) [
            | inl bad ↦ rw bad refl
            | inr good ↦ rw good missing
          ] in
        (len, inv.reached p known, refl, absent)

    somewhere :
        (oi : JsOpcode)
        → short_opcode_info (byte code p) ≡ some oi
        → Round s (decode heap code p (byte code p) len (some oi) s)
    unfolding decode instruction
    somewhere oi e = elim (Bool-cases (byte code p == 0 || leb Opcodes.op_count (byte code p))) [
      | inl bad ↦ rw bad (len, inv.reached p known, refl, rw bad refl)
      | inr good ↦ rw good (executed oi (rw good e))
    ]

    -- A round on the place, with the queue's other entries.
    pub visited : Round s (visit heap code p s)
    unfolding visit
    visited = elim (Option-cases (short_opcode_info (byte code p))) [
      | inl missing ↦
          subst (λ (o : Option JsOpcode). Round s (decode heap code p (byte code p) len o s))
            (sym missing) (nowhere missing)
      | inr (oi, e) ↦
          subst (λ (o : Option JsOpcode). Round s (decode heap code p (byte code p) len o s))
            (sym e) (somewhere oi e)
    ]
