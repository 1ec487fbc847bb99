-- ===== src/Bytecode/StackSize/Rounds.antt =====
-- The loop of `compute_stack_size`, round by round to its end, and the verdict that it comes to.
use quick_js_swift.Base.{
  ℕ, suc, zero, ◌+◌, ◌*◌, ◌≤◌, ◌<◌, ◌≡◌, ◌≢◌, ◌⊎◌, refl, ap, ◌∙◌, inl, inr, List, [], ◌∷◌, Option,
  some, ◌==◌, length, All, map, get_or, arith, Bool-cases, List-cases,
}
use mathlib.Core.Path.{subst}
use quick_js_swift.Runtime.Malloc.{MallocState, CHeap, js_def_malloc}
use quick_js_swift.Bytecode.StackSize.{
  StackError, out_of_memory, unexplored, StackSizeState, Checked, pass, fail, ss_check, visit, loop,
  finish, start, explored, compute_stack_size,
}
use quick_js_swift.Bytecode.StackSize.Runs.{In, entered, started, HasFault}
use quick_js_swift.Bytecode.StackSize.Checks.{level, blanks, work, ss_check_lem}
use quick_js_swift.Bytecode.StackSize.Exploration.{Explores, Outcome}
use quick_js_swift.Bytecode.StackSize.Visit.{Round, visited}
use quick_js_swift.Bytecode.StackSize.Follow.{check_Outcome}

module _ {H : Type 0} (heap : CHeap H) (code : List ℕ) where
  abbrev pub State : Type 0
  State = StackSizeState H

  -- The outcome at the end of the loop.
  abbrev pub Ends : Checked H → Type 0
  Ends (pass s) = Explores code (λ _. ⊥) s × (level s 0 ≡ 0) × (s.pc_stack ≡ [])
  Ends (fail e s) = HasFault code e

  -- What holds between the rounds.
  abbrev Goes : Checked H → Type 0
  Goes (pass s) = Explores code (λ _. ⊥) s × (level s 0 ≡ 0)
  Goes (fail e s) = HasFault code e

  abbrev cost : Checked H → ℕ
  cost (pass s) = work s
  cost (fail e s) = 0

  opened :
      (s : State) (p : ℕ) (rest : List ℕ)
      → Explores code (λ _. ⊥) s
      → s.pc_stack ≡ p ∷ rest
      → Explores code (λ q. q ≡ p) (record s { pc_stack = rest }) × (level s p ≢ unexplored)
  opened s p rest inv e =
      let (first, others) = subst (All (λ q. level s q ≢ unexplored)) e inv.pending in
      (
        record {
          sized = inv.sized;
          bounded = inv.bounded;
          reached = inv.reached;
          below = inv.below;
          settled = λ q n. elim (inv.settled q n) [
            | inl waits ↦ elim (subst (In q) e waits) [
              | inl now ↦ inr (inr now)
              | inr later ↦ inl later
            ]
            | inr (inl done) ↦ inr (inl done)
            | inr (inr never) ↦ absurd never
          ];
          pending = others;
          needed = inv.needed;
        },
        first,
      )

  from_round :
      (s : State) (c : Checked H) → Round heap code s c → level s 0 ≡ 0 → Goes c × (cost c ≤ work s)
  from_round s (pass t) (inv, later, same) first =
      let kept = later.levels 0 (λ e. absurd (omega (arith, first, e))) in
      ((inv, kept ∙ first), omega (arith, same))
  from_round s (fail e t) fault first = (fault, omega arith)

  -- What the loop does with the queue of a state.
  abbrev next_round : ℕ → State → List ℕ → Option (Checked H)
  next_round fuel s [] = some (pass s)
  next_round fuel s (p ∷ rest) =
      loop heap fuel code (visit heap code p (record s { pc_stack = rest }))

  -- The loop ends, with fuel for the places that are left.
  loop-Ends :
      (fuel : ℕ) (c : Checked H)
      → Goes c
      → cost c < fuel
      → (d : Checked H) × (loop heap fuel code c ≡ some d) × Ends d
  unfolding loop
  loop-Ends zero c g h = absurd (omega arith)
  loop-Ends (suc fuel) (fail e s) g h = (fail e s, refl, g)
  loop-Ends (suc fuel) (pass s) g h = elim (List-cases s.pc_stack) [
    | inl empty ↦ (pass s, ap (next_round fuel s) empty, (g.0, g.1, empty))
    | inr (p, rest, e) ↦
        let (inv, known) = opened s p rest g.0 e in
        let s0 = record s { pc_stack = rest } in
        let (on, less) =
          from_round s0 (visit heap code p s0) (visited heap code s0 p known inv) g.1 in
        let (d, same, good) =
          loop-Ends fuel (visit heap code p s0) on (omega (arith, less, h, ap length e)) in
        (d, ap (next_round fuel s) e ∙ same, good)
  ]

  no_level : (t : List ℕ) (p : ℕ) → get_or (map (λ _. unexplored) t) p unexplored ≡ unexplored
  no_level [] p = refl
  no_level (x ∷ t) zero = refl
  no_level (x ∷ t) (suc p) = no_level t p

  all_blank : (t : List ℕ) → blanks (map (λ _. unexplored) t) ≡ length t
  all_blank [] = refl
  all_blank (x ∷ t) = ap suc (all_blank t)

  start-Explores : (memory : MallocState H) → Explores code (λ _. ⊥) (start heap code memory)
  unfolding start
  start-Explores memory = record {
    sized = length-map_const code;
    bounded = omega arith;
    reached = λ p e. absurd (e (no_level code p));
    below = λ p e. absurd (e (no_level code p));
    settled = λ p e. absurd (e (no_level code p));
    pending = tt;
    needed = (0, 0, entered, inl refl);
  }
    where
      length-map_const : (t : List ℕ) → length (map (λ _. unexplored) t) ≡ length t
      length-map_const [] = refl
      length-map_const (x ∷ t) = ap suc (length-map_const t)

  from_check :
      (s : State) (c : Checked H)
      → Outcome code (λ _. ⊥) s ((0, 0) ∷ []) c
      → Goes c × (cost c ≤ work s)
  from_check s (pass u) (inv, later, at, same) = ((inv, at.0.0), omega (arith, same))
  from_check s (fail e u) fault = (fault, omega arith)

  -- The exploration ends.
  explored-Ends :
      (memory : MallocState H) → (d : Checked H) × (explored heap code memory ≡ some d) × Ends d
  unfolding explored start
  explored-Ends memory =
      let s = start heap code memory in
      let inv = start-Explores memory in
      let c = ss_check heap code s 0 0 0 in
      let (goes, less) = from_check s c (
        check_Outcome heap code s 0 0 0 inv started (ss_check_lem heap code s 0 0 0 inv.bounded)) in
      loop-Ends (length code + 1) c goes (omega (arith, less, all_blank code))

  -- What a result says.
  abbrev pub Verdict : StackError ⊎ ℕ → Type 0
  Verdict (inl e) = HasFault code e
  Verdict (inr size) = (s : State) × Ends (pass s) × (s.stack_len_max ≡ size)

  finished : (tab : ℕ) (d : Checked H) → Ends d → Verdict (finish heap tab d).1
  unfolding finish
  finished tab (pass s) good = (s, good, refl)
  finished tab (fail e s) fault = fault

  pub returns :
      (memory : MallocState H)
      → (r : MallocState H × (StackError ⊎ ℕ)) × (compute_stack_size heap code memory ≡ some r)
        × Verdict r.1
  unfolding compute_stack_size
  returns memory =
      let block = js_def_malloc heap memory (2 * length code) in
      let (d, same, good) = explored-Ends block.0 in
      elim (Bool-cases (block.1 == 0)) [
        | inl null ↦ ((block.0, inl out_of_memory), rw null refl, tt)
        | inr there ↦ (finish heap block.1 d, rw (there, same) refl, finished block.1 d good)
      ]

  pub verdict :
      (memory : MallocState H) (r : MallocState H × (StackError ⊎ ℕ))
      → compute_stack_size heap code memory ≡ some r
      → Verdict r.1
  verdict memory r h =
      let (r', e, v) = returns memory in
      let same : r' ≡ r = cc in subst (λ (x : MallocState H × (StackError ⊎ ℕ)). Verdict x.1) same v
