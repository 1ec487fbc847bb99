-- ===== src/Bytecode/StackSize/Exploration.antt =====
-- The state of the exploration, through the checks of one instruction.
use quick_js_swift.Base.{
  ℕ, ◌≤◌, ◌<◌, ◌≡◌, ◌≢◌, ◌⊎◌, refl, sym, ap, ◌∙◌, inl, inr, List, [], ◌∷◌, length, All, arith, ltb,
  length-set, Bool-cases, ltb→lt,
}
use mathlib.Core.Path.{subst}
use native.Mathlib.Decide.{ℕ_discrete}
use quick_js_swift.Runtime.Malloc.{MallocState, JsArray}
use quick_js_swift.Bytecode.Opcodes.{JsOpcode}
use quick_js_swift.Bytecode.StackSize.{
  js_stack_size_max, unexplored, StackSizeState, Checked, pass, fail,
}
use quick_js_swift.Bytecode.StackSize.Runs.{In, CanRun, after, successors, Reach, Needs, HasFault}
use quick_js_swift.Bytecode.StackSize.Checks.{
  level, blanks-set, work, greatest, marked, get_or-set_self, get_or-set_other,
}

-- What holds of each entry, by what it implies.
pub All_pending : {P Q : ℕ → Type 0} → ((p : ℕ) → P p → Q p) → (ps : List ℕ) → All P ps → All Q ps
All_pending f [] a = tt
All_pending f (p ∷ ps) (a, rest) = (f p a, All_pending f ps rest)

module _ {H : Type 0} (code : List ℕ) where
  -- A place and a length are in the table.
  abbrev pub Levelled : StackSizeState H → ℕ × ℕ → Type 0
  Levelled s t = (level s t.0 ≡ t.1) × (t.1 ≤ js_stack_size_max)

  -- The instruction of a place runs there, and where it goes on is in the table.
  abbrev pub Settled : StackSizeState H → ℕ → Type 0
  Settled s p =
      (oi : JsOpcode) × CanRun code p (level s p) oi
      × (after code p (level s p) oi ≤ s.stack_len_max)
      × All (Levelled s) (successors code p (level s p) oi)

  -- What holds of a state, with the places `Open` being worked on.
  pub record Explores (Open : ℕ → Type 0) (s : StackSizeState H) : Type 0 where
    pub sized : length s.stack_level_tab ≡ length code
    pub bounded : s.stack_len_max ≤ js_stack_size_max
    pub reached : (p : ℕ) → level s p ≢ unexplored → Reach code p (level s p)
    pub below : (p : ℕ) → level s p ≢ unexplored → level s p ≤ s.stack_len_max
    pub settled : (p : ℕ) → level s p ≢ unexplored → In p s.pc_stack ⊎ Settled s p ⊎ Open p
    pub pending : All (λ p. level s p ≢ unexplored) s.pc_stack
    pub needed : Needs code s.stack_len_max

  -- A later state has the levels of an earlier one.
  pub record Extends (s t : StackSizeState H) : Type 0 where
    pub levels : (p : ℕ) → level s p ≢ unexplored → level t p ≡ level s p
    pub grows : s.stack_len_max ≤ t.stack_len_max

  pub Extends-refl : (s : StackSizeState H) → Extends s s
  Extends-refl s = record { levels = λ p e. refl; grows = omega arith }

  pub Extends-trans : {s t u : StackSizeState H} → Extends s t → Extends t u → Extends s u
  Extends-trans a b = record {
    levels = λ p e. let k = a.levels p e in b.levels p (λ n. e (sym k ∙ n)) ∙ k;
    grows = omega (arith, a.grows, b.grows);
  }

  pub Levelled-later :
      {s t : StackSizeState H} → Extends s t → (x : ℕ × ℕ) → Levelled s x → Levelled t x
  Levelled-later e x (at, le) = (e.levels x.0 (λ n. absurd (omega arith)) ∙ at, le)

  pub All_later :
      {s t : StackSizeState H}
      → Extends s t
      → (ts : List (ℕ × ℕ)) → All (Levelled s) ts
      → All (Levelled t) ts
  All_later e [] a = tt
  All_later e (x ∷ ts) (a, rest) = (Levelled-later e x a, All_later e ts rest)

  pub Settled-later :
      {s t : StackSizeState H}
      → Extends s t
      → (p : ℕ) → level s p ≢ unexplored
      → Settled s p
      → Settled t p
  Settled-later {s} {t} e p known (oi, runs, le, all) =
      let same = e.levels p known in
      let here : Settled s p = (oi, runs, le, all) in
      (
        oi,
        subst (λ (l : ℕ). CanRun code p l oi) (sym same) runs,
        subst (λ (l : ℕ). after code p l oi ≤ t.stack_len_max) (sym same)
            (omega (arith, le, e.grows)),
        subst (λ (l : ℕ). All (Levelled t) (successors code p l oi)) (sym same)
            (All_later e (successors code p (level s p) oi) all),
      )

  -- What the checks for some places come to.
  abbrev pub Outcome : (ℕ → Type 0) → StackSizeState H → List (ℕ × ℕ) → Checked H → Type 0
  Outcome Open s ts (pass t) =
      Explores Open t × Extends s t × All (Levelled t) ts × (work t ≡ work s)
  Outcome Open s ts (fail e t) = HasFault code e

  -- A greater length that a run needs.
  pub greatest-Explores :
      {Open : ℕ → Type 0} (s : StackSizeState H) (h : ℕ)
      → Explores Open s
      → h ≤ js_stack_size_max
      → Needs code h
      → (greatest s h ≤ js_stack_size_max)
        × Needs code (greatest s h)
        × (s.stack_len_max ≤ greatest s h)
        × (h ≤ greatest s h)
  greatest-Explores s h inv le need = elim (Bool-cases (ltb s.stack_len_max h)) [
    | inl more ↦ rw more (le, need, omega (arith, ltb→lt _ _ more), omega arith)
    | inr less ↦ rw less (inv.bounded, inv.needed, omega arith, ground arith)
  ]

  pub raised :
      {Open : ℕ → Type 0} (s : StackSizeState H) (h : ℕ)
      → Explores Open s
      → h ≤ js_stack_size_max
      → Needs code h
      → Explores Open (record s { stack_len_max = greatest s h })
        × Extends s (record s { stack_len_max = greatest s h })
  raised {Open} s h inv le need =
      let t : StackSizeState H = record s { stack_len_max = greatest s h } in
      let (cap, needs, more, _) = greatest-Explores s h inv le need in
      let later : Extends s t = record { levels = λ p e. refl; grows = more } in
      (
        record {
          sized = inv.sized;
          bounded = cap;
          reached = inv.reached;
          below = λ p e. omega (arith, inv.below p e, more);
          settled = λ p e. elim (inv.settled p e) [
            | inl waits ↦ inl waits
            | inr (inl done) ↦ inr (inl (Settled-later later p e done))
            | inr (inr now) ↦ inr (inr now)
          ];
          pending = inv.pending;
          needed = needs;
        },
        later,
      )

  pub marked-Explores :
      {Open : ℕ → Type 0} (s : StackSizeState H) (q h : ℕ) (memory : MallocState H)
      (slots : JsArray)
      → Explores Open s
      → q < length code
      → h ≤ js_stack_size_max
      → level s q ≡ unexplored
      → Reach code q h
      → Outcome Open s ((q, h) ∷ []) (pass (marked s q h memory slots))
  marked-Explores {Open} s q h memory slots inv lt le new at =
      let t = marked s q h memory slots in
      let need : Needs code h = (q, h, at, inl refl) in
      let (cap, needs, more, fits) = greatest-Explores s h inv le need in
      let lt' : q < length s.stack_level_tab = omega (arith, lt, inv.sized) in
      let here : level t q ≡ h = get_or-set_self s.stack_level_tab q h unexplored lt' in
      let old : (p : ℕ) → p ≢ q → level t p ≡ level s p =
        λ p ne. get_or-set_other s.stack_level_tab q p h unexplored ne in
      let later : Extends s t = record {
        levels = λ p e. old p (λ same. e (ap (level s) same ∙ new));
        grows = more;
      } in
      (
        record {
          sized = length-set s.stack_level_tab q h ∙ inv.sized;
          bounded = cap;
          reached = λ p e. elim (ℕ_discrete p q) [
            | yes same ↦ rw (same, here) at
            | no other ↦ rw (old p other) (inv.reached p (rw (old p other) at e))
          ];
          below = λ p e. elim (ℕ_discrete p q) [
            | yes same ↦ rw (same, here) fits
            | no other ↦ omega (arith, old p other, inv.below p (rw (old p other) at e), more)
          ];
          settled = λ p e. elim (ℕ_discrete p q) [
            | yes same ↦ inl (inl same)
            | no other ↦
                let e' : level s p ≢ unexplored = rw (old p other) at e in
                elim (inv.settled p e') [
                  | inl waits ↦ inl (inr waits)
                  | inr (inl done) ↦ inr (inl (Settled-later later p e' done))
                  | inr (inr now) ↦ inr (inr now)
                ]
          ];
          pending = (
            λ n. absurd (omega (arith, here, n)),
            All_pending (λ p e n. e (sym (later.levels p e) ∙ n)) s.pc_stack inv.pending,
          );
          needed = needs;
        },
        later,
        ((here, le), tt),
        omega (arith, blanks-set s.stack_level_tab q h lt' new le),
      )
