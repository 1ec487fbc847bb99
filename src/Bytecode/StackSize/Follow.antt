-- ===== src/Bytecode/StackSize/Follow.antt =====
-- The checks of where an instruction goes on, one after the other.
use quick_js_swift.Base.{ℕ, ◌≡◌, refl, sym, ◌∙◌, inl, inr, List, [], ◌∷◌}
use mathlib.Core.Path.{subst}
use quick_js_swift.Runtime.Malloc.{CHeap}
use quick_js_swift.Bytecode.Flow.{
  Flow, stops, jumps, jumps16, jumps8, branches8, branches, calls_finally, with_value,
  with_reference, with_store, goes_on,
}
use quick_js_swift.Bytecode.StackSize.{StackSizeState, Checked, pass, fail, ss_check, ◌>>=◌, branch}
use quick_js_swift.Bytecode.StackSize.Runs.{In, targets, Comes, Comes-Reach}
use quick_js_swift.Bytecode.StackSize.Checks.{
  level, Check, outside, over, again, differs, refused, marks, ss_check_lem,
}
use quick_js_swift.Bytecode.StackSize.Exploration.{
  Explores, Extends-refl, Extends-trans, All_later, Outcome, raised, marked-Explores,
}

bind-pass : {H : Type 0} (c : Checked H) → (c >>= pass) ≡ c
bind-pass (pass s) = refl
bind-pass (fail e s) = refl

bind_eq :
    {H : Type 0} (c : Checked H) (f g : StackSizeState H → Checked H)
    → ((s : StackSizeState H) → f s ≡ g s)
    → (c >>= f) ≡ (c >>= g)
bind_eq (pass s) f g e = e s
bind_eq (fail x s) f g e = refl

module _ {H : Type 0} (heap : CHeap H) (code : List ℕ) where
  abbrev State : Type 0
  State = StackSizeState H

  -- The checks for some places, one after the other.
  pub check_all : ℕ → List (ℕ × ℕ) → State → Checked H
  check_all op [] s = pass s
  check_all op ((q, h) ∷ ts) s = ss_check heap code s q op h >>= check_all op ts

  two_checks :
      (s : State) (q op h next len : ℕ)
      → (ss_check heap code s q op h >>= λ t. ss_check heap code t next op len)
        ≡ check_all op ((q, h) ∷ (next, len) ∷ []) s
  unfolding check_all
  two_checks s q op h next len =
      bind_eq (ss_check heap code s q op h) (λ t. ss_check heap code t next op len)
        (check_all op ((next, len) ∷ [])) (λ t. sym (bind-pass _))

  pub branch_lem :
      (f : Flow) (pos op next len : ℕ) (s : State)
      → branch heap f code pos op next len s ≡ check_all op (targets f code pos next len) s
  unfolding branch check_all targets
  branch_lem stops pos op next len s = refl
  branch_lem jumps pos op next len s = sym (bind-pass _)
  branch_lem jumps16 pos op next len s = sym (bind-pass _)
  branch_lem jumps8 pos op next len s = sym (bind-pass _)
  branch_lem goes_on pos op next len s = sym (bind-pass _)
  branch_lem branches8 pos op next len s = two_checks s _ op _ next len
  branch_lem branches pos op next len s = two_checks s _ op _ next len
  branch_lem calls_finally pos op next len s = two_checks s _ op _ next len
  branch_lem with_value pos op next len s = two_checks s _ op _ next len
  branch_lem with_reference pos op next len s = two_checks s _ op _ next len
  branch_lem with_store pos op next len s = two_checks s _ op _ next len

  pub check_Outcome :
      {Open : ℕ → Type 0} {c : Checked H} (s : State) (q op h : ℕ)
      → Explores code Open s
      → Comes code op q h
      → Check code s q op h c
      → Outcome code Open s ((q, h) ∷ []) c
  check_Outcome s q op h inv at (outside out) = (h, Comes-Reach code at, inl (at, out))
  check_Outcome s q op h inv at (over long) = (h, Comes-Reach code at, inl (at, long))
  check_Outcome s q op h inv at (differs old ne) = (level s q, h, inv.reached q old, at, ne)
  check_Outcome s q op h inv at refused = tt
  check_Outcome {Open} s q op h inv at (again lt le same e) =
      let (keeps, later) = raised code s h inv le (q, h, Comes-Reach code at, inl refl) in
      subst (λ (t : State). Outcome code Open s ((q, h) ∷ []) (pass t)) (sym e)
        (keeps, later, ((same, le), tt), refl)
  check_Outcome {Open} s q op h inv at (marks memory slots lt le new e) =
      subst (λ (t : State). Outcome code Open s ((q, h) ∷ []) (pass t)) (sym e)
        (marked-Explores code s q h memory slots inv lt le new (Comes-Reach code at))

  bind-Outcome :
      {Open : ℕ → Type 0} (s : State) (x : ℕ × ℕ) (ts : List (ℕ × ℕ)) (c : Checked H)
      (f : State → Checked H)
      → Outcome code Open s (x ∷ []) c
      → ((t : State) → Explores code Open t → Outcome code Open t ts (f t))
      → Outcome code Open s (x ∷ ts) (c >>= f)
  bind-Outcome {Open} s x ts (fail e t) f o k = o
  bind-Outcome {Open} s x ts (pass t) f (inv, later, (at, _), same) k = go (f t) (k t inv)
    where
      go : (c : Checked H) → Outcome code Open t ts c → Outcome code Open s (x ∷ ts) c
      go (fail e u) o = o
      go (pass u) (inv', later', all, same') = (
        inv',
        Extends-trans code later later',
        ((All_later code later' (x ∷ []) (at, tt)).0, all),
        same' ∙ same,
      )

  pub check_all-Outcome :
      {Open : ℕ → Type 0} (op : ℕ) (ts : List (ℕ × ℕ)) (s : State)
      → Explores code Open s
      → ((t : ℕ × ℕ) → In t ts → Comes code op t.0 t.1)
      → Outcome code Open s ts (check_all op ts s)
  unfolding check_all
  check_all-Outcome op [] s inv at = (inv, Extends-refl code s, tt, refl)
  check_all-Outcome op ((q, h) ∷ ts) s inv at =
      bind-Outcome s (q, h) ts (ss_check heap code s q op h) (check_all op ts)
        (check_Outcome s q op h inv (at (q, h) (inl refl))
          (ss_check_lem heap code s q op h inv.bounded))
        (λ t inv'. check_all-Outcome op ts t inv' (λ x i. at x (inr i)))
