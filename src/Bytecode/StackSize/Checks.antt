-- ===== src/Bytecode/StackSize/Checks.antt =====
-- What a check does to the table and the queue, and what it finds.
use quick_js_swift.Base.{
  ℕ, suc, zero, ◌+◌, ◌%◌, ◌^◌, ◌≤◌, ◌<◌, ◌≡◌, ◌≢◌, refl, ap, inl, inr, List, [], ◌∷◌, false, ◌&&◌,
  Option, none, some, ltb, leb, ◌==◌, ==_iff, if◌then◌else◌, length, get_or, set, Bool-cases, arith,
  leb→le,
}
use quick_js_swift.Runtime.Malloc.{MallocState, CHeap, JsArray, js_resize_array}
use quick_js_swift.Bytecode.StackSize.{
  buffer_overflow, stack_overflow, inconsistent, out_of_memory, js_stack_size_max, unexplored,
  StackSizeState, Checked, pass, fail, raise, too_long, queued, explore, ss_check,
}

pub get_or-set_self : (t : List ℕ) (q h d : ℕ) → q < length t → get_or (set t q h) q d ≡ h
get_or-set_self [] q h d lt = absurd (omega arith)
get_or-set_self (x ∷ t) zero h d lt = refl
get_or-set_self (x ∷ t) (suc q) h d lt = get_or-set_self t q h d (omega arith)

pub get_or-set_other : (t : List ℕ) (q p h d : ℕ) → p ≢ q → get_or (set t q h) p d ≡ get_or t p d
get_or-set_other [] q p h d ne = refl
get_or-set_other (x ∷ t) zero zero h d ne = absurd (ne refl)
get_or-set_other (x ∷ t) zero (suc p) h d ne = refl
get_or-set_other (x ∷ t) (suc q) zero h d ne = refl
get_or-set_other (x ∷ t) (suc q) (suc p) h d ne = get_or-set_other t q p h d (λ e. ne (ap suc e))

-- The level of a place, which is `unexplored` past the code.
abbrev pub level : {H : Type 0} → StackSizeState H → ℕ → ℕ
level s p = get_or s.stack_level_tab p unexplored

-- The places that have no level yet.
abbrev pub blanks : List ℕ → ℕ
blanks [] = 0
blanks (x ∷ t) = if x == unexplored then suc (blanks t) else blanks t

-- The places that a state has still to visit, found or not.
abbrev pub work : {H : Type 0} → StackSizeState H → ℕ
work s = blanks s.stack_level_tab + length s.pc_stack

pub blanks-set :
    (t : List ℕ) (q h : ℕ)
    → q < length t
    → get_or t q unexplored ≡ unexplored
    → h ≤ js_stack_size_max
    → blanks (set t q h) + 1 ≡ blanks t
blanks-set [] q h lt e le = absurd (omega arith)
blanks-set (x ∷ t) zero h lt e le = ground arith
blanks-set (x ∷ t) (suc q) h lt e le =
    let ih = blanks-set t q h (omega arith) e le in
    elim (Bool-cases (x == unexplored)) [ inl b ↦ rw b (omega arith) | inr n ↦ rw n ih ]

-- The greatest length after a check for `h`.
abbrev pub greatest : {H : Type 0} → StackSizeState H → ℕ → ℕ
greatest s h = if ltb s.stack_len_max h then h else s.stack_len_max

-- A place marked and queued.
abbrev pub marked :
    {H : Type 0} → StackSizeState H → ℕ → ℕ → MallocState H → JsArray → StackSizeState H
marked s q h memory slots = record {
  stack_len_max = greatest s h;
  stack_level_tab = set s.stack_level_tab q h;
  pc_stack = q ∷ s.pc_stack;
  slots = slots;
  memory = memory;
}

-- The outcomes of a check.
pub data Check {H : Type 0} (code : List ℕ) (s : StackSizeState H) (q op h : ℕ)
    : Checked H → Type 0 where
  outside : length code ≤ q → Check code s q op h (fail (buffer_overflow op q) s)
  over :
      {t : StackSizeState H}
      → js_stack_size_max < h
      → Check code s q op h (fail (stack_overflow op q) t)
  again :
      {t : StackSizeState H}
      → q < length code
      → h ≤ js_stack_size_max
      → level s q ≡ h
      → t ≡ record s { stack_len_max = greatest s h }
      → Check code s q op h (pass t)
  differs :
      {t : StackSizeState H}
      → level s q ≢ unexplored
      → level s q ≢ h
      → Check code s q op h (fail (inconsistent op q) t)
  refused : {t : StackSizeState H} → Check code s q op h (fail out_of_memory t)
  marks :
      (memory : MallocState H) (slots : JsArray) {t : StackSizeState H}
      → q < length code
      → h ≤ js_stack_size_max
      → level s q ≡ unexplored
      → t ≡ marked s q h memory slots
      → Check code s q op h (pass t)

not_eq : (a b : ℕ) → (a == b) ≡ false → a ≢ b
not_eq a b e = ground arith

no_truncation : (h : ℕ) → h ≤ js_stack_size_max → h % 2 ^ 16 ≡ h
no_truncation h le = omega arith

module _ {H : Type 0} (heap : CHeap H) (code : List ℕ) (s : StackSizeState H) (q op h : ℕ) where
  queued-Check :
      (mark : ℕ) (r : MallocState H × Option JsArray)
      → q < length code
      → h ≤ js_stack_size_max
      → level s q ≡ unexplored
      → mark ≡ h
      → Check code s q op h (
          queued
            (record s {
              stack_len_max = greatest s h;
              stack_level_tab = set s.stack_level_tab q mark;
            })
            q
            r)
  unfolding queued
  queued-Check mark (memory, none) lt le e m = refused
  queued-Check mark (memory, some slots) lt le e m = marks memory slots lt le e (
      ap
        (λ (x : ℕ). record (marked s q h memory slots) {
          stack_level_tab = set s.stack_level_tab q x;
        })
        m)

  explore-Check :
      q < length code
      → h ≤ js_stack_size_max
      → level s q ≡ unexplored
      → Check code s q op h (explore heap (raise s h) q h)
  unfolding explore raise
  explore-Check lt le e =
      queued-Check (h % 2 ^ 16) (js_resize_array heap s.memory s.slots 4 (length s.pc_stack + 1)) lt
        le e (no_truncation h le)

  -- A check has one of these outcomes.
  pub ss_check_lem :
      s.stack_len_max ≤ js_stack_size_max → Check code s q op h (ss_check heap code s q op h)
  unfolding ss_check too_long raise
  ss_check_lem cap = elim (Bool-cases (leb (length code) q)) [
    | inl out ↦ rw out (outside (leb→le _ _ out))
    | inr here ↦ elim (Bool-cases (ltb s.stack_len_max h && ltb js_stack_size_max h)) [
      | inl long ↦ rw (here, long) (over (ground arith))
      | inr fits ↦
          let le : h ≤ js_stack_size_max = ground arith in
          let lt : q < length code = ground arith in
          elim (Bool-cases (level s q == unexplored)) [
            | inl new ↦ rw (here, fits, new) (explore-Check lt le ((==_iff _ _).0 new))
            | inr old ↦ elim (Bool-cases (level s q == h)) [
              | inl same ↦ rw (here, fits, old, same) (again lt le ((==_iff _ _).0 same) refl)
              | inr other ↦
                  rw (here, fits, old, other) (differs (not_eq _ _ old) (not_eq _ _ other))
            ]
          ]
    ]
  ]
