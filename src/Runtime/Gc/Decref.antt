-- ===== src/Runtime/Gc/Decref.antt =====
-- The first pass of the collector: the references between objects come off the counts, and the
-- objects that are left without one are set aside.
use quick_js_swift.Base.{
  ℕ, ◌+◌, ◌-◌, ◌≤◌, ◌<◌, ◌≡◌, ◌⊎◌, refl, sym, ap, ◌∙◌, inl, inr, List, [], ◌∷◌, ◌++◌, Bool, true,
  false, ◌&&◌, ◌||◌, not, ltb, ◌==◌, Bool-cases, arith,
}
use mathlib.Core.Path.{subst}
use mathlib.Core.List.{append_assoc, append-nil}
use quick_js_swift.Runtime.Gc.{
  GcObject, GcState, update, assert, set_aside, gc_decref_child, decref_done, mark_each,
  decref_loop, gc_decref,
}
use quick_js_swift.Runtime.Gc.Counts.{
  one_if_self, count, total, count-append, total-append, count-unlinked,
}
use quick_js_swift.Runtime.Gc.Children.{children, mark_children-children}

-- How often the objects of a list refer to `p`.
abbrev pub refs : (ℕ → GcObject) → ℕ → List ℕ → ℕ
refs contents p = total (λ x. count p (children (contents x)))

-- The objects before a collection: each is on the list once, refers to objects on the list, and
-- is counted for every reference from one of them, at least.
pub record IsHeap (contents : ℕ → GcObject) (s : GcState) : Type 0 where
  pub once : (p : ℕ) → count p s.gc_obj_list ≤ 1
  pub closed :
      (x p : ℕ)
      → 0 < count x s.gc_obj_list
      → 0 < count p (children (contents x))
      → 0 < count p s.gc_obj_list
  pub counted : (p : ℕ) → refs contents p s.gc_obj_list ≤ s.ref_count p
  pub unmarked : (p : ℕ) → 0 < count p s.gc_obj_list → s.mark p ≡ 0
  pub running : s.aborted ≡ false

module _ (contents : ℕ → GcObject) (s0 : GcState) (heap : IsHeap contents s0) where
  abbrev all : List ℕ
  all = s0.gc_obj_list

  -- The objects `passed` are done, and the children `seen` of the next one.
  record Lowers (passed seen : List ℕ) (s : GcState) : Type 0 where
    lowered : (p : ℕ) → s.ref_count p + (refs contents p passed + count p seen) ≡ s0.ref_count p
    lists : (p : ℕ) → count p s.gc_obj_list + count p s.tmp_obj_list ≡ count p all
    aside : (p : ℕ) → 0 < count p s.tmp_obj_list → (0 < count p passed) × (s.ref_count p ≡ 0)
    uncounted : (p : ℕ) → 0 < count p passed → s.ref_count p ≡ 0 → 0 < count p s.tmp_obj_list
    marks :
        (p : ℕ)
        → 0 < count p all
        → ((0 < count p passed) × (s.mark p ≡ 1)) ⊎ ((count p passed ≡ 0) × (s.mark p ≡ 0))
    running : s.aborted ≡ false

  abbrev minus_one : GcState → ℕ → GcState
  minus_one s p = record s {
    ref_count = update s.ref_count p (s.ref_count p - 1);
    aborted = s.aborted || not (ltb 0 (s.ref_count p));
  }

  -- One reference to `p` is taken off.
  child_kept :
      (passed seen : List ℕ) (s : GcState) (p : ℕ)
      → Lowers passed seen s
      → 0 < count p all
      → refs contents p passed + count p seen < s0.ref_count p
      → Lowers passed (seen ++ (p ∷ [])) (gc_decref_child s p)
  unfolding gc_decref_child assert set_aside
  child_kept passed seen s p inv here more =
      let pos : 0 < s.ref_count p = omega (arith, inv.lowered p) in
      elim (Bool-cases ((minus_one s p).ref_count p == 0 && s.mark p == 1)) [
        | inl out ↦
            let done : 0 < count p passed = ground (arith, inv.marks p here) in
            let listed : 0 < count p s.gc_obj_list =
              ground (arith, inv.lists p, inv.aside p, here, pos) in
            rw out (record {
              lowered = λ q. ground (arith, inv.lowered q, count-append q seen (p ∷ []));
              lists = λ q. omega (
                arith,
                inv.lists q,
                count-unlinked p q s.gc_obj_list listed,
                count-append q s.tmp_obj_list (p ∷ []),
              );
              aside = λ q a. ground (arith, inv.aside q, count-append q s.tmp_obj_list (p ∷ []));
              uncounted = λ q a z.
                  ground (arith, inv.uncounted q a, count-append q s.tmp_obj_list (p ∷ []));
              marks = inv.marks;
              running = ground (arith, inv.running);
            })
        | inr stays ↦ rw stays (record {
          lowered = λ q. ground (arith, inv.lowered q, count-append q seen (p ∷ []));
          lists = inv.lists;
          aside = λ q a. ground (arith, inv.aside q a);
          uncounted = λ q a z. ground (arith, inv.uncounted q a, inv.marks p here);
          marks = inv.marks;
          running = ground (arith, inv.running);
        })
      ]

  children_kept :
      (passed seen rest : List ℕ) (s : GcState)
      → Lowers passed seen s
      → ((p : ℕ) → 0 < count p rest → 0 < count p all)
      → ((p : ℕ) → refs contents p passed + count p (seen ++ rest) ≤ s0.ref_count p)
      → Lowers passed (seen ++ rest) (mark_each gc_decref_child s rest)
  unfolding mark_each
  children_kept passed seen [] s inv closed room =
      subst (λ (l : List ℕ). Lowers passed l s) (sym (append-nil seen)) inv
  children_kept passed seen (p ∷ rest) s inv closed room =
      let same = append_assoc seen (p ∷ []) rest in
      let fits : (q : ℕ)
          → refs contents q passed + count q ((seen ++ (p ∷ [])) ++ rest) ≤ s0.ref_count q =
        λ q. omega (arith, room q, ap (count q) same) in
      let here : 0 < count p (p ∷ rest) = omega (arith, one_if_self p) in
      let less : refs contents p passed + count p seen < s0.ref_count p =
        omega (arith, room p, count-append p seen (p ∷ rest), here) in
      subst (λ (l : List ℕ). Lowers passed l (mark_each gc_decref_child (gc_decref_child s p) rest))
        same
        (children_kept passed (seen ++ (p ∷ [])) rest (gc_decref_child s p)
          (child_kept passed seen s p inv (closed p here) less) (λ q h. closed q (omega (arith, h)))
          fits)

  -- The object `x` is done.
  done_kept :
      (passed : List ℕ) (x : ℕ) (s : GcState)
      → Lowers passed (children (contents x)) s
      → 0 < count x all
      → count x passed ≡ 0
      → Lowers (passed ++ (x ∷ [])) [] (decref_done x s)
  unfolding decref_done set_aside
  done_kept passed x s inv here fresh =
      let refs_of =
        λ (q : ℕ). total-append (λ y. count q (children (contents y))) passed (x ∷ []) in
      let in_passed = λ (q : ℕ). count-append q passed (x ∷ []) in
      let marked : (q : ℕ)
          → 0 < count q all
          → ((0 < count q (passed ++ (x ∷ []))) × (update s.mark x 1 q ≡ 1))
            ⊎ ((count q (passed ++ (x ∷ [])) ≡ 0) × (update s.mark x 1 q ≡ 0)) =
        λ q h. elim (Bool-cases (x == q)) [
          | inl same ↦ inl (ground (arith, in_passed q))
          | inr other ↦ ground (arith, in_passed q, inv.marks q h)
        ] in
      elim (Bool-cases (s.ref_count x == 0)) [
        | inl out ↦
            let listed : 0 < count x s.gc_obj_list = ground (arith, inv.lists x, inv.aside x) in
            rw out (record {
              lowered = λ q. omega (arith, inv.lowered q, refs_of q);
              lists = λ q. omega (
                arith,
                inv.lists q,
                count-unlinked x q s.gc_obj_list listed,
                count-append q s.tmp_obj_list (x ∷ []),
              );
              aside = λ q a.
                  ground (arith, inv.aside q, count-append q s.tmp_obj_list (x ∷ []), in_passed q);
              uncounted = λ q a z.
                  ground
                    (arith, inv.uncounted q, count-append q s.tmp_obj_list (x ∷ []), in_passed q);
              marks = marked;
              running = inv.running;
            })
        | inr stays ↦ rw stays (record {
          lowered = λ q. omega (arith, inv.lowered q, refs_of q);
          lists = inv.lists;
          aside = λ q a. ground (arith, inv.aside q a, in_passed q);
          uncounted = λ q a z. ground (arith, inv.uncounted q, in_passed q);
          marks = marked;
          running = inv.running;
        })
      ]

  asserted :
      (passed seen : List ℕ) (b : Bool) (s : GcState)
      → b ≡ true
      → Lowers passed seen s
      → Lowers passed seen (assert b s)
  unfolding assert
  asserted passed seen b s e inv = record {
    lowered = inv.lowered;
    lists = inv.lists;
    aside = inv.aside;
    uncounted = inv.uncounted;
    marks = inv.marks;
    running = ground (arith, inv.running, e);
  }

  loop_kept :
      (passed rest : List ℕ) (s : GcState)
      → passed ++ rest ≡ all
      → Lowers passed [] s
      → Lowers all [] (decref_loop contents rest s)
  unfolding decref_loop
  loop_kept passed [] s e inv =
      subst (λ (l : List ℕ). Lowers l [] s) (sym (append-nil passed) ∙ e) inv
  loop_kept passed (x ∷ rest) s e inv =
      let in_all : (q : ℕ) → count q passed + count q (x ∷ rest) ≡ count q all =
        λ q. sym (count-append q passed (x ∷ rest)) ∙ ap (count q) e in
      let refs_all : (q : ℕ)
          → refs contents q passed + refs contents q (x ∷ rest) ≡ refs contents q all =
        λ q.
          sym (total-append (λ y. count q (children (contents y))) passed (x ∷ rest))
          ∙ ap (refs contents q) e in
      let here : 0 < count x all = omega (arith, in_all x, one_if_self x) in
      let fresh : count x passed ≡ 0 = omega (arith, in_all x, one_if_self x, heap.once x) in
      let unmarked : (s.mark x == 0) ≡ true = ground (arith, inv.marks x here) in
      let s1 = assert (s.mark x == 0) s in
      let s2 = mark_each gc_decref_child s1 (children (contents x)) in
      let started = asserted passed [] (s.mark x == 0) s unmarked inv in
      let inv2 =
        children_kept passed [] (children (contents x)) s1 started (λ p h. heap.closed x p here h)
          (λ p. omega (arith, refs_all p, heap.counted p)) in
      rw (mark_children-children gc_decref_child s1 (contents x)) (
        loop_kept (passed ++ (x ∷ [])) rest (decref_done x s2)
          (append_assoc passed (x ∷ []) rest ∙ e) (done_kept passed x s2 inv2 here fresh))

  -- The state after the pass: an object has the count of the references from outside, and stands
  -- aside if there is none.
  pub record Lowered (s : GcState) : Type 0 where
    pub outside : (p : ℕ) → s.ref_count p + refs contents p all ≡ s0.ref_count p
    pub lists : (p : ℕ) → count p s.gc_obj_list + count p s.tmp_obj_list ≡ count p all
    pub aside : (p : ℕ) → 0 < count p s.tmp_obj_list → s.ref_count p ≡ 0
    pub held : (p : ℕ) → 0 < count p s.gc_obj_list → 0 < s.ref_count p
    pub running : s.aborted ≡ false

  pub gc_decref-Lowered : Lowered (gc_decref contents s0)
  unfolding gc_decref
  gc_decref-Lowered =
      let inv =
        loop_kept [] all (record s0 { tmp_obj_list = [] }) refl
          (record {
            lowered = λ p. omega arith;
            lists = λ p. omega arith;
            aside = λ p h. absurd (omega arith);
            uncounted = λ p h. absurd (omega arith);
            marks = λ p h. inr (refl, heap.unmarked p h);
            running = heap.running;
          }) in
      record {
        outside = λ p. omega (arith, inv.lowered p);
        lists = inv.lists;
        aside = λ p h. (inv.aside p h).1;
        held = λ p h. ground (arith, inv.uncounted p, inv.lists p, heap.once p);
        running = inv.running;
      }
