-- ===== src/Runtime/Gc/Garbage.antt =====
-- What the passes of the collector find: the garbage stands aside, the rest is in use, and the
-- counts are what they were.
use quick_js_swift.Base.{
  ℕ, ◌+◌, ◌<◌, ◌≡◌, ◌↔◌, refl, ap, ◌∙◌, List, [], ◌∷◌, false, length, Option, none, some, arith,
}
use quick_js_swift.Runtime.Gc.{
  GcObject, GcState, gc_scan_incref_child2, mark_each, restore_loop, gc_decref, gc_scan,
  find_garbage,
}
use quick_js_swift.Runtime.Gc.Counts.{count, le-total, total_parts}
use quick_js_swift.Runtime.Gc.Children.{children, mark_children-children}
use quick_js_swift.Runtime.Gc.Decref.{refs, IsHeap, gc_decref-Lowered}
use quick_js_swift.Runtime.Gc.Scan.{Live, held_outside, held_by, Keeps, scan_loop_ends}

-- A state with other counts.
abbrev counted_as : GcState → (ℕ → ℕ) → GcState
counted_as s f = record s { ref_count = f }

-- The states agree but for what `added` puts on the counts.
record Restores (added : ℕ → ℕ) (s t : GcState) : Type 0 where
  raised : (p : ℕ) → t.ref_count p ≡ s.ref_count p + added p
  same_list : t.gc_obj_list ≡ s.gc_obj_list
  same_aside : t.tmp_obj_list ≡ s.tmp_obj_list
  same_marks : t.mark ≡ s.mark
  same_flag : t.aborted ≡ s.aborted

restore_each :
    (ps : List ℕ) (s : GcState)
    → Restores (λ p. count p ps) s (mark_each gc_scan_incref_child2 s ps)
unfolding mark_each gc_scan_incref_child2
restore_each [] s = record {
  raised = λ p. omega arith;
  same_list = refl;
  same_aside = refl;
  same_marks = refl;
  same_flag = refl;
}
restore_each (q ∷ ps) s =
    let k = restore_each ps (gc_scan_incref_child2 s q) in
    record {
      raised = λ p. ground (arith, k.raised p);
      same_list = k.same_list;
      same_aside = k.same_aside;
      same_marks = k.same_marks;
      same_flag = k.same_flag;
    }

module _ (contents : ℕ → GcObject) where
  restored :
      (xs : List ℕ) (s : GcState)
      → Restores (λ p. refs contents p xs) s (restore_loop contents xs s)
  unfolding restore_loop
  restored [] s = record {
    raised = λ p. omega arith;
    same_list = refl;
    same_aside = refl;
    same_marks = refl;
    same_flag = refl;
  }
  restored (x ∷ xs) s =
      let s1 = mark_each gc_scan_incref_child2 s (children (contents x)) in
      let k = restore_each (children (contents x)) s in
      let m = restored xs s1 in
      rw (mark_children-children gc_scan_incref_child2 s (contents x)) (record {
        raised = λ p. omega (arith, k.raised p, m.raised p);
        same_list = m.same_list ∙ k.same_list;
        same_aside = m.same_aside ∙ k.same_aside;
        same_marks = m.same_marks ∙ k.same_marks;
        same_flag = m.same_flag ∙ k.same_flag;
      })

  -- After the passes, the list holds the objects that are in use, unmarked, each object is on it
  -- or aside, every count is as before, and no assertion has failed.
  pub record Sorts (s t : GcState) : Type 0 where
    pub in_use : (p : ℕ) → (0 < count p t.gc_obj_list) ↔ Live contents s p
    pub shared : (p : ℕ) → count p t.gc_obj_list + count p t.tmp_obj_list ≡ count p s.gc_obj_list
    pub counts : (p : ℕ) → t.ref_count p ≡ s.ref_count p
    pub unmarked : (p : ℕ) → 0 < count p t.gc_obj_list → t.mark p ≡ 0
    pub running : t.aborted ≡ false

  module _ (s : GcState) (heap : IsHeap contents s) where
    -- The end of the first loop of `gc_scan`.
    module _ (t : GcState) (ends : Keeps contents s t.gc_obj_list [] t.gc_obj_list t) where
      -- What is counted, and on either list, is on the one that is kept.
      counted_kept :
          (p : ℕ)
          → 0 < count p s.gc_obj_list
          → refs contents p s.gc_obj_list < s.ref_count p + refs contents p t.gc_obj_list
          → 0 < count p t.gc_obj_list
      counted_kept p here more = ground (arith, ends.raised p, ends.aside p, ends.lists p)

      live_kept : (p : ℕ) → Live contents s p → 0 < count p t.gc_obj_list
      live_kept p (held_outside _ here more) = counted_kept p here (omega arith)
      live_kept p (held_by {x} _ alive child) =
          let at = live_kept x alive in
          let listed : 0 < count x s.gc_obj_list = omega (arith, ends.lists x, at) in
          counted_kept p (heap.closed x p listed child) (
            omega (
              arith,
              heap.counted p,
              le-total (λ y. count p (children (contents y))) x t.gc_obj_list at,
              child,
            ))

      sorted : Sorts s (restore_loop contents t.tmp_obj_list t)
      sorted =
          let k = restored t.tmp_obj_list t in
          record {
            in_use = λ p. (
              λ h. ends.live p (rw k.same_list at h),
              λ alive. rw k.same_list (live_kept p alive),
            );
            shared = λ p. rw (k.same_list, k.same_aside) (ends.lists p);
            counts = λ p. omega (
              arith,
              k.raised p,
              ends.raised p,
              total_parts t.gc_obj_list t.tmp_obj_list s.gc_obj_list ends.lists
                  (λ y. count p (children (contents y))),
            );
            unmarked =
                λ p h. ap (λ (m : ℕ → ℕ). m p) k.same_marks ∙ ends.unmarked p (rw k.same_list at h);
            running = k.same_flag ∙ ends.running;
          }

    started : Keeps contents s [] [] [] (gc_decref contents s)
    started =
        let low = gc_decref-Lowered contents s heap in
        record {
          rest = (gc_decref contents s).gc_obj_list;
          split = refl;
          raised = λ p. omega (arith, low.outside p);
          lists = low.lists;
          aside = low.aside;
          held = low.held;
          live = λ p h.
              held_outside p (omega (arith, low.lists p, h))
                (omega (arith, low.outside p, low.held p h));
          unmarked = λ p h. absurd (omega arith);
          running = low.running;
        }

    -- In a heap where each object is on the list once, unmarked, refers to objects on the list and
    -- is counted for each reference from one of them at least, the passes of the collector end
    -- within their fuel. Then the list holds exactly the objects that are in use, that is, reached
    -- from one that is counted for a reference from outside, and these are unmarked; all others
    -- stand aside; every count is as before; and no assertion has failed on the way.
    pub find_garbage_lem : (t : GcState) × (find_garbage contents s ≡ some t) × Sorts s t
    unfolding find_garbage gc_scan
    find_garbage_lem =
        let (t, same, ends) =
          scan_loop_ends contents s heap (length s.gc_obj_list + 1) [] (gc_decref contents s)
            started (omega arith) in
        (
          restore_loop contents t.tmp_obj_list t,
          ap
              (λ (o : Option GcState). elim o [
                | none ↦ none
                | some u ↦ some (restore_loop contents u.tmp_obj_list u)
              ])
              same,
          sorted t ends,
        )
