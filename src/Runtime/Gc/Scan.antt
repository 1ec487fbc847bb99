-- ===== src/Runtime/Gc/Scan.antt =====
-- The second pass of the collector: what is still counted is kept, with all that it refers to.
use quick_js_swift.Base.{
  ℕ, zero, suc, ◌+◌, ◌<◌, ◌≡◌, refl, sym, ap, ◌∙◌, inl, inr, List, [], ◌∷◌, ◌++◌, false, ◌||◌, not,
  ltb, ◌==◌, ==_iff, length, length-append, Bool-cases, List-cases, get_elem?, Option, none, some,
  arith,
}
use mathlib.Core.Path.{subst}
use mathlib.Core.List.{append_assoc, append-nil}
use quick_js_swift.Runtime.Gc.{
  GcObject, GcState, update, assert, take_back, gc_scan_incref_child, mark_each, keep, scan_loop,
}
use quick_js_swift.Runtime.Gc.Counts.{
  one_if_self, count, count-append, total-append, count-unlinked, length_parts,
}
use quick_js_swift.Runtime.Gc.Children.{children, mark_children-children}
use quick_js_swift.Runtime.Gc.Decref.{refs, IsHeap}

module _ (contents : ℕ → GcObject) (s0 : GcState) where
  abbrev all : List ℕ
  all = s0.gc_obj_list

  -- An object is in use: it is counted for a reference that no object of the list holds, or one in
  -- use refers to it.
  pub data Live : ℕ → Type 0 where
    held_outside : (p : ℕ) → 0 < count p all → refs contents p all < s0.ref_count p → Live p
    held_by : {x : ℕ} (p : ℕ) → Live x → 0 < count p (children (contents x)) → Live p

  -- The objects `passed` are at the front of the list; of those `before`, the references are back
  -- on the counts, and of the next one those to its children `seen`.
  pub record Keeps (before seen passed : List ℕ) (s : GcState) : Type 0 where
    pub rest : List ℕ
    pub split : s.gc_obj_list ≡ passed ++ rest
    pub raised :
        (p : ℕ)
        → s.ref_count p + refs contents p all
          ≡ s0.ref_count p + (refs contents p before + count p seen)
    pub lists : (p : ℕ) → count p s.gc_obj_list + count p s.tmp_obj_list ≡ count p all
    pub aside : (p : ℕ) → 0 < count p s.tmp_obj_list → s.ref_count p ≡ 0
    pub held : (p : ℕ) → 0 < count p s.gc_obj_list → 0 < s.ref_count p
    pub live : (p : ℕ) → 0 < count p s.gc_obj_list → Live p
    pub unmarked : (p : ℕ) → 0 < count p passed → s.mark p ≡ 0
    pub running : s.aborted ≡ false

  module _ (heap : IsHeap contents s0) where
    child_kept :
        (before seen passed : List ℕ) (s : GcState) (p : ℕ)
        → Keeps before seen passed s
        → 0 < count p all
        → Live p
        → Keeps before (seen ++ (p ∷ [])) passed (gc_scan_incref_child s p)
    unfolding gc_scan_incref_child take_back
    child_kept before seen passed s p inv here alive =
        elim (Bool-cases (update s.ref_count p (s.ref_count p + 1) p == 1)) [
          | inl back ↦
              let waits : 0 < count p s.tmp_obj_list =
                ground (arith, inv.lists p, inv.held p, here) in
              rw back (record {
                rest = inv.rest ++ (p ∷ []);
                split =
                    ap (λ (l : List ℕ). l ++ (p ∷ [])) inv.split
                    ∙ append_assoc passed inv.rest (p ∷ []);
                raised = λ q. ground (arith, inv.raised q, count-append q seen (p ∷ []));
                lists = λ q. omega (
                  arith,
                  inv.lists q,
                  count-unlinked p q s.tmp_obj_list waits,
                  count-append q s.gc_obj_list (p ∷ []),
                );
                aside = λ q a. ground (
                  arith,
                  inv.aside q,
                  count-unlinked p q s.tmp_obj_list waits,
                  inv.lists q,
                  heap.once q,
                );
                held = λ q h. ground (arith, inv.held q, count-append q s.gc_obj_list (p ∷ []));
                live = λ q h. elim (Bool-cases (p == q)) [
                  | inl same ↦ subst Live ((==_iff p q).0 same) alive
                  | inr other ↦ inv.live q (ground (arith, count-append q s.gc_obj_list (p ∷ [])))
                ];
                unmarked = λ q h. ground (arith, inv.unmarked q);
                running = inv.running;
              })
          | inr stays ↦ rw stays (record {
            rest = inv.rest;
            split = inv.split;
            raised = λ q. ground (arith, inv.raised q, count-append q seen (p ∷ []));
            lists = inv.lists;
            aside = λ q a. ground (arith, inv.aside q);
            held = λ q h. ground (arith, inv.held q);
            live = inv.live;
            unmarked = inv.unmarked;
            running = inv.running;
          })
        ]

    children_kept :
        (before seen passed more : List ℕ) (s : GcState)
        → Keeps before seen passed s
        → ((p : ℕ) → 0 < count p more → (0 < count p all) × Live p)
        → Keeps before (seen ++ more) passed (mark_each gc_scan_incref_child s more)
    unfolding mark_each
    children_kept before seen passed [] s inv good =
        subst (λ (l : List ℕ). Keeps before l passed s) (sym (append-nil seen)) inv
    children_kept before seen passed (p ∷ more) s inv good =
        let here = good p (omega (arith, one_if_self p)) in
        let next = gc_scan_incref_child s p in
        subst (λ (l : List ℕ). Keeps before l passed (mark_each gc_scan_incref_child next more))
          (append_assoc seen (p ∷ []) more)
          (children_kept before (seen ++ (p ∷ [])) passed more next
            (child_kept before seen passed s p inv here.0 here.1)
            (λ q h. good q (omega (arith, h))))

    -- A round on the object behind those that are done.
    round_kept :
        (before others : List ℕ) (x : ℕ) (s : GcState)
        → (inv : Keeps before [] before s) → inv.rest ≡ x ∷ others
        → Keeps (before ++ (x ∷ [])) [] (before ++ (x ∷ [])) (keep contents x s)
    unfolding keep assert
    round_kept before others x s inv e =
        let listed : 0 < count x s.gc_obj_list = omega (
          arith,
          ap (count x) (inv.split ∙ ap (λ (l : List ℕ). before ++ l) e),
          count-append x before (x ∷ others),
          one_if_self x,
        ) in
        let counted : 0 < s.ref_count x = inv.held x listed in
        let in_all : 0 < count x all = omega (arith, inv.lists x, listed) in
        let s1 : GcState = record s {
          mark = update s.mark x 0;
          aborted = s.aborted || not (ltb 0 (s.ref_count x));
        } in
        let started : Keeps before [] (before ++ (x ∷ [])) s1 = record {
          rest = others;
          split =
              inv.split
              ∙ ap (λ (l : List ℕ). before ++ l) e
              ∙ sym (append_assoc before (x ∷ []) others);
          raised = inv.raised;
          lists = inv.lists;
          aside = inv.aside;
          held = inv.held;
          live = inv.live;
          unmarked = λ p h. ground (arith, inv.unmarked p, count-append p before (x ∷ []));
          running = ground (arith, inv.running);
        } in
        let s2 = mark_each gc_scan_incref_child s1 (children (contents x)) in
        let k =
          children_kept before [] (before ++ (x ∷ [])) (children (contents x)) s1 started
            (λ p h. (heap.closed x p in_all h, held_by p (inv.live x listed) h)) in
        let ends : Keeps (before ++ (x ∷ [])) [] (before ++ (x ∷ [])) s2 = record {
          rest = k.rest;
          split = k.split;
          raised = λ p. omega (
            arith,
            k.raised p,
            total-append (λ y. count p (children (contents y))) before (x ∷ []),
          );
          lists = k.lists;
          aside = k.aside;
          held = k.held;
          live = k.live;
          unmarked = k.unmarked;
          running = k.running;
        } in
        rw (mark_children-children gc_scan_incref_child s1 (contents x)) ends

    get_elem?-append : (xs ys : List ℕ) → get_elem? (xs ++ ys) (length xs) ≡ get_elem? ys 0
    get_elem?-append [] ys = refl
    get_elem?-append (x ∷ xs) ys = get_elem?-append xs ys

    -- What the loop does with the object at its place.
    abbrev next_round : ℕ → ℕ → GcState → Option ℕ → Option GcState
    next_round fuel i s none = some s
    next_round fuel i s (some p) = scan_loop contents fuel (i + 1) (keep contents p s)

    -- The loop ends, with every object of the list done.
    pub scan_loop_ends :
        (fuel : ℕ) (before : List ℕ) (s : GcState)
        → Keeps before [] before s
        → length all < fuel + length before
        → (t : GcState) × (scan_loop contents fuel (length before) s ≡ some t)
          × Keeps t.gc_obj_list [] t.gc_obj_list t
    unfolding scan_loop
    scan_loop_ends zero before s inv room = absurd (
        omega (
          arith,
          room,
          length_parts s.gc_obj_list s.tmp_obj_list all inv.lists,
          ap length inv.split,
          length-append before inv.rest,
        ))
    scan_loop_ends (suc fuel) before s inv room =
        let at =
          ap (λ (l : List ℕ). get_elem? l (length before)) inv.split
          ∙ get_elem?-append before inv.rest in
        elim (List-cases inv.rest) [
          | inl empty ↦
              let whole : s.gc_obj_list ≡ before =
                inv.split ∙ ap (λ (l : List ℕ). before ++ l) empty ∙ append-nil before in
              (
                s,
                ap (next_round fuel (length before) s)
                    (at ∙ ap (λ (l : List ℕ). get_elem? l 0) empty),
                subst (λ (l : List ℕ). Keeps l [] l s) (sym whole) inv,
              )
          | inr (x, others, e) ↦
              let longer : length (before ++ (x ∷ [])) ≡ length before + 1 =
                omega (arith, length-append before (x ∷ [])) in
              let (t, same, ends) =
                scan_loop_ends fuel (before ++ (x ∷ [])) (keep contents x s)
                  (round_kept before others x s inv e) (omega (arith, room, longer)) in
              (
                t,
                ap (next_round fuel (length before) s) (at ∙ ap (λ (l : List ℕ). get_elem? l 0) e)
                    ∙ ap (λ (i : ℕ). scan_loop contents fuel i (keep contents x s)) (sym longer)
                    ∙ same,
                ends,
              )
        ]
