-- ===== src/Tests/Cycles.antt =====
-- A small heap with a cycle that is in use and one that is not.
use quick_js_swift.Base.{
  ℕ, ◌≡◌, refl, List, [], ◌∷◌, Option, none, some, false, arith, ◌==◌, if◌then◌else◌,
}
use quick_js_swift.Runtime.Gc.{
  GcObject, js_object, var_ref, shape, plain, object, GcState, find_garbage,
}
use quick_js_swift.Runtime.Gc.Children.{children}
use quick_js_swift.Runtime.Gc.Decref.{IsHeap}
use quick_js_swift.Runtime.Gc.Garbage.{Sorts, find_garbage_lem}

-- 1 and 3 refer to each other, as do 4 and 5; 2 is the shape of 1 and 4.
abbrev contents : ℕ → GcObject
contents p =
    if p == 1
    then js_object 2 (some (plain (object 3)) ∷ []) []
    else if p == 3
    then var_ref (object 1)
    else if p == 4
    then js_object 2 (none ∷ some (plain (object 5)) ∷ []) []
    else if p == 5
    then var_ref (object 4)
    else shape none

-- One reference to 1 is from outside.
abbrev heap : GcState
heap = record {
  ref_count = λ p.
      if p == 1
      then 2
      else if p == 2
      then 2
      else if p == 3
      then 1
      else if p == 4
      then 1
      else if p == 5
      then 1
      else 0;
  mark = λ p. 0;
  gc_obj_list = 4 ∷ 5 ∷ 1 ∷ 2 ∷ 3 ∷ [];
  tmp_obj_list = [];
  aborted = false;
}

lists_of : Option GcState → List ℕ × List ℕ
lists_of none = ([], [])
lists_of (some s) = (s.gc_obj_list, s.tmp_obj_list)

sorted : lists_of (find_garbage contents heap) ≡ (1 ∷ 2 ∷ 3 ∷ [], 4 ∷ 5 ∷ [])
unfolding find_garbage lists_of
sorted = refl

heap-IsHeap : IsHeap contents heap
unfolding children
heap-IsHeap = record {
  once = λ p. ground arith;
  closed = λ x p h k. ground arith;
  counted = λ p. ground arith;
  unmarked = λ p h. refl;
  running = refl;
}

find_garbage_lem_example :
    (t : GcState) × (find_garbage contents heap ≡ some t) × Sorts contents heap t
find_garbage_lem_example = find_garbage_lem contents heap heap-IsHeap
