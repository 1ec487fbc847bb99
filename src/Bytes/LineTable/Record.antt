-- ===== src/Bytes/LineTable/Record.antt =====
-- Recording lines while code is emitted: leaving out a line that is already in force does not
-- show in the table.
use quick_js_swift.Base.{
  ◌-◌, Bool, ℕ, ◌+◌, ◌^◌, ◌≤◌, ◌<◌, ◌≡◌, refl, sym, ap, ◌∙◌, inl, inr, List, [], ◌∷◌, ◌++◌, true,
  false, Option, some, leb, length, length-append, arith, Bool-cases, if◌then◌else◌, ◌==◌, ==_iff,
  ◌&&◌, leb→le, le→leb, lt→ltb, All,
}
use quick_js_swift.Bytes.DynBuf.Append.{Reallocates}
use quick_js_swift.Bytes.DynBuf.Extend.{Serves}
use quick_js_swift.Bytes.LineTable.{
  FunctionDef, LineNumberSlot, int_lt, compute_pc2line_info, find_line_num, add_slot,
  add_pc2line_info, debug_pc2line_buf,
}
use quick_js_swift.Bytes.LineTable.Lookup.{IsOrdered, IsOrdered-lt, IsOrdered-weaken, last_line}
use quick_js_swift.Bytes.LineTable.Kept.{
  only_line, only_line-append, only_line-nil, only_line-cons, last_line-only_line, Shrinks,
}
use quick_js_swift.Bytes.LineTable.Slots.{
  last_line-append, UpTo, UpTo-weaken, UpTo-append, IsOrdered-append, last_line_one,
}
use quick_js_swift.Bytes.LineTable.Compute.{find_line_num-compute_pc2line_info}

-- Calls of `add_pc2line_info`, in the order of the bytecode.
unfoldable pub add_all : {S : Type 0} → FunctionDef S → List LineNumberSlot → FunctionDef S
add_all s [] = s
add_all s (call ∷ calls) = add_all (add_pc2line_info s call.pc call.line_num) calls

abbrev pub AreLines : List LineNumberSlot → Type 0
AreLines calls = All (λ (call : LineNumberSlot). call.line_num < 2 ^ 31) calls

module _ {S : Type 0} where
  -- `slots` are those of `s`; from the last place on they give the last line.
  pub record Tracks (s : FunctionDef S) (slots : List LineNumberSlot) : Type 0 where
    pub has : s.line_number_slots ≡ some slots
    pub ordered : IsOrdered 0 slots
    pub behind : UpTo s.line_number_last_pc slots
    pub in_force :
        (q : ℕ) → s.line_number_last_pc ≤ q → last_line q s.line_num slots ≡ s.line_number_last

  -- What adding a slot does to the lines that are found.
  record Adds (s : FunctionDef S) (slots : List LineNumberSlot) (call : LineNumberSlot)
      (s' : FunctionDef S) : Type 0 where
    now : List LineNumberSlot
    tracks : Tracks s' now
    longer : length now ≤ length slots + 1
    last : s'.line_number_last_pc ≤ call.pc
    finds :
        (q : ℕ)
        → last_line q s.line_num now ≡ last_line q (last_line q s.line_num slots) (call ∷ [])
    only :
        only_line s.line_num now ≡ (only_line s.line_num slots && only_line s.line_num (call ∷ []))
    same_line : s'.line_num ≡ s.line_num
    same_size : s'.line_number_size ≡ s.line_number_size
    same_strip : s'.strip ≡ s.strip

  add_pc2line_info_same :
      (s : FunctionDef S) (slots : List LineNumberSlot) (pc line : ℕ)
      → s.line_number_slots ≡ some slots
      → length slots < s.line_number_size
      → s.line_number_last_pc ≤ pc
      → (line == s.line_number_last) ≡ true
      → add_pc2line_info s pc line ≡ s
  unfolding add_pc2line_info add_slot
  add_pc2line_info_same s slots pc line has room later same =
      rw (has, lt→ltb _ _ room, le→leb _ _ later, same)

  add_pc2line_info_other :
      (s : FunctionDef S) (slots : List LineNumberSlot) (call : LineNumberSlot)
      → s.line_number_slots ≡ some slots
      → length slots < s.line_number_size
      → s.line_number_last_pc ≤ call.pc
      → (call.line_num == s.line_number_last) ≡ false
      → add_pc2line_info s call.pc call.line_num ≡ record s {
        line_number_slots = some (slots ++ (call ∷ []));
        line_number_last_pc = call.pc;
        line_number_last = call.line_num;
      }
  unfolding add_pc2line_info add_slot
  add_pc2line_info_other s slots call has room later other =
      rw (has, lt→ltb _ _ room, le→leb _ _ later, other)

  -- A call for the line in force is for the function's line, if all slots are.
  only_same :
      (s : FunctionDef S) (slots : List LineNumberSlot) (call : LineNumberSlot)
      → Tracks s slots
      → (call.line_num == s.line_number_last) ≡ true
      → only_line s.line_num slots
        ≡ (only_line s.line_num slots && only_line s.line_num (call ∷ []))
  unfolding only_line
  only_same s slots call t same = elim (Bool-cases (only_line s.line_num slots)) [
    | inr others ↦ rw others refl
    | inl only ↦
        let q = s.line_number_last_pc in
        let line : call.line_num ≡ s.line_num =
          (==_iff _ _).0 same
          ∙ sym (t.in_force q (omega arith))
          ∙ last_line-only_line q s.line_num slots only in
        let is_line : (call.line_num == s.line_num) ≡ true = (==_iff _ _).1 line in
        elim (Bool-cases (int_lt call.line_num 0)) [
          | inl negative ↦ rw (only, negative) refl
          | inr ok ↦ rw (only, ok, is_line) refl
        ]
  ]

  add_pc2line_info-Adds :
      (s : FunctionDef S) (slots : List LineNumberSlot) (call : LineNumberSlot)
      → Tracks s slots
      → length slots < s.line_number_size
      → s.line_number_last_pc ≤ call.pc
      → call.pc < 2 ^ 31
      → call.line_num < 2 ^ 31
      → Adds s slots call (add_pc2line_info s call.pc call.line_num)
  add_pc2line_info-Adds s slots call t room later p l =
      elim (Bool-cases (call.line_num == s.line_number_last)) [
        | inl same ↦
            rw (add_pc2line_info_same s slots call.pc call.line_num t.has room later same) (record {
              now = slots;
              tracks = t;
              longer = omega arith;
              last = later;
              finds = λ q.
                  rw (last_line_one q (last_line q s.line_num slots) call l)
                    (elim (Bool-cases (leb call.pc q)) [
                      | inl reached ↦ rw reached (
                          t.in_force q (omega (arith, leb→le _ _ reached))
                          ∙ sym ((==_iff _ _).0 same))
                      | inr before ↦ rw before
                    ]);
              only = only_same s slots call t same;
              same_line = refl;
              same_size = refl;
              same_strip = refl;
            })
        | inr other ↦ rw (add_pc2line_info_other s slots call t.has room later other) (record {
          now = slots ++ (call ∷ []);
          tracks = record {
            has = refl;
            ordered =
                IsOrdered-append 0 slots call t.ordered (UpTo-weaken _ _ slots later t.behind)
                  (omega arith) p (omega arith);
            behind =
                UpTo-append call.pc slots call (omega arith) (UpTo-weaken _ _ slots later t.behind);
            in_force = λ q h.
                last_line-append q s.line_num slots (call ∷ [])
                ∙ last_line_one q _ call l
                ∙ rw (le→leb _ _ h);
          };
          longer = omega (arith, length-append slots (call ∷ []));
          last = omega arith;
          finds = λ q. last_line-append q s.line_num slots (call ∷ []);
          only = only_line-append s.line_num slots (call ∷ []);
          same_line = refl;
          same_size = refl;
          same_strip = refl;
        })
      ]

  -- The slots after all calls, and the lines that they give.
  record AddsAll (s : FunctionDef S) (slots : List LineNumberSlot) (line : ℕ → ℕ)
      (calls : List LineNumberSlot) (s' : FunctionDef S) : Type 0 where
    now : List LineNumberSlot
    tracks : Tracks s' now
    within : length now ≤ s.line_number_size
    finds : (q : ℕ) → last_line q s.line_num now ≡ last_line q (line q) calls
    only : only_line s.line_num now ≡ (only_line s.line_num slots && only_line s.line_num calls)
    same_line : s'.line_num ≡ s.line_num
    same_strip : s'.strip ≡ s.strip

  add_all-AddsAll :
      (calls : List LineNumberSlot) (s : FunctionDef S) (slots : List LineNumberSlot)
      → Tracks s slots
      → length slots + length calls ≤ s.line_number_size
      → IsOrdered s.line_number_last_pc calls
      → AreLines calls
      → AddsAll s slots (λ q. last_line q s.line_num slots) calls (add_all s calls)
  unfolding add_all
  add_all-AddsAll [] s slots t room o l = record {
    now = slots;
    tracks = t;
    within = omega arith;
    finds = λ q. unfold last_line in refl;
    only = sym (only_line-nil s.line_num slots);
    same_line = refl;
    same_strip = refl;
  }
  add_all-AddsAll (call ∷ calls) s slots t room o l =
      let one =
        add_pc2line_info-Adds s slots call t (omega arith) o.0 (IsOrdered-lt call.pc calls o.2)
          l.0 in
      let rest =
        add_all-AddsAll calls (add_pc2line_info s call.pc call.line_num) one.now one.tracks
          (omega (arith, one.longer, one.same_size)) (IsOrdered-weaken _ call.pc calls one.last o.2)
          l.1 in
      record {
        now = rest.now;
        tracks = rest.tracks;
        within = omega (arith, rest.within, one.same_size);
        finds = λ q.
            ap (λ (n : ℕ). last_line q n rest.now) (sym one.same_line)
            ∙ rest.finds q
            ∙ ap (λ (n : ℕ). last_line q (last_line q n one.now) calls) one.same_line
            ∙ ap (λ (l : ℕ). last_line q l calls) (one.finds q)
            ∙ sym (last_line-append q (last_line q s.line_num slots) (call ∷ []) calls);
        only =
            ap (λ (n : ℕ). only_line n rest.now) (sym one.same_line)
            ∙ rest.only
            ∙ ap (λ (n : ℕ). only_line n one.now && only_line n calls) one.same_line
            ∙ ap (λ (b : Bool). b && only_line s.line_num calls) one.only
            ∙ only_line-cons s.line_num slots call calls;
        same_line = rest.same_line ∙ one.same_line;
        same_strip = rest.same_strip ∙ one.same_strip;
      }

  -- As `resolve_labels` sets it up: no slots yet, and the function's own line in force.
  abbrev pub IsFresh : FunctionDef S → Type 0
  IsFresh s =
      (s.line_number_slots ≡ some [])
      × (s.line_number_last ≡ s.line_num)
      × (s.line_number_last_pc ≡ 0)

  fresh-Tracks : (s : FunctionDef S) → IsFresh s → Tracks s []
  fresh-Tracks s fresh = record {
    has = fresh.0;
    ordered = omega arith;
    behind = tt;
    in_force = λ q h. unfold last_line in sym fresh.1;
  }

-- Recording a line for each call of `add_pc2line_info`, in the order of the bytecode and with room
-- for all slots, and then writing the table, without an error when the allocator serves:
-- in what `js_create_function` keeps of it, `find_line_num` finds the line of the last call at or
-- before a place, or the function's own line where there is none. But if all calls are for the
-- function's own line, nothing is written, and it finds -1. Lines are not negative; a call for the
-- line in force adds no slot.
pub find_line_num-add_all :
    {S : Type 0} (realloc : S → List ℕ → ℕ → S × Option (List ℕ)) (opaque : S) (s : FunctionDef S)
    (calls : List LineNumberSlot) (pc_value : ℕ)
    → Reallocates realloc
    → Serves realloc
    → Shrinks realloc
    → s.strip ≡ false
    → IsFresh s
    → IsOrdered 0 calls
    → AreLines calls
    → length calls ≤ s.line_number_size
    → s.line_number_size < 2 ^ 31
    → s.line_num < 2 ^ 31
    → let t = compute_pc2line_info realloc opaque (add_all s calls) in
      (t.pc2line.error ≡ false)
      × (find_line_num (debug_pc2line_buf realloc t.pc2line) s.line_num pc_value ≡ (
          if only_line s.line_num calls then 2 ^ 32 - 1 else last_line pc_value s.line_num calls))
find_line_num-add_all realloc opaque s calls pc_value law serves less keep fresh o lines room n l =
    let all : AddsAll s [] (λ q. last_line q s.line_num []) calls (add_all s calls) =
      add_all-AddsAll calls s [] (fresh-Tracks s fresh) (omega arith) (rw fresh.2 o) lines in
    let found =
      find_line_num-compute_pc2line_info realloc opaque (add_all s calls) all.now pc_value law
        serves less (all.same_strip ∙ keep) all.tracks.has all.tracks.ordered
        (omega (arith, all.within, n)) (omega (arith, all.same_line, l)) in
    let empty : last_line pc_value s.line_num [] ≡ s.line_num = unfold last_line in refl in
    let kept =
      debug_pc2line_buf realloc (compute_pc2line_info realloc opaque (add_all s calls)).pc2line in
    let lookup = λ (n : ℕ). find_line_num kept n pc_value in
    let expect =
      λ (n : ℕ). if only_line n all.now then 2 ^ 32 - 1 else last_line pc_value n all.now in
    let nothing : only_line s.line_num [] ≡ true = unfold only_line in refl in
    let found_line = λ (b : Bool) (n : ℕ). if b then 2 ^ 32 - 1 else n in
    (
      found.0,
      ap lookup (sym all.same_line)
          ∙ found.1
          ∙ ap expect all.same_line
          ∙ ap (λ (b : Bool). found_line b (last_line pc_value s.line_num all.now))
              (all.only ∙ ap (λ (b : Bool). b && only_line s.line_num calls) nothing)
          ∙ ap (found_line (only_line s.line_num calls))
              (all.finds pc_value ∙ ap (λ (n : ℕ). last_line pc_value n calls) empty),
    )
