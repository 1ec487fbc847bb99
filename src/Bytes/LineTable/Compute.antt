-- ===== src/Bytes/LineTable/Compute.antt =====
-- Writing a table and looking lines up in it.
use quick_js_swift.Base.{
  ℕ, ◌-◌, if◌then◌else◌, ◌*◌, ◌^◌, ◌≤◌, ◌<◌, ◌≡◌, refl, sym, inl, inr, List, [], ◌∷◌, false, Option,
  some, length, length-append, arith, Bool-cases, ◌==◌, ◌||◌,
}
use mathlib.Core.List.{append-nil}
use quick_js_swift.Bytes.DynBuf.{DynBuf, dbuf_init2, contents}
use quick_js_swift.Bytes.DynBuf.Append.{Reallocates, IsValid}
use quick_js_swift.Bytes.DynBuf.Extend.{Writes, Writes-then, Serves, Extends}
use quick_js_swift.Bytes.LineTable.{
  FunctionDef, LineNumberSlot, int_lt, minus, slot_loop, compute, compute_pc2line_info,
  find_line_num, debug_pc2line_buf,
}
use quick_js_swift.Bytes.LineTable.Entry.{entry, length-entry, put_entry-Writes, put_entry_served}
use quick_js_swift.Bytes.LineTable.Lookup.{IsOrdered, last_line, table, find_loop-table}
use quick_js_swift.Bytes.LineTable.Kept.{
  only_line, slot_loop-only_line, table-only_line, Shrinks, debug_pc2line_buf-fresh,
  debug_pc2line_buf-contents,
}

length-table :
    (slots : List LineNumberSlot) (pc line : ℕ) → length (table slots pc line) ≤ length slots * 11
unfolding table
length-table [] pc line = omega arith
length-table (slot ∷ slots) pc line = elim (Bool-cases (int_lt slot.line_num 0)) [
  | inl negative ↦ rw negative (omega (arith, length-table slots pc line))
  | inr ok ↦ elim (Bool-cases (minus slot.line_num line == 0 || int_lt (minus slot.pc pc) 0)) [
    | inl stays ↦ rw (ok, stays) (omega (arith, length-table slots pc line))
    | inr put ↦
        let first = entry (minus slot.pc pc) (minus slot.line_num line) in
        rw (ok, put)
          (omega (
            arith,
            length-append first (table slots slot.pc slot.line_num),
            length-entry (minus slot.pc pc) (minus slot.line_num line),
            length-table slots slot.pc slot.line_num,
          ))
  ]
]

module _ {S : Type 0} (realloc : S → List ℕ → ℕ → S × Option (List ℕ)) where
  slot_loop-Writes :
      Reallocates realloc
      → (slots : List LineNumberSlot) (pc line : ℕ)
      → Writes (table slots pc line) (λ s. slot_loop realloc slots pc line s)
  unfolding slot_loop table
  slot_loop-Writes law [] pc line = record {
    sticky = λ s e. e;
    extends = λ s valid h. inr (valid, sym (append-nil (contents s)), refl);
  }
  slot_loop-Writes law (slot ∷ slots) pc line = elim (Bool-cases (int_lt slot.line_num 0)) [
    | inl negative ↦ rw negative (slot_loop-Writes law slots pc line)
    | inr ok ↦ elim (Bool-cases (minus slot.line_num line == 0 || int_lt (minus slot.pc pc) 0)) [
      | inl stays ↦ rw (ok, stays) (slot_loop-Writes law slots pc line)
      | inr put ↦
          rw (ok, put)
            (Writes-then _ _ _ _
              (put_entry-Writes realloc law (minus slot.pc pc) (minus slot.line_num line)
                (omega arith) (omega arith))
              (slot_loop-Writes law slots slot.pc slot.line_num))
    ]
  ]

  slot_loop_served :
      Serves realloc
      → (slots : List LineNumberSlot) (pc line : ℕ) (s : DynBuf S) → s.error ≡ false
      → (slot_loop realloc slots pc line s).error ≡ false
  unfolding slot_loop
  slot_loop_served serves [] pc line s e = e
  slot_loop_served serves (slot ∷ slots) pc line s e = elim (Bool-cases (int_lt slot.line_num 0)) [
    | inl negative ↦ rw negative (slot_loop_served serves slots pc line s e)
    | inr ok ↦ elim (Bool-cases (minus slot.line_num line == 0 || int_lt (minus slot.pc pc) 0)) [
      | inl stays ↦ rw (ok, stays) (slot_loop_served serves slots pc line s e)
      | inr put ↦
          rw (ok, put)
            (slot_loop_served serves slots slot.pc slot.line_num _
              (put_entry_served realloc serves (minus slot.pc pc) (minus slot.line_num line) s e))
    ]
  ]

  -- The lookup in what is kept of a buffer without an error.
  kept-last_line :
      (slots : List LineNumberSlot) (opaque : S) (line pc_value : ℕ)
      → Reallocates realloc
      → Shrinks realloc
      → IsOrdered 0 slots
      → length slots < 2 ^ 31
      → line < 2 ^ 31
      → let buf = slot_loop realloc slots 0 line (dbuf_init2 opaque) in
        buf.error ≡ false
        → find_line_num (debug_pc2line_buf realloc buf) line pc_value
          ≡ (if only_line line slots then 2 ^ 32 - 1 else last_line pc_value line slots)
  unfolding dbuf_init2 find_line_num
  kept-last_line slots opaque line pc_value law less o n l served =
      elim (Bool-cases (only_line line slots)) [
        | inl only ↦
            rw
              (
                only,
                slot_loop-only_line realloc slots 0 line (dbuf_init2 opaque) o l only,
                debug_pc2line_buf-fresh realloc opaque,
              )
              refl
        | inr others ↦
            let bytes = length-table slots 0 line in
            let (valid, held) =
              holds
                ((slot_loop-Writes law slots 0 line).extends (dbuf_init2 opaque) fresh-IsValid
                  (omega (arith, bytes)))
                served in
            let some_bytes = table-only_line slots 0 line o l others in
            rw
              (
                others,
                debug_pc2line_buf-contents realloc
                    (slot_loop realloc slots 0 line (dbuf_init2 opaque)) less valid
                    (rw held some_bytes),
                held,
              )
              (find_loop-table pc_value line slots _ 0 line (omega arith) o l)
      ]
    where
      fresh-IsValid : IsValid (dbuf_init2 opaque)
      fresh-IsValid = record { whole = refl; within = omega arith }

      holds :
          {bytes : List ℕ} {s' : DynBuf S}
          → Extends (dbuf_init2 opaque) bytes s'
          → s'.error ≡ false
          → IsValid s' × (contents s' ≡ bytes)
      holds (inl bad) ok = cc
      holds (inr (valid, c, _)) ok = (valid, c)

  -- With an allocator that serves, `compute_pc2line_info` leaves a table, without an error. In what
  -- `js_create_function` keeps of it, `find_line_num` finds for each place in the bytecode the line
  -- of the last slot at or before it, and the function's own line where there is none; but if no
  -- slot has another line than the function's, it finds -1 everywhere. The slots are in the order
  -- of the bytecode, and those with a negative line count for nothing.
  pub find_line_num-compute_pc2line_info :
      (opaque : S) (s : FunctionDef S) (slots : List LineNumberSlot) (pc_value : ℕ)
      → Reallocates realloc
      → Serves realloc
      → Shrinks realloc
      → s.strip ≡ false
      → s.line_number_slots ≡ some slots
      → IsOrdered 0 slots
      → length slots < 2 ^ 31
      → s.line_num < 2 ^ 31
      → let t = compute_pc2line_info realloc opaque s in
        (t.pc2line.error ≡ false)
        × (find_line_num (debug_pc2line_buf realloc t.pc2line) s.line_num pc_value ≡ (
            if only_line s.line_num slots then 2 ^ 32 - 1 else last_line pc_value s.line_num slots))
  unfolding compute_pc2line_info compute
  find_line_num-compute_pc2line_info opaque s slots pc_value law serves less keep has o n l =
      let clear : (dbuf_init2 opaque).error ≡ false = unfold dbuf_init2 in refl in
      let served = slot_loop_served serves slots 0 s.line_num (dbuf_init2 opaque) clear in
      rw (has, keep) (served, kept-last_line slots opaque s.line_num pc_value law less o n l served)
