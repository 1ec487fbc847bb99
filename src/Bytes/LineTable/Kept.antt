-- ===== src/Bytes/LineTable/Kept.antt =====
-- What `js_create_function` keeps of a table: nothing where no entry was written, and else all of
-- its bytes.
use quick_js_swift.Base.{
  ℕ, ◌^◌, ◌≤◌, ◌<◌, ◌≡◌, refl, sym, ap, inl, inr, List, [], ◌∷◌, ◌++◌, Bool, true, false, Option,
  none, some, leb, length, length-append, arith, Bool-cases, Option-cases, ◌==◌, ==_iff, ◌&&◌, ◌||◌,
  take,
}
use quick_js_swift.Bytes.DynBuf.{DynBuf, contents, dbuf_init2}
use quick_js_swift.Bytes.DynBuf.Append.{IsValid}
use quick_js_swift.Bytes.LineTable.{
  LineNumberSlot, int_lt, minus, slot_loop, shrunk, debug_pc2line_buf,
}
use quick_js_swift.Bytes.LineTable.Entry.{entry, entry_pos}
use quick_js_swift.Bytes.LineTable.Lookup.{
  IsOrdered, IsOrdered-lt, IsOrdered-weaken, last_line, table, slot_cases, table_negative,
  table_same, table_put,
}

-- Every slot has the line, those with negative lines left out.
unfoldable pub only_line : ℕ → List LineNumberSlot → Bool
only_line line [] = true
only_line line (slot ∷ slots) =
    (int_lt slot.line_num 0 || slot.line_num == line) && only_line line slots

pub only_line-append :
    (line : ℕ) (xs ys : List LineNumberSlot)
    → only_line line (xs ++ ys) ≡ only_line line xs && only_line line ys
unfolding only_line
only_line-append line [] ys = refl
only_line-append line (x ∷ xs) ys = elim (Bool-cases (int_lt x.line_num 0 || x.line_num == line)) [
  | inl has ↦ rw has (only_line-append line xs ys)
  | inr other ↦ rw other refl
]

pub only_line-nil :
    (line : ℕ) (slots : List LineNumberSlot)
    → (only_line line slots && only_line line []) ≡ only_line line slots
unfolding only_line
only_line-nil line slots = elim (Bool-cases (only_line line slots)) [
  | inl only ↦ rw only refl
  | inr others ↦ rw others refl
]

pub only_line-cons :
    (line : ℕ) (slots : List LineNumberSlot) (call : LineNumberSlot) (calls : List LineNumberSlot)
    → ((only_line line slots && only_line line (call ∷ [])) && only_line line calls)
      ≡ (only_line line slots && only_line line (call ∷ calls))
only_line-cons line slots call calls = elim (Bool-cases (only_line line slots)) [
  | inl only ↦ rw only (sym (only_line-append line (call ∷ []) calls))
  | inr others ↦ rw others refl
]

false_not_true : false ≡ true → ⊥
false_not_true h = cc

-- Then that line is found everywhere.
pub last_line-only_line :
    (q line : ℕ) (slots : List LineNumberSlot)
    → only_line line slots ≡ true
    → last_line q line slots ≡ line
unfolding only_line last_line
last_line-only_line q line [] e = refl
last_line-only_line q line (slot ∷ slots) e = elim (Bool-cases (int_lt slot.line_num 0)) [
  | inl negative ↦ rw negative (last_line-only_line q line slots (rw negative at e))
  | inr ok ↦ elim (Bool-cases (slot.line_num == line)) [
    | inr other ↦ absurd (false_not_true (rw (ok, other) at e))
    | inl same ↦
        let rest = last_line-only_line q line slots (rw (ok, same) at e) in
        elim (Bool-cases (leb slot.pc q)) [
          | inl reached ↦ rw (ok, reached, (==_iff _ _).0 same) rest
          | inr later ↦ rw (ok, later) rest
        ]
  ]
]

other_line :
    (slot : LineNumberSlot) (pc line : ℕ)
    → slot.line_num < 2 ^ 32
    → line < 2 ^ 31
    → (minus slot.line_num line == 0 || int_lt (minus slot.pc pc) 0) ≡ false
    → (slot.line_num == line) ≡ false
other_line slot pc line k l put = elim (Bool-cases (slot.line_num == line)) [
  | inl same ↦
      let zero : (minus slot.line_num line == 0) ≡ true = ground arith in
      absurd (false_not_true (sym (rw zero at put)))
  | inr other ↦ other
]

-- Slots that have the function's line make no entry,
pub slot_loop-only_line :
    {S : Type 0} (realloc : S → List ℕ → ℕ → S × Option (List ℕ)) (slots : List LineNumberSlot)
    (pc line : ℕ) (s : DynBuf S)
    → IsOrdered pc slots
    → line < 2 ^ 31
    → only_line line slots ≡ true
    → slot_loop realloc slots pc line s ≡ s
unfolding slot_loop only_line
slot_loop-only_line realloc [] pc line s o l e = refl
slot_loop-only_line realloc (slot ∷ slots) pc line s o l e =
    elim (slot_cases slot pc line o.0 (IsOrdered-lt slot.pc slots o.2) o.1 l) [
      | inl negative ↦ rw negative (
          slot_loop-only_line realloc slots pc line s (IsOrdered-weaken pc slot.pc slots o.0 o.2) l
            (rw negative at e))
      | inr (inl (ok, same, zero)) ↦
          rw (ok, zero)
            (slot_loop-only_line realloc slots pc line s (IsOrdered-weaken pc slot.pc slots o.0 o.2)
              l (rw (ok, (==_iff slot.line_num line).1 same) at e))
      | inr (inr (ok, put, small)) ↦
          absurd (false_not_true (rw (ok, other_line slot pc line o.1 l put) at e))
    ]

-- and any other slot makes one.
pub table-only_line :
    (slots : List LineNumberSlot) (pc line : ℕ)
    → IsOrdered pc slots
    → line < 2 ^ 31
    → only_line line slots ≡ false
    → 0 < length (table slots pc line)
unfolding only_line
table-only_line [] pc line o l e = cc
table-only_line (slot ∷ slots) pc line o l e =
    elim (slot_cases slot pc line o.0 (IsOrdered-lt slot.pc slots o.2) o.1 l) [
      | inl negative ↦ rw (table_negative slot slots pc line negative) (
          table-only_line slots pc line (IsOrdered-weaken pc slot.pc slots o.0 o.2) l
            (rw negative at e))
      | inr (inl (ok, same, zero)) ↦ rw (table_same slot slots pc line ok zero) (
          table-only_line slots pc line (IsOrdered-weaken pc slot.pc slots o.0 o.2) l
            (rw (ok, (==_iff slot.line_num line).1 same) at e))
      | inr (inr (ok, put, small)) ↦
          let first = entry (minus slot.pc pc) (minus slot.line_num line) in
          rw (table_put slot slots pc line ok put) (
            omega (
              arith,
              length-append first (table slots slot.pc slot.line_num),
              entry_pos (minus slot.pc pc) (minus slot.line_num line),
            ))
    ]

module _ {S : Type 0} (realloc : S → List ℕ → ℕ → S × Option (List ℕ)) where
  -- A smaller block has the first bytes of the old one.
  abbrev pub Shrinks : Type 0
  Shrinks =
      (s : S) (buf : List ℕ) (n : ℕ) (out : List ℕ)
      → (realloc s buf n).1 ≡ some out
      → n ≤ length buf
      → out ≡ take n buf

  pub debug_pc2line_buf-fresh : (opaque : S) → debug_pc2line_buf realloc (dbuf_init2 opaque) ≡ none
  unfolding debug_pc2line_buf dbuf_init2
  debug_pc2line_buf-fresh opaque = refl

  pub debug_pc2line_buf-contents :
      (s : DynBuf S)
      → Shrinks
      → IsValid s
      → 0 < length (contents s)
      → debug_pc2line_buf realloc s ≡ some (contents s)
  unfolding debug_pc2line_buf shrunk
  debug_pc2line_buf-contents s law valid some_bytes = elim (Bool-cases (s.size == 0)) [
    | inl empty ↦
        let nothing : contents s ≡ [] = rw ((==_iff _ _).0 empty) refl in
        absurd (omega (arith, some_bytes, ap length nothing))
    | inr more ↦ elim (Option-cases (realloc s.opaque s.buf s.size).1) [
      | inl refused ↦ rw (more, refused) refl
      | inr (block, got) ↦
          let fits : s.size ≤ length s.buf = omega (arith, valid.whole, valid.within) in
          rw (more, got) (ap some (law s.opaque s.buf s.size block got fits))
    ]
  ]
