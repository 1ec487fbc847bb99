-- ===== src/Bytes/LineTable/Lookup.antt =====
-- Reading a table: `find_line_num` finds the line of the last slot at or before a place.
use quick_js_swift.Base.{
  ℕ, zero, suc, ◌+◌, ◌-◌, ◌^◌, ◌≤◌, ◌<◌, ◌≡◌, ◌⊎◌, refl, sym, inl, inr, List, [], ◌∷◌, ◌++◌, true,
  false, ltb, leb, ltb→lt, length, length-append, arith, Bool-cases, if◌then◌else◌, ◌==◌, ◌&&◌,
  ◌||◌, not, le→leb,
}
use quick_js_swift.Bytes.Leb128.{uint32}
use quick_js_swift.Bytes.LineTable.{LineNumberSlot, int_lt, minus, find_loop}
use quick_js_swift.Bytes.LineTable.Entry.{entry, entry_pos, find_loop-entry}

-- Slots in the order of the bytecode, from `pc` on.
abbrev pub IsOrdered : ℕ → List LineNumberSlot → Type 0
IsOrdered pc [] = pc < 2 ^ 31
IsOrdered pc (slot ∷ slots) = (pc ≤ slot.pc) × (slot.line_num < 2 ^ 32) × IsOrdered slot.pc slots

-- The line of the last slot at or before `pc_value`, negative lines left out.
unfoldable pub last_line : ℕ → ℕ → List LineNumberSlot → ℕ
last_line pc_value line [] = line
last_line pc_value line (slot ∷ slots) =
    let take = last_line pc_value slot.line_num slots in
    let keep = last_line pc_value line slots in
    if not (int_lt slot.line_num 0) && leb slot.pc pc_value then take else keep

-- The bytes that the loop over the slots adds.
unfoldable pub table : List LineNumberSlot → ℕ → ℕ → List ℕ
table [] last_pc last_line_num = []
table (slot ∷ slots) last_pc last_line_num =
    let diff_pc = minus slot.pc last_pc in
    let diff_line = minus slot.line_num last_line_num in
    let continue = table slots last_pc last_line_num in
    let put = entry diff_pc diff_line ++ table slots slot.pc slot.line_num in
    if int_lt slot.line_num 0
    then continue
    else if diff_line == 0 || int_lt diff_pc 0
    then continue
    else put

pub IsOrdered-lt : (pc : ℕ) (slots : List LineNumberSlot) → IsOrdered pc slots → pc < 2 ^ 31
IsOrdered-lt pc [] o = o
IsOrdered-lt pc (slot ∷ slots) o = omega (arith, o.0, IsOrdered-lt slot.pc slots o.2)

pub IsOrdered-weaken :
    (pc pc' : ℕ) (slots : List LineNumberSlot) → pc ≤ pc' → IsOrdered pc' slots → IsOrdered pc slots
IsOrdered-weaken pc pc' [] h o = omega arith
IsOrdered-weaken pc pc' (slot ∷ slots) h o = (omega (arith, o.0), o.1, o.2)

-- A slot is left out for its negative line, leaves the line as it is, or makes an entry.
pub slot_cases :
    (slot : LineNumberSlot) (pc line : ℕ)
    → pc ≤ slot.pc
    → slot.pc < 2 ^ 31
    → slot.line_num < 2 ^ 32
    → line < 2 ^ 31
    → (int_lt slot.line_num 0 ≡ true)
      ⊎ ((int_lt slot.line_num 0 ≡ false)
          × (slot.line_num ≡ line)
          × ((minus slot.line_num line == 0) ≡ true))
      ⊎ ((int_lt slot.line_num 0 ≡ false)
          × ((minus slot.line_num line == 0 || int_lt (minus slot.pc pc) 0) ≡ false)
          × (slot.line_num < 2 ^ 31))
slot_cases slot pc line h p l k = elim (Bool-cases (int_lt slot.line_num 0)) [
  | inl negative ↦ inl negative
  | inr ok ↦ elim (Bool-cases (minus slot.line_num line == 0)) [
    | inl same ↦ inr (inl (ok, ground arith, same))
    | inr other ↦ inr (inr (ok, rw other (ground arith), ground arith))
  ]
]

module _ (slot : LineNumberSlot) (slots : List LineNumberSlot) (pc line : ℕ) where
  pub table_negative :
      int_lt slot.line_num 0 ≡ true → table (slot ∷ slots) pc line ≡ table slots pc line
  unfolding table
  table_negative e = rw e

  pub table_same :
      int_lt slot.line_num 0 ≡ false
      → (minus slot.line_num line == 0) ≡ true
      → table (slot ∷ slots) pc line ≡ table slots pc line
  unfolding table
  table_same ok e = rw (ok, e)

  pub table_put :
      int_lt slot.line_num 0 ≡ false
      → (minus slot.line_num line == 0 || int_lt (minus slot.pc pc) 0) ≡ false
      → table (slot ∷ slots) pc line
        ≡ entry (minus slot.pc pc) (minus slot.line_num line) ++ table slots slot.pc slot.line_num
  unfolding table
  table_put ok e = rw (ok, e)

  last_line_later : (q : ℕ) → q < slot.pc → last_line q line (slot ∷ slots) ≡ last_line q line slots
  unfolding last_line
  last_line_later q h =
      let later : leb slot.pc q ≡ false = ground arith in
      elim (Bool-cases (int_lt slot.line_num 0)) [
        | inl negative ↦ rw (negative)
        | inr ok ↦ rw (ok, later)
      ]

  last_line_negative :
      (q : ℕ)
      → int_lt slot.line_num 0 ≡ true
      → last_line q line (slot ∷ slots) ≡ last_line q line slots
  unfolding last_line
  last_line_negative q e = rw e

  pub last_line_put :
      (q : ℕ)
      → int_lt slot.line_num 0 ≡ false
      → slot.pc ≤ q
      → last_line q line (slot ∷ slots) ≡ last_line q slot.line_num slots
  unfolding last_line
  last_line_put q ok h = rw (ok, le→leb _ _ h)

  pub last_line_same :
      (q : ℕ)
      → int_lt slot.line_num 0 ≡ false
      → slot.line_num ≡ line
      → last_line q line (slot ∷ slots) ≡ last_line q line slots
  unfolding last_line
  last_line_same q ok same = elim (Bool-cases (leb slot.pc q)) [
    | inl reached ↦ rw (ok, reached, same)
    | inr later ↦ rw (ok, later)
  ]

-- Nothing is found before the first slot.
last_line_before :
    (q pc line : ℕ) (slots : List LineNumberSlot)
    → q < pc
    → IsOrdered pc slots
    → last_line q line slots ≡ line
last_line_before q pc line [] h o = unfold last_line in refl
last_line_before q pc line (slot ∷ slots) h o =
    rw (last_line_later slot slots pc line q (omega (arith, o.0)))
      (last_line_before q slot.pc line slots (omega (arith, o.0)) o.2)

module _ (q start : ℕ) where
  -- At an entry, when the rest of the table gives the right lines.
  find_loop-put :
      (slot : LineNumberSlot) (slots : List LineNumberSlot) (fuel pc line : ℕ)
      → int_lt slot.line_num 0 ≡ false
      → slot.line_num < 2 ^ 31
      → line < 2 ^ 31
      → pc ≤ slot.pc
      → IsOrdered slot.pc slots
      → find_loop fuel start q (table slots slot.pc slot.line_num) slot.pc slot.line_num
        ≡ last_line q slot.line_num slots
      → find_loop
          (suc fuel)
          start
          q
          (entry (minus slot.pc pc) (minus slot.line_num line) ++ table slots slot.pc slot.line_num)
          pc
          line
        ≡ last_line q line (slot ∷ slots)
  find_loop-put slot slots fuel pc line ok small k h o rest =
      let lt = IsOrdered-lt slot.pc slots o in
      let pc' : uint32 (pc + minus slot.pc pc) ≡ slot.pc = omega arith in
      let line' : uint32 (line + minus slot.line_num line) ≡ slot.line_num = omega arith in
      let round =
        find_loop-entry fuel start q pc line (minus slot.pc pc) (minus slot.line_num line)
          (table slots slot.pc slot.line_num) (omega arith) (omega arith) in
      rw (round, pc', line')
        (elim (Bool-cases (ltb q slot.pc)) [
          | inl early ↦
              let lt = ltb→lt _ _ early in
              rw (early, last_line_later slot slots pc line q lt)
                (sym (last_line_before q slot.pc line slots lt o))
          | inr reached ↦ rw (reached, last_line_put slot slots pc line q ok (ground arith)) rest
        ])

  pub find_loop-table :
      (slots : List LineNumberSlot) (fuel pc line : ℕ)
      → length (table slots pc line) ≤ fuel
      → IsOrdered pc slots
      → line < 2 ^ 31
      → find_loop fuel start q (table slots pc line) pc line ≡ last_line q line slots
  find_loop-table [] zero pc line h o k = unfold find_loop last_line table in refl
  find_loop-table [] (suc fuel) pc line h o k = unfold find_loop last_line table in refl
  find_loop-table (slot ∷ slots) fuel pc line h o k =
      let lower = IsOrdered-weaken pc slot.pc slots o.0 o.2 in
      elim (slot_cases slot pc line o.0 (IsOrdered-lt slot.pc slots o.2) o.1 k) [
        | inl negative ↦
            let t = table_negative slot slots pc line negative in
            rw (t, last_line_negative slot slots pc line q negative)
              (find_loop-table slots fuel pc line (rw t at h) lower k)
        | inr (inl (ok, same, e)) ↦
            let t = table_same slot slots pc line ok e in
            rw (t, last_line_same slot slots pc line q ok same)
              (find_loop-table slots fuel pc line (rw t at h) lower k)
        | inr (inr (ok, put, small)) ↦
            let t = table_put slot slots pc line ok put in
            let first = entry (minus slot.pc pc) (minus slot.line_num line) in
            let rest = table slots slot.pc slot.line_num in
            let sum = length-append first rest in
            let pos = entry_pos (minus slot.pc pc) (minus slot.line_num line) in
            let fits : length (first ++ rest) ≤ fuel = rw t at h in
            let more : fuel ≡ suc (fuel - 1) = omega (arith, fits, sum, pos) in
            rw (t, more)
              (find_loop-put slot slots (fuel - 1) pc line ok small k o.0 o.2 (
                find_loop-table slots (fuel - 1) slot.pc slot.line_num
                  (omega (arith, fits, sum, pos)) o.2 small))
      ]
