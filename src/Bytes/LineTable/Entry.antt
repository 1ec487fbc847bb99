-- ===== src/Bytes/LineTable/Entry.antt =====
-- One entry of the line table: the bytes that are written for it, and what is read from them.
use quick_js_swift.Base.{
  ℕ, suc, ◌+◌, ◌-◌, ◌*◌, ◌/◌, ◌%◌, ◌^◌, ◌≤◌, ◌<◌, ◌≡◌, ap, inl, inr, List, [], ◌∷◌, ◌++◌, true,
  false, Option, some, none, ltb, length, length-append, drop-length, arith, Bool-cases,
  if◌then◌else◌, ◌==◌,
}
use mathlib.Core.List.{append_assoc}
use quick_js_swift.Bytes.DynBuf.{DynBuf}
use quick_js_swift.Bytes.DynBuf.Append.{Reallocates}
use quick_js_swift.Bytes.DynBuf.Extend.{
  Writes, Writes-then, Serves, dbuf_putc-Writes, dbuf_putc_served,
}
use quick_js_swift.Bytes.Leb128.{uint32, zigzag}
use quick_js_swift.Bytes.Leb128.RoundTrip.{
  groups, length-groups, get_leb128-groups, get_sleb128-groups,
}
use quick_js_swift.Bytes.Leb128.Write.{
  dbuf_put_leb128-Writes, dbuf_put_sleb128-Writes, dbuf_put_leb128_served, dbuf_put_sleb128_served,
}
use quick_js_swift.Bytes.LineTable.{
  minus, is_short, put_entry, Step, line_step, pc_step, read_step, find_loop, pc2line_base,
  pc2line_range, pc2line_op_first,
}

-- The byte of a short entry.
abbrev pub short_op : ℕ → ℕ → ℕ
short_op diff_pc diff_line =
    uint32 (minus diff_line pc2line_base + diff_pc * pc2line_range + pc2line_op_first) % 2 ^ 8

unfoldable pub entry : ℕ → ℕ → List ℕ
entry diff_pc diff_line =
    if is_short diff_pc diff_line
    then short_op diff_pc diff_line ∷ []
    else 0 ∷ (groups 5 diff_pc ++ groups 5 (zigzag diff_line))

-- A short entry is for lines from -1 to 3 and at most 50 bytes of code.
short_bounds :
    (diff_pc diff_line : ℕ)
    → diff_pc < 2 ^ 31
    → diff_line < 2 ^ 32
    → is_short diff_pc diff_line ≡ true
    → ((diff_line + 1) % 2 ^ 32 < 5) × (diff_pc ≤ 50)
unfolding is_short
short_bounds diff_pc diff_line hp hl e = (ground arith, ground arith)

pub length-entry : (diff_pc diff_line : ℕ) → length (entry diff_pc diff_line) ≤ 11
unfolding entry
length-entry diff_pc diff_line = elim (Bool-cases (is_short diff_pc diff_line)) [
  | inl short ↦ rw short (omega arith)
  | inr long ↦ rw long (
      omega (
        arith,
        length-append (groups 5 diff_pc) (groups 5 (zigzag diff_line)),
        length-groups 5 diff_pc,
        length-groups 5 (zigzag diff_line),
      ))
]

pub entry_pos : (diff_pc diff_line : ℕ) → 0 < length (entry diff_pc diff_line)
unfolding entry
entry_pos diff_pc diff_line = elim (Bool-cases (is_short diff_pc diff_line)) [
  | inl short ↦ rw short (omega arith)
  | inr long ↦ rw long (omega arith)
]

module _ {S : Type 0} (realloc : S → List ℕ → ℕ → S × Option (List ℕ)) where
  pub put_entry-Writes :
      Reallocates realloc
      → (diff_pc diff_line : ℕ) → diff_pc < 2 ^ 32
      → diff_line < 2 ^ 32
      → Writes (entry diff_pc diff_line) (λ s. put_entry realloc diff_pc diff_line s)
  unfolding entry put_entry
  put_entry-Writes law diff_pc diff_line hp hl = elim (Bool-cases (is_short diff_pc diff_line)) [
    | inl short ↦ rw (short) (dbuf_putc-Writes realloc law _)
    | inr long ↦ rw (long) (
        Writes-then (0 ∷ []) (groups 5 diff_pc ++ groups 5 (zigzag diff_line)) _ _
          (dbuf_putc-Writes realloc law 0)
          (Writes-then (groups 5 diff_pc) (groups 5 (zigzag diff_line)) _ _
            (dbuf_put_leb128-Writes realloc law diff_pc hp)
            (dbuf_put_sleb128-Writes realloc law diff_line hl)))
  ]

  pub put_entry_served :
      Serves realloc
      → (diff_pc diff_line : ℕ) (s : DynBuf S) → s.error ≡ false
      → (put_entry realloc diff_pc diff_line s).error ≡ false
  unfolding put_entry
  put_entry_served serves diff_pc diff_line s e = elim (Bool-cases (is_short diff_pc diff_line)) [
    | inl short ↦ rw short (dbuf_putc_served realloc serves _ s e)
    | inr long ↦ rw long (
        dbuf_put_sleb128_served realloc serves diff_line _
          (dbuf_put_leb128_served realloc serves diff_pc _ (dbuf_putc_served realloc serves 0 s e)))
  ]

-- One round of the reader at an entry.
found : ℕ → ℕ → ℕ → ℕ → ℕ → Step → ℕ
unfolding find_loop
found fuel start q pc line s = elim s [
  | none ↦ start
  | some s ↦
      let pc' = uint32 (pc + s.0) in
      let rest = find_loop fuel start q s.2 pc' (uint32 (line + s.1)) in
      if ltb q pc' then line else rest
]

short_step :
    (g diff_pc : ℕ) (rest : List ℕ)
    → g < 5
    → read_step (g + diff_pc * 5 + 1) rest ≡ some (diff_pc, g + pc2line_base, rest)
unfolding read_step
short_step g diff_pc rest h =
    let marked : (g + diff_pc * 5 + 1 == 0) ≡ false = ground arith in
    let pc : (g + diff_pc * 5 + 1 - 1) / 5 ≡ diff_pc = omega arith in
    let line : (g + diff_pc * 5 + 1 - 1) % 5 ≡ g = omega arith in rw (marked, pc, line)

read_short :
    (diff_pc diff_line : ℕ) (rest : List ℕ)
    → diff_pc < 2 ^ 31
    → diff_line < 2 ^ 32
    → is_short diff_pc diff_line ≡ true
    → read_step (short_op diff_pc diff_line) rest
      ≡ some (diff_pc, (diff_line + 1) % 2 ^ 32 + pc2line_base, rest)
read_short diff_pc diff_line rest hp hl e =
    let b = short_bounds diff_pc diff_line hp hl e in
    let op : short_op diff_pc diff_line ≡ (diff_line + 1) % 2 ^ 32 + diff_pc * 5 + 1 =
      omega (arith, b.0, b.1) in
    rw op (short_step ((diff_line + 1) % 2 ^ 32) diff_pc rest b.0)

read_long :
    (diff_pc diff_line : ℕ) (rest : List ℕ)
    → diff_pc < 2 ^ 32
    → diff_line < 2 ^ 32
    → read_step 0 ((groups 5 diff_pc ++ groups 5 (zigzag diff_line)) ++ rest)
      ≡ some (diff_pc, diff_line, rest)
unfolding read_step pc_step line_step
read_long diff_pc diff_line rest hp hl = rw (
  append_assoc (groups 5 diff_pc) (groups 5 (zigzag diff_line)) rest,
  get_leb128-groups diff_pc (groups 5 (zigzag diff_line) ++ rest) hp,
  drop-length (groups 5 diff_pc) (groups 5 (zigzag diff_line) ++ rest),
  get_sleb128-groups diff_line rest hl,
  drop-length (groups 5 (zigzag diff_line)) rest,
)

-- What a round at an entry does: it ends before the query, or goes on at the next entry.
pub find_loop-entry :
    (fuel start q pc line diff_pc diff_line : ℕ) (rest : List ℕ)
    → diff_pc < 2 ^ 31
    → diff_line < 2 ^ 32
    → find_loop (suc fuel) start q (entry diff_pc diff_line ++ rest) pc line ≡ (
        let pc' = uint32 (pc + diff_pc) in
        let next = find_loop fuel start q rest pc' (uint32 (line + diff_line)) in
        if ltb q pc' then line else next)
unfolding entry find_loop found
find_loop-entry fuel start q pc line diff_pc diff_line rest hp hl =
    elim (Bool-cases (is_short diff_pc diff_line)) [
      | inl short ↦
          let step =
            ap (found fuel start q pc line) (read_short diff_pc diff_line rest hp hl short) in
          let same : uint32 (line + ((diff_line + 1) % 2 ^ 32 + pc2line_base))
              ≡ uint32 (line + diff_line) =
            omega arith in
          rw short (rw same at step)
      | inr long ↦
          rw long
            (ap (found fuel start q pc line) (read_long diff_pc diff_line rest (omega arith) hl))
    ]
