-- ===== src/Bytes/LineTable/Slots.antt =====
-- Slots in the order of the bytecode, with one more at their end.
use quick_js_swift.Base.{
  ℕ, ◌^◌, ◌≤◌, ◌<◌, ◌≡◌, refl, inl, inr, List, [], ◌∷◌, ◌++◌, false, leb, arith, Bool-cases,
  if◌then◌else◌, ◌&&◌, not, All,
}
use quick_js_swift.Bytes.LineTable.{LineNumberSlot, int_lt}
use quick_js_swift.Bytes.LineTable.Lookup.{IsOrdered, last_line}

pub last_line-append :
    (q line : ℕ) (xs ys : List LineNumberSlot)
    → last_line q line (xs ++ ys) ≡ last_line q (last_line q line xs) ys
unfolding last_line
last_line-append q line [] ys = refl
last_line-append q line (x ∷ xs) ys = elim (Bool-cases (not (int_lt x.line_num 0) && leb x.pc q)) [
  | inl reached ↦ rw reached (last_line-append q x.line_num xs ys)
  | inr later ↦ rw later (last_line-append q line xs ys)
]

abbrev pub UpTo : ℕ → List LineNumberSlot → Type 0
UpTo pc slots = All (λ (slot : LineNumberSlot). slot.pc ≤ pc) slots

pub UpTo-weaken :
    (pc pc' : ℕ) (slots : List LineNumberSlot) → pc ≤ pc' → UpTo pc slots → UpTo pc' slots
UpTo-weaken pc pc' [] h u = u
UpTo-weaken pc pc' (slot ∷ slots) h u = (omega (arith, u.0), UpTo-weaken pc pc' slots h u.1)

pub UpTo-append :
    (pc : ℕ) (slots : List LineNumberSlot) (slot : LineNumberSlot)
    → slot.pc ≤ pc
    → UpTo pc slots
    → UpTo pc (slots ++ (slot ∷ []))
UpTo-append pc [] slot h u = (h, u)
UpTo-append pc (x ∷ slots) slot h u = (u.0, UpTo-append pc slots slot h u.1)

pub IsOrdered-append :
    (pc : ℕ) (slots : List LineNumberSlot) (slot : LineNumberSlot)
    → IsOrdered pc slots
    → UpTo slot.pc slots
    → pc ≤ slot.pc
    → slot.pc < 2 ^ 31
    → slot.line_num < 2 ^ 32
    → IsOrdered pc (slots ++ (slot ∷ []))
IsOrdered-append pc [] slot o u h p l = (h, l, p)
IsOrdered-append pc (x ∷ slots) slot o u h p l =
    (o.0, o.1, IsOrdered-append x.pc slots slot o.2 u.1 u.0 p l)

pub last_line_one :
    (q line : ℕ) (call : LineNumberSlot)
    → call.line_num < 2 ^ 31
    → last_line q line (call ∷ []) ≡ (if leb call.pc q then call.line_num else line)
unfolding last_line
last_line_one q line call l =
    let nonneg : int_lt call.line_num 0 ≡ false = ground arith in rw nonneg
