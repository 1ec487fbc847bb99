-- ===== src/Tests/LineTables.antt =====
-- Line tables at concrete inputs.
use quick_js_swift.Base.{ℕ, ◌^◌, ◌-◌, ◌≡◌, refl, List, [], ◌∷◌, false, some, arith}
use quick_js_swift.Bytes.LineTable.{
  FunctionDef, LineNumberSlot, compute_pc2line_info, find_line_num, debug_pc2line_buf,
}
use quick_js_swift.Bytes.LineTable.Lookup.{IsOrdered, last_line}
use quick_js_swift.Bytes.LineTable.Kept.{only_line}
use quick_js_swift.Bytes.LineTable.Compute.{find_line_num-compute_pc2line_info}
use quick_js_swift.Bytes.LineTable.Record.{add_all, find_line_num-add_all}
use quick_js_swift.Tests.Buffers.{zeroing, zeroing-Reallocates, zeroing-Serves, zeroing-Shrinks}

abbrev slot : ℕ → ℕ → LineNumberSlot
slot pc line_num = record { pc = pc; line_num = line_num }

-- A line of its own, one entry in a byte, one in the long form, and a line that is in force.
abbrev four_slots : List LineNumberSlot
four_slots = slot 0 10 ∷ slot 3 11 ∷ slot 9 500 ∷ slot 12 500 ∷ []

abbrev from_ten : FunctionDef ℕ
from_ten = record {
  strip = false;
  line_num = 10;
  line_number_slots = some [];
  line_number_size = 4;
  line_number_last = 10;
  line_number_last_pc = 0;
  pc2line = record { buf = []; size = 0; allocated_size = 0; error = false; opaque = 0 };
}

abbrev with_slots : FunctionDef ℕ
with_slots = record from_ten { line_number_slots = some four_slots }

four_slots-IsOrdered : IsOrdered 0 four_slots
four_slots-IsOrdered = omega arith

line_at_ten : last_line 10 10 four_slots ≡ 500
unfolding last_line
line_at_ten = refl

find_line_num-compute_pc2line_info_example :
    let t = compute_pc2line_info zeroing 0 with_slots in
    (t.pc2line.error ≡ false)
    × (find_line_num (debug_pc2line_buf zeroing t.pc2line) 10 10 ≡ last_line 10 10 four_slots)
unfolding only_line
find_line_num-compute_pc2line_info_example =
    find_line_num-compute_pc2line_info zeroing 0 with_slots four_slots 10 zeroing-Reallocates
      zeroing-Serves zeroing-Shrinks refl refl four_slots-IsOrdered (omega arith) (omega arith)

find_line_num-add_all_example :
    let t = compute_pc2line_info zeroing 0 (add_all from_ten four_slots) in
    (t.pc2line.error ≡ false)
    × (find_line_num (debug_pc2line_buf zeroing t.pc2line) 10 10 ≡ last_line 10 10 four_slots)
unfolding only_line
find_line_num-add_all_example =
    find_line_num-add_all zeroing 0 from_ten four_slots 10 zeroing-Reallocates zeroing-Serves
      zeroing-Shrinks refl (refl, refl, refl) four_slots-IsOrdered (omega arith) (omega arith)
      (omega arith) (omega arith)

-- All code is on the function's own line: the table is empty, and the line is not found.
not_found :
    let t = compute_pc2line_info zeroing 0 (add_all from_ten (slot 3 10 ∷ [])) in
    find_line_num (debug_pc2line_buf zeroing t.pc2line) 10 5 ≡ 2 ^ 32 - 1
unfolding only_line
not_found =
    (find_line_num-add_all zeroing 0 from_ten (slot 3 10 ∷ []) 5 zeroing-Reallocates zeroing-Serves
      zeroing-Shrinks refl (refl, refl, refl) (omega arith) (omega arith) (omega arith)
      (omega arith) (omega arith)).1
