-- ===== src/Unicode/Utf8/Overrun.antt =====
-- Decoding UTF-8 stays within the memory.
use quick_js_swift.Base.{
  ℕ, zero, suc, ◌-◌, ◌*◌, ◌^◌, ◌≤◌, ◌<◌, bit_and, bit_or, List, [], ◌∷◌, ltb, arith, Bool-cases,
  inl, inr, length, ◌≢◌, Option, none, some,
}
use quick_js_swift.Unicode.Utf8.{overrun, follow_loop, unicode_from_utf8, from_lead, follow_count}

follow_loop-ne-overrun :
    (l least c : ℕ) (p : List ℕ) → l ≤ length p → follow_loop l least c p ≢ overrun
unfolding follow_loop
follow_loop-ne-overrun zero least c p h e = ground arith
follow_loop-ne-overrun (suc l) least c [] h e = absurd (omega arith)
follow_loop-ne-overrun (suc l) least c (b ∷ p) h e =
    ground
      (arith, follow_loop-ne-overrun l least (bit_or (c * 2 ^ 6) (bit_and b 0x3f)) p (omega arith))

from_lead-ne-overrun :
    (c max_len : ℕ) (o : Option ℕ) (p : List ℕ)
    → max_len ≤ suc (length p)
    → from_lead c max_len o p ≢ overrun
unfolding from_lead
from_lead-ne-overrun c max_len none p h e = cc
from_lead-ne-overrun c max_len (some l) p h e = elim (Bool-cases (ltb (max_len - 1) l)) [
  | inl short ↦ cc (rw short at e)
  | inr fits ↦ follow_loop-ne-overrun l _ _ p (ground arith) (rw fits at e)
]

-- With `max_len` bytes of memory at `p`, and at least one, decoding never reads past them.
pub unicode_from_utf8-ne-overrun :
    (p : List ℕ) (max_len : ℕ)
    → 0 < max_len
    → max_len ≤ length p
    → unicode_from_utf8 p max_len ≢ overrun
unfolding unicode_from_utf8
unicode_from_utf8-ne-overrun [] max_len pos h = absurd (omega arith)
unicode_from_utf8-ne-overrun (b ∷ p) max_len pos h =
    ground (arith, from_lead-ne-overrun b max_len (follow_count b) p h)
