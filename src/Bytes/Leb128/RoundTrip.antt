-- ===== src/Bytes/Leb128/RoundTrip.antt =====
-- A number in groups of seven bits, and reading it back.
use quick_js_swift.Base.{
  ℕ, zero, suc, ◌+◌, ◌-◌, ◌*◌, ◌/◌, ◌%◌, ◌^◌, ◌≤◌, ◌<◌, ◌≡◌, refl, ap, ◌∙◌, List, [], ◌∷◌, ◌++◌,
  some, ◌==◌, if◌then◌else◌, bit_and, bit_or, arith, length, Bool-cases, inl, inr, true, Bool, ◌&&◌,
  ==_iff, ltb, ltb→lt,
}
use native.Mathlib.Numerals.{towards_suc}
use native.Mathlib.Nat.{div-add-mod, pow-suc}
use quick_js_swift.Base.Bits.{and_ones, low_or_high, xor_ones, bit_xor-zero}
use quick_js_swift.Bytes.Leb128.{
  uint32, negate, zigzag, unzigzag, get_loop, get_leb128, get_sleb128,
}

-- The groups of `v`, the lowest first, each but the last marked; `k` of them at most.
unfoldable pub groups : ℕ → ℕ → List ℕ
groups zero v = []
groups (suc k) v =
    let rest = groups k (v / 128) in if v / 128 == 0 then v % 128 ∷ [] else ((v % 128 + 128) ∷ rest)

top_bit_at : ℕ → Bool
top_bit_at b = bit_and b 0x80 == b / 128 * 128

all_bytes : ℕ → Bool
unfolding top_bit_at
all_bytes zero = true
all_bytes (suc n) = top_bit_at n && all_bytes n

all_bytes_sound : (n b : ℕ) → all_bytes n ≡ true → b < n → top_bit_at b ≡ true
unfolding all_bytes
all_bytes_sound zero b h l = absurd (omega arith)
all_bytes_sound (suc n) b h l = ground (arith, all_bytes_sound n b)

top_bit : (b : ℕ) → b < 256 → bit_and b 0x80 ≡ b / 128 * 128
unfolding top_bit_at all_bytes
top_bit b h = (==_iff _ _).0 (all_bytes_sound 256 b refl h)

shift_seven : (i : ℕ) → 2 ^ ((i + 1) * 7) ≡ 128 * 2 ^ (i * 7)
shift_seven i = ap (λ (t : ℕ). 2 ^ t) (next i) ∙ seven (i * 7)
  where
    next : (i : ℕ) → (i + 1) * 7 ≡ i * 7 + 7
    next i = omega arith

    seven : (s : ℕ) → 2 ^ (s + 7) ≡ 128 * 2 ^ s
    seven s = simp towards_suc (omega arith)

-- One group taken off the value still to be read.
split_group : (v i : ℕ) → v * 2 ^ (i * 7) ≡ v % 128 * 2 ^ (i * 7) + v / 128 * 2 ^ ((i + 1) * 7)
split_group v i = omega (
  arith,
  ap (λ (t : ℕ). t * 2 ^ (i * 7)) (div-add-mod v 128),
  ap (λ (t : ℕ). v / 128 * t) (shift_seven i),
)

-- What a round adds to the bits read so far.
joined :
    (acc b i : ℕ)
    → acc < 2 ^ (i * 7)
    → b % 128 * 2 ^ (i * 7) < 2 ^ 32
    → bit_or acc (uint32 (bit_and b 0x7f * 2 ^ (i * 7))) ≡ acc + b % 128 * 2 ^ (i * 7)
joined acc b i h fits =
    ap (bit_or acc) (ap (λ (t : ℕ). uint32 (t * 2 ^ (i * 7))) (and_ones 7 b) ∙ small _ fits)
    ∙ low_or_high (i * 7) acc (b % 128) h
    ∙ omega arith
  where
    small : (n : ℕ) → n < 2 ^ 32 → n % 2 ^ 32 ≡ n
    small n h = omega arith

last_round :
    (left i acc b : ℕ) (rest : List ℕ)
    → b < 128
    → acc < 2 ^ (i * 7)
    → b * 2 ^ (i * 7) < 2 ^ 32
    → get_loop (suc left) i (b ∷ rest) acc ≡ (some (i + 1), acc + b * 2 ^ (i * 7))
unfolding get_loop
last_round left i acc b rest h k fits =
    let m : b % 128 ≡ b = omega arith in
    let clear : bit_and b 0x80 ≡ 0 = top_bit b (omega arith) ∙ omega arith in
    rw (clear, rw m at (joined acc b i k (rw m fits)))

inner_round :
    (left i acc g : ℕ) (rest : List ℕ)
    → g < 128
    → acc < 2 ^ (i * 7)
    → g * 2 ^ (i * 7) < 2 ^ 32
    → get_loop (suc left) i ((g + 128) ∷ rest) acc
      ≡ get_loop left (i + 1) rest (acc + g * 2 ^ (i * 7))
unfolding get_loop
inner_round left i acc g rest h k fits =
    let m : (g + 128) % 128 ≡ g = omega arith in
    let marked : bit_and (g + 128) 0x80 ≡ 128 = top_bit (g + 128) (omega arith) ∙ omega arith in
    rw (marked, rw m at (joined acc (g + 128) i k (rw m fits)))

pub groups_last : (k v : ℕ) → v < 128 → groups (suc k) v ≡ v ∷ []
unfolding groups
groups_last k v h = ground arith

pub groups_more : (k v : ℕ) → 128 ≤ v → groups (suc k) v ≡ (v % 128 + 128) ∷ groups k (v / 128)
unfolding groups
groups_more k v h = ground arith

room : (acc g p : ℕ) → acc < p → g < 128 → acc + g * p < 128 * p
room acc g p h k = grind arith

pub length-groups : (k v : ℕ) → length (groups k v) ≤ k
unfolding groups
length-groups zero v = omega arith
length-groups (suc k) v = ground (arith, length-groups k (v / 128))

-- `v` is what is still to be read, and counts from round `i` on.
get_loop-groups :
    (k i v acc : ℕ) (rest : List ℕ)
    → v < 128 ^ suc k
    → acc < 2 ^ (i * 7)
    → acc + v * 2 ^ (i * 7) < 2 ^ 32
    → get_loop (suc k) i (groups (suc k) v ++ rest) acc
      ≡ (some (i + length (groups (suc k) v)), acc + v * 2 ^ (i * 7))
get_loop-groups zero i v acc rest h a fits =
    rw (groups_last zero v (omega arith))
      (last_round zero i acc v rest (omega arith) a (omega arith))
get_loop-groups (suc k) i v acc rest h a fits = elim (Bool-cases (ltb v 128)) [
  | inl small ↦
      let lt = ltb→lt v 128 small in
      rw (groups_last (suc k) v lt) (last_round (suc k) i acc v rest lt a (omega arith))
  | inr big ↦
      let acc' = acc + v % 128 * 2 ^ (i * 7) in
      rw (groups_more (suc k) v (ground arith)) (
        inner_round (suc k) i acc (v % 128) (groups (suc k) (v / 128) ++ rest) (omega arith) a
          (omega (arith, split_group v i))
        ∙ get_loop-groups k (i + 1) (v / 128) acc' rest (omega (arith, pow-suc 128 (suc k)))
            (omega (arith, shift_seven i, room acc (v % 128) (2 ^ (i * 7)) a (omega arith)))
            (omega (arith, split_group v i))
        ∙ ground (arith, split_group v i))
]

-- `get_leb128` reads back every `uint32_t` from its groups, and says how many bytes it took.
pub get_leb128-groups :
    (v : ℕ) (rest : List ℕ)
    → v < 2 ^ 32
    → get_leb128 (groups 5 v ++ rest) ≡ (some (length (groups 5 v)), v)
unfolding get_leb128
get_leb128-groups v rest h =
    get_loop-groups 4 0 v 0 rest (omega arith) (omega arith) (omega arith) ∙ ground arith

-- A small word goes to twice its value, one with the sign bit to the odd numbers.
zigzag_pos : (v : ℕ) → v < 2 ^ 31 → zigzag v ≡ 2 * v
unfolding zigzag
zigzag_pos v h =
    let sign : negate (v / 2 ^ 31) ≡ 0 = omega arith in
    let word : uint32 (2 * v) ≡ 2 * v = omega arith in rw (sign, word) (bit_xor-zero (2 * v))

zigzag_neg : (v : ℕ) → 2 ^ 31 ≤ v → v < 2 ^ 32 → zigzag v ≡ 2 ^ 32 - 1 - (2 * v - 2 ^ 32)
unfolding zigzag
zigzag_neg v h k =
    let sign : negate (v / 2 ^ 31) ≡ 2 ^ 32 - 1 = omega arith in
    let word : uint32 (2 * v) ≡ 2 * v - 2 ^ 32 = omega arith in
    rw (sign, word) (xor_ones 32 (2 * v - 2 ^ 32) (omega arith))

unzigzag_even : (val : ℕ) → val % 2 ≡ 0 → unzigzag val ≡ val / 2
unfolding unzigzag
unzigzag_even val h =
    let sign : negate (bit_and val 1) ≡ 0 = ap negate (and_ones 1 val ∙ h) in
    rw sign (bit_xor-zero (val / 2))

unzigzag_odd : (val : ℕ) → val < 2 ^ 32 → val % 2 ≡ 1 → unzigzag val ≡ 2 ^ 32 - 1 - val / 2
unfolding unzigzag
unzigzag_odd val k h =
    let sign : negate (bit_and val 1) ≡ 2 ^ 32 - 1 = ap negate (and_ones 1 val ∙ h) in
    rw sign (xor_ones 32 (val / 2) (omega arith))

pub zigzag-lt : (v : ℕ) → v < 2 ^ 32 → zigzag v < 2 ^ 32
zigzag-lt v h = elim (Bool-cases (ltb v (2 ^ 31))) [
  | inl small ↦ omega (arith, zigzag_pos v (ltb→lt _ _ small), ltb→lt _ _ small)
  | inr big ↦ let lo : 2 ^ 31 ≤ v = ground arith in rw (zigzag_neg v lo h) (omega arith)
]

pub unzigzag-zigzag : (v : ℕ) → v < 2 ^ 32 → unzigzag (zigzag v) ≡ v
unzigzag-zigzag v h = elim (Bool-cases (ltb v (2 ^ 31))) [
  | inl small ↦
      rw (zigzag_pos v (ltb→lt _ _ small)) (unzigzag_even (2 * v) (omega arith) ∙ omega arith)
  | inr big ↦
      let lo : 2 ^ 31 ≤ v = ground arith in
      rw (zigzag_neg v lo h)
        (unzigzag_odd (2 ^ 32 - 1 - (2 * v - 2 ^ 32)) (omega arith) (omega arith) ∙ omega arith)
]

-- `get_sleb128` reads back every `int32_t`.
pub get_sleb128-groups :
    (v : ℕ) (rest : List ℕ)
    → v < 2 ^ 32
    → get_sleb128 (groups 5 (zigzag v) ++ rest) ≡ (some (length (groups 5 (zigzag v))), v)
unfolding get_sleb128
get_sleb128-groups v rest h =
    rw (get_leb128-groups (zigzag v) rest (zigzag-lt v h), unzigzag-zigzag v h)
