-- ===== src/Unicode/Utf8/Continuation.antt =====
-- The bytes of UTF-8 in plain arithmetic, and the loop that reads those behind the first.
use quick_js_swift.Base.{
  ℕ, zero, suc, ◌+◌, ◌*◌, ◌/◌, ◌%◌, ◌^◌, ◌≤◌, bit_and, bit_or, List, [], ◌∷◌, ◌++◌, ◌≡◌, ◌∙◌, ap,
  arith, sym,
}
use quick_js_swift.Base.Bits.{and_ones, low_or_high, high_or_low}
use native.Mathlib.Nat.{pow-suc, div-div-eq-div-mul}
use quick_js_swift.Unicode.Utf8.{u8, code, follow_loop}

-- The `n` bytes behind the first: six bits each, the highest first.
abbrev pub follows : ℕ → ℕ → List ℕ
follows zero c = []
follows (suc n) c = (128 + c / 64 ^ n % 64) ∷ follows n c

pub marked : (x : ℕ) → u8 (bit_or (bit_and x 0x3f) 0x80) ≡ 128 + x % 64
marked x =
    ap u8 (ap (λ (t : ℕ). bit_or t 0x80) (and_ones 6 x) ∙ low_or_high 6 (x % 64) 2 (omega arith))
    ∙ omega arith

pub joined : (c b : ℕ) → bit_or (c * 2 ^ 6) (bit_and b 0x3f) ≡ c * 64 + b % 64
joined c b = ap (bit_or (c * 2 ^ 6)) (and_ones 6 b) ∙ high_or_low 6 c (b % 64) (omega arith)

div_pow_suc : (c n : ℕ) → c / 64 ^ suc n ≡ c / 64 ^ n / 64
div_pow_suc c n = ap (λ (t : ℕ). c / t) (pow-suc 64 n) ∙ sym (div-div-eq-div-mul c (64 ^ n) 64)

-- The loop puts the code back together: `c` has been read down to its lowest `n` groups.
pub follow_loop-follows :
    (n least c : ℕ) (rest : List ℕ)
    → least ≤ c
    → follow_loop n least (c / 64 ^ n) (follows n c ++ rest) ≡ code c rest
unfolding follow_loop
follow_loop-follows zero least c rest h = ground arith
follow_loop-follows (suc n) least c rest h =
    let x = c / 64 ^ n in
    let whole : bit_or (c / 64 ^ suc n * 2 ^ 6) (bit_and (128 + x % 64) 0x3f) ≡ x =
      joined (c / 64 ^ suc n) (128 + x % 64) ∙ omega (arith, div_pow_suc c n) in
    rw whole (ground (arith, follow_loop-follows n least c rest h))

-- Conversely, what the loop accepts is the bytes of the code that it returns.
pub follow_loop_inv :
    (n least acc c : ℕ) (p rest : List ℕ)
    → follow_loop n least acc p ≡ code c rest
    → (p ≡ follows n c ++ rest) × (c / 64 ^ n ≡ acc) × (least ≤ c)
unfolding follow_loop
follow_loop_inv zero least acc c p rest e = ground arith
follow_loop_inv (suc n) least acc c [] rest e = cc
follow_loop_inv (suc n) least acc c (b ∷ p) rest e =
    let acc' = bit_or (acc * 2 ^ 6) (bit_and b 0x3f) in
    ground (arith, joined acc b, div_pow_suc c n, follow_loop_inv n least acc' c p rest)
