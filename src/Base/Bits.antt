-- ===== src/Base/Bits.antt =====
-- The C operators `|`, `&` and `^` on words, as arithmetic: on disjoint fields, with a mask of
-- low ones, and against all ones. Every width; the induction is on the number of low digits.
use Prim.Native.Nat.{ℕ, zero, suc, ◌+◌, ◌-◌, ◌*◌, ◌/◌, ◌%◌, ◌^◌, ◌≤◌, ◌<◌, min, max}
use Prim.Native.Nat.{bit_and, bit_or, bit_xor, digits, bitwise, differ}
use Prim.Native.Nat.{bit_and-bitwise, bit_or-bitwise, bit_xor-bitwise}
use mathlib.Core.Path.{◌≡◌, refl, ap, ◌∙◌}
use native.Mathlib.Nat.{pow-suc, one-le-pow, div-add-mod, mod-lt, mod-eq_of_lt}
use native.Mathlib.Nat.{mul-add-mod_self_right}
use native.Mathlib.Omega.{arith}

-- One lowest digit at a time, for an operation whose tail rule `z` is the operation on 0.
module _ (z : ℕ → ℕ) (f : ℕ → ℕ → ℕ) (tail : (b : ℕ) → z b ≡ z (b / 2) * 2 + f 0 (b % 2)) where
  spare_fuel : (n m a b : ℕ) → a ≤ n → a ≤ m → digits z f n a b ≡ digits z f m a b
  spare_fuel zero zero a b p q = refl
  spare_fuel (suc n) zero zero b p q = refl
  spare_fuel zero (suc m) zero b p q = refl
  spare_fuel (suc n) (suc m) zero b p q = refl
  spare_fuel (suc n) zero (suc a) b p q = absurd (omega arith)
  spare_fuel zero (suc m) (suc a) b p q = absurd (omega arith)
  spare_fuel (suc n) (suc m) (suc a) b p q =
      ap (λ (t : ℕ). t * 2 + f (suc a % 2) (b % 2))
        (spare_fuel n m (suc a / 2) (b / 2) (omega arith) (omega arith))

  lowest : (a b : ℕ) → bitwise z f a b ≡ bitwise z f (a / 2) (b / 2) * 2 + f (a % 2) (b % 2)
  lowest zero b = tail b
  lowest (suc a) b =
      ap (λ (t : ℕ). t * 2 + f (suc a % 2) (b % 2))
        (spare_fuel a (suc a / 2) (suc a / 2) (b / 2) (omega arith) (omega arith))

differ-tail : (b : ℕ) → b ≡ b / 2 * 2 + differ 0 (b % 2)
differ-tail b = omega arith

bit_or_lowest : (a b : ℕ) → bit_or a b ≡ bit_or (a / 2) (b / 2) * 2 + max (a % 2) (b % 2)
bit_or_lowest a b = omega (
  arith,
  bit_or-bitwise a b,
  bit_or-bitwise (a / 2) (b / 2),
  lowest (λ t. t) max (λ t. omega arith) a b,
)

bit_and_lowest : (a b : ℕ) → bit_and a b ≡ bit_and (a / 2) (b / 2) * 2 + min (a % 2) (b % 2)
bit_and_lowest a b = omega (
  arith,
  bit_and-bitwise a b,
  bit_and-bitwise (a / 2) (b / 2),
  lowest (λ _. 0) min (λ t. omega arith) a b,
)

bit_xor_lowest : (a b : ℕ) → bit_xor a b ≡ bit_xor (a / 2) (b / 2) * 2 + differ (a % 2) (b % 2)
bit_xor_lowest a b = omega (
  arith,
  bit_xor-bitwise a b,
  bit_xor-bitwise (a / 2) (b / 2),
  lowest (λ t. t) differ differ-tail a b,
)

-- Neutral and absorbing zeros, within a bound on the other operand.
bit_or-zero_below : (n a : ℕ) → a ≤ n → bit_or a 0 ≡ a
bit_or-zero_below n zero h = refl
bit_or-zero_below zero (suc a) h = absurd (omega arith)
bit_or-zero_below (suc n) (suc a) h =
    omega (arith, bit_or_lowest (suc a) 0, bit_or-zero_below n (suc a / 2) (omega arith))

pub bit_or-zero : (a : ℕ) → bit_or a 0 ≡ a
bit_or-zero a = bit_or-zero_below a a (omega arith)

pub zero-bit_or : (a : ℕ) → bit_or 0 a ≡ a
zero-bit_or a = bit_or-bitwise 0 a

bit_and-zero_below : (n a : ℕ) → a ≤ n → bit_and a 0 ≡ 0
bit_and-zero_below n zero h = refl
bit_and-zero_below zero (suc a) h = absurd (omega arith)
bit_and-zero_below (suc n) (suc a) h =
    omega (arith, bit_and_lowest (suc a) 0, bit_and-zero_below n (suc a / 2) (omega arith))

bit_xor-zero_below : (n a : ℕ) → a ≤ n → bit_xor a 0 ≡ a
bit_xor-zero_below n zero h = refl
bit_xor-zero_below zero (suc a) h = absurd (omega arith)
bit_xor-zero_below (suc n) (suc a) h = omega (
  arith,
  bit_xor_lowest (suc a) 0,
  differ_digit_zero (suc a),
  bit_xor-zero_below n (suc a / 2) (omega arith),
)
  where
    differ_digit_zero : (t : ℕ) → differ (t % 2) 0 ≡ t % 2
    differ_digit_zero t = go (t % 2)
      where
        go : (d : ℕ) → differ d 0 ≡ d
        go zero = refl
        go (suc d) = refl

pub bit_xor-zero : (a : ℕ) → bit_xor a 0 ≡ a
bit_xor-zero a = bit_xor-zero_below a a (omega arith)

twice_field : (q k : ℕ) → q * 2 ^ suc k ≡ 2 * (q * 2 ^ k)
twice_field q k = omega (arith, ap (λ (t : ℕ). q * t) (pow-suc 2 k))

-- `r | (q << k)` is a sum when `r` has only `k` bits, on either side.
pub low_or_high : (k r q : ℕ) → r < 2 ^ k → bit_or r (q * 2 ^ k) ≡ q * 2 ^ k + r
low_or_high zero r q h = ground (arith, zero-bit_or q)
low_or_high (suc k) r q h = omega (
  arith,
  bit_or_lowest r (q * 2 ^ suc k),
  twice_field q k,
  pow-suc 2 k,
  low_or_high k (r / 2) q (omega (arith, pow-suc 2 k)),
  ap (λ (t : ℕ). bit_or (r / 2) t) (halved q k),
)
  where
    halved : (q k : ℕ) → q * 2 ^ suc k / 2 ≡ q * 2 ^ k
    halved q k = omega (arith, twice_field q k)

pub high_or_low : (k q r : ℕ) → r < 2 ^ k → bit_or (q * 2 ^ k) r ≡ q * 2 ^ k + r
high_or_low zero q r h = ground (arith, bit_or-zero q)
high_or_low (suc k) q r h = omega (
  arith,
  bit_or_lowest (q * 2 ^ suc k) r,
  twice_field q k,
  pow-suc 2 k,
  high_or_low k q (r / 2) (omega (arith, pow-suc 2 k)),
  ap (λ (t : ℕ). bit_or t (r / 2)) (halved q k),
)
  where
    halved : (q k : ℕ) → q * 2 ^ suc k / 2 ≡ q * 2 ^ k
    halved q k = omega (arith, twice_field q k)

half_ones : (k : ℕ) → (2 ^ suc k - 1) / 2 ≡ 2 ^ k - 1
half_ones k = omega (arith, pow-suc 2 k, one-le-pow k 2)

pow_pos : (k : ℕ) → 1 ≤ 2 ^ k
pow_pos k = one-le-pow k 2 (omega arith)

-- Quotient and remainder are determined.
pub remainder : (a m q r : ℕ) → a ≡ q * m + r → r < m → a % m ≡ r
remainder a m q r e h = ap (λ (t : ℕ). t % m) e ∙ mul-add-mod_self_right q m r ∙ mod-eq_of_lt h

mod_halves : (k a : ℕ) → a % 2 ^ suc k ≡ a / 2 % 2 ^ k * 2 + a % 2
mod_halves k a =
    remainder a (2 ^ suc k) (a / 2 / 2 ^ k) (a / 2 % 2 ^ k * 2 + a % 2)
      (omega (arith, div-add-mod (a / 2) (2 ^ k), twice_field (a / 2 / 2 ^ k) k))
      (omega (arith, pow-suc 2 k, mod-lt (a / 2) {m = 2 ^ k} (pow_pos k)))

-- `a & ((1 << k) - 1)`
pub and_ones : (k a : ℕ) → bit_and a (2 ^ k - 1) ≡ a % 2 ^ k
and_ones zero a = omega (arith, bit_and-zero_below a a (omega arith))
and_ones (suc k) a = omega (
  arith,
  bit_and_lowest a (2 ^ suc k - 1),
  ap (λ (t : ℕ). bit_and (a / 2) t) (half_ones k),
  pow-suc 2 k,
  pow_pos k,
  mod_halves k a,
  and_ones k (a / 2),
)

-- `a ^ ((1 << k) - 1)` is the complement in `k` bits.
differ_one : (d : ℕ) → d < 2 → differ d 1 ≡ 1 - d
differ_one zero h = refl
differ_one (suc zero) h = refl
differ_one (suc (suc d)) h = absurd (omega arith)

pub xor_ones : (k a : ℕ) → a < 2 ^ k → bit_xor a (2 ^ k - 1) ≡ 2 ^ k - 1 - a
xor_ones zero a h = omega (arith, bit_xor-zero a)
xor_ones (suc k) a h = omega (
  arith,
  bit_xor_lowest a (2 ^ suc k - 1),
  ap (λ (t : ℕ). bit_xor (a / 2) t) (half_ones k),
  pow-suc 2 k,
  pow_pos k,
  ap (differ (a % 2)) (odd_ones k),
  differ_one (a % 2) (omega arith),
  xor_ones k (a / 2) (omega (arith, pow-suc 2 k)),
)
  where
    odd_ones : (k : ℕ) → (2 ^ suc k - 1) % 2 ≡ 1
    odd_ones k = omega (arith, pow-suc 2 k, pow_pos k)

or_above_below : (n a b : ℕ) → a ≤ n → b ≤ n → (a ≤ bit_or a b) × (b ≤ bit_or a b)
or_above_below zero zero zero h k = omega arith
or_above_below zero (suc a) b h k = absurd (omega arith)
or_above_below zero a (suc b) h k = absurd (omega arith)
or_above_below (suc n) a b h k =
    omega (arith, bit_or_lowest a b, or_above_below n (a / 2) (b / 2) (omega arith) (omega arith))

-- A bitwise or is not below its operands.
pub le-bit_or : (a b : ℕ) → (a ≤ bit_or a b) × (b ≤ bit_or a b)
le-bit_or a b = or_above_below (a + b) a b (omega arith) (omega arith)
