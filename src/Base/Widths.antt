-- ===== src/Base/Widths.antt =====
-- The widths of masked and combined numbers, by recursion on their binary digits.
use Prim.Native.Nat.{
  ℕ, zero, suc, ◌*◌, ◌/◌, ◌%◌, ◌^◌, ◌≤◌, ◌<◌, min, max, differ, bit_and, bit_or, bit_xor, digits,
  bit_and-bitwise, bit_or-bitwise, bit_xor-bitwise,
}
use mathlib.Core.Path.{◌≡◌}
use native.Mathlib.Omega.{arith}
use native.Mathlib.Numerals.{unary_clauses}

double : (k : ℕ) → 2 ^ suc k ≡ 2 ^ k * 2
double k = simp unary_clauses

-- An operation on digits, with what it leaves of the second number when the first is done.
module _ (rest : ℕ → ℕ) (op : ℕ → ℕ → ℕ) where
  -- It gains no digit if the parts gain none.
  digits-lt :
      ((b : ℕ) → rest b ≤ b)
      → ((x y : ℕ) → x < 2 → y < 2 → op x y < 2)
      → (k n a b : ℕ) → a < 2 ^ k
      → b < 2 ^ k
      → digits rest op n a b < 2 ^ k
  digits-lt le two k zero a b p q = omega (arith, le b)
  digits-lt le two k (suc n) zero b p q = omega (arith, le b)
  digits-lt le two zero (suc n) (suc a) b p q = absurd (omega arith)
  digits-lt le two (suc k) (suc n) (suc a) b p q = omega (
    arith,
    double k,
    digits-lt le two k n (suc a / 2) (b / 2) (omega (arith, double k)) (omega (arith, double k)),
    two (suc a % 2) (b % 2) (omega arith) (omega arith),
  )

op_bit :
    (op : ℕ → ℕ → ℕ)
    → op 0 0 < 2
    → op 0 1 < 2
    → op 1 0 < 2
    → op 1 1 < 2
    → (x y : ℕ) → x < 2
    → y < 2
    → op x y < 2
op_bit op a b c d zero zero p q = a
op_bit op a b c d zero (suc zero) p q = b
op_bit op a b c d (suc zero) zero p q = c
op_bit op a b c d (suc zero) (suc zero) p q = d
op_bit op a b c d (suc (suc x)) y p q = absurd (omega arith)
op_bit op a b c d x (suc (suc y)) p q = absurd (omega arith)

-- Two numbers of `k` bits make one of `k` bits.
pub bit_or-lt : (k a b : ℕ) → a < 2 ^ k → b < 2 ^ k → bit_or a b < 2 ^ k
bit_or-lt k a b p q = omega (
  arith,
  bit_or-bitwise a b,
  digits-lt (λ b. b) max (λ b. omega arith)
      (op_bit max (omega arith) (omega arith) (omega arith) (omega arith)) k a a b p q,
)

bit_xor-lt : (k a b : ℕ) → a < 2 ^ k → b < 2 ^ k → bit_xor a b < 2 ^ k
bit_xor-lt k a b p q = omega (
  arith,
  bit_xor-bitwise a b,
  digits-lt (λ b. b) differ (λ b. omega arith)
      (op_bit differ (omega arith) (omega arith) (omega arith) (omega arith)) k a a b p q,
)

and_digits-le : (n a b : ℕ) → digits (λ b. zero) min n a b ≤ b
and_digits-le zero a b = omega arith
and_digits-le (suc n) zero b = omega arith
and_digits-le (suc n) (suc a) b = omega (arith, and_digits-le n (suc a / 2) (b / 2))

and_digits-le_left : (n a b : ℕ) → digits (λ b. zero) min n a b ≤ a
and_digits-le_left zero a b = omega arith
and_digits-le_left (suc n) zero b = omega arith
and_digits-le_left (suc n) (suc a) b = omega (arith, and_digits-le_left n (suc a / 2) (b / 2))

-- A mask leaves no more than the mask, and no more than the number.
pub bit_and-le : (a b : ℕ) → bit_and a b ≤ b
bit_and-le a b = omega (arith, bit_and-bitwise a b, and_digits-le a a b)

pub bit_and-le_left : (a b : ℕ) → bit_and a b ≤ a
bit_and-le_left a b = omega (arith, bit_and-bitwise a b, and_digits-le_left a a b)

pub ruleset widths = (arith, bit_and-le, bit_and-le_left)

pub or_byte : (a b : ℕ) → a < 256 → b < 256 → bit_or a b < 256
or_byte a b p q = bit_or-lt 8 a b p q

pub or_word : (a b : ℕ) → a < 0x10000 → b < 0x10000 → bit_or a b < 0x10000
or_word a b p q = bit_or-lt 16 a b p q

pub xor_byte : (a b : ℕ) → a < 256 → b < 256 → bit_xor a b < 256
xor_byte a b p q = bit_xor-lt 8 a b p q

pub xor_word : (a b : ℕ) → a < 0x10000 → b < 0x10000 → bit_xor a b < 0x10000
xor_word a b p q = bit_xor-lt 16 a b p q
