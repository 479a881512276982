-- ===== src/Prelude/Bits.antt =====
-- Masks and shifts on native numbers as arithmetic.
use Prim.Native.Nat.{
  ℕ, zero, suc, ◌+◌, ◌*◌, ◌/◌, ◌%◌, ◌^◌, ◌≤◌, ◌<◌, max, min, bit_and, bit_or, digits,
  bit_and-bitwise, bit_or-bitwise,
}
use mathlib.Core.Path.{◌≡◌, refl, ap}
use native.Mathlib.Omega.{arith}
use native.Mathlib.Nat.{pow-suc}

-- The recursion of the native operations, on a bound `n` for the digits of `a`.
abbrev or_to : ℕ → ℕ → ℕ → ℕ
or_to = digits (λ b. b) max

abbrev and_to : ℕ → ℕ → ℕ → ℕ
and_to = digits (λ b. zero) min

or_to-bound : (n m a b : ℕ) → a ≤ n → a ≤ m → or_to n a b ≡ or_to m a b
or_to-bound zero zero a b p q = refl
or_to-bound zero (suc m) zero b p q = refl
or_to-bound zero (suc m) (suc a) b p q = absurd (omega arith)
or_to-bound (suc n) zero zero b p q = refl
or_to-bound (suc n) zero (suc a) b p q = absurd (omega arith)
or_to-bound (suc n) (suc m) zero b p q = refl
or_to-bound (suc n) (suc m) (suc a) b p q =
    omega (arith, or_to-bound n m (suc a / 2) (b / 2) (omega arith) (omega arith))

and_to-bound : (n m a b : ℕ) → a ≤ n → a ≤ m → and_to n a b ≡ and_to m a b
and_to-bound zero zero a b p q = refl
and_to-bound zero (suc m) zero b p q = refl
and_to-bound zero (suc m) (suc a) b p q = absurd (omega arith)
and_to-bound (suc n) zero zero b p q = refl
and_to-bound (suc n) zero (suc a) b p q = absurd (omega arith)
and_to-bound (suc n) (suc m) zero b p q = refl
and_to-bound (suc n) (suc m) (suc a) b p q =
    omega (arith, and_to-bound n m (suc a / 2) (b / 2) (omega arith) (omega arith))

bit_or_digit : (a b : ℕ) → bit_or a b ≡ bit_or (a / 2) (b / 2) * 2 + max (a % 2) (b % 2)
bit_or_digit zero b = omega (arith, bit_or-bitwise 0 b, bit_or-bitwise 0 (b / 2))
bit_or_digit (suc a) b = omega (
  arith,
  bit_or-bitwise (suc a) b,
  bit_or-bitwise (suc a / 2) (b / 2),
  or_to-bound a (suc a / 2) (suc a / 2) (b / 2) (omega arith) (omega arith),
)

bit_and_digit : (a b : ℕ) → bit_and a b ≡ bit_and (a / 2) (b / 2) * 2 + min (a % 2) (b % 2)
bit_and_digit zero b = omega (arith, bit_and-bitwise 0 b, bit_and-bitwise 0 (b / 2))
bit_and_digit (suc a) b = omega (
  arith,
  bit_and-bitwise (suc a) b,
  bit_and-bitwise (suc a / 2) (b / 2),
  and_to-bound a (suc a / 2) (suc a / 2) (b / 2) (omega arith) (omega arith),
)

double_shift : (s b : ℕ) → b * 2 ^ suc s ≡ b * 2 ^ s * 2
double_shift s b = omega (arith, ap (λ (t : ℕ). b * t) (pow-suc 2 s))

-- Disjoint parts: `a | (b << s)` is a sum where `a` fits in `s` bits.
pub bit_or-shift : (s a b : ℕ) → a < 2 ^ s → bit_or a (b * 2 ^ s) ≡ a + b * 2 ^ s
bit_or-shift zero zero b h = omega (arith, bit_or-bitwise 0 (b * 2 ^ 0))
bit_or-shift zero (suc a) b h = absurd (omega arith)
bit_or-shift (suc s) a b h =
    let upper : b * 2 ^ suc s / 2 ≡ b * 2 ^ s = omega (arith, double_shift s b) in
    omega (
      arith,
      double_shift s b,
      bit_or_digit a (b * 2 ^ suc s),
      ap (bit_or (a / 2)) upper,
      bit_or-shift s (a / 2) b (omega (arith, pow-suc 2 s)),
    )

-- A mask of seven ones takes seven digits.
bit_and-zero : (n a : ℕ) → a ≤ n → bit_and a 0 ≡ 0
bit_and-zero n zero h = refl
bit_and-zero zero (suc a) h = absurd (omega arith)
bit_and-zero (suc n) (suc a) h =
    omega (arith, bit_and_digit (suc a) 0, bit_and-zero n (suc a / 2) (omega arith))

pub bit_and_one : (a : ℕ) → bit_and a 1 ≡ a % 2
bit_and_one a = omega (arith, bit_and_digit a 1, bit_and-zero (a / 2) (a / 2) (omega arith))

pub bit_and_three : (a : ℕ) → bit_and a 3 ≡ a % 4
bit_and_three a = omega (arith, bit_and_digit a 3, bit_and_one (a / 2))

bit_and_fifteen : (a : ℕ) → bit_and a 15 ≡ a % 16
bit_and_fifteen a =
    omega (arith, bit_and_digit a 15, bit_and_digit (a / 2) 7, bit_and_three (a / 2 / 2))

pub bit_and_low7 : (a : ℕ) → bit_and a 127 ≡ a % 128
bit_and_low7 a = omega (
  arith,
  bit_and_digit a 127,
  bit_and_digit (a / 2) 63,
  bit_and_digit (a / 2 / 2) 31,
  bit_and_fifteen (a / 2 / 2 / 2),
)

bit_and_two : (a : ℕ) → bit_and a 2 ≡ a / 2 % 2 * 2
bit_and_two a = omega (arith, bit_and_digit a 2, bit_and_one (a / 2))

bit_and_eight : (a : ℕ) → bit_and a 8 ≡ a / 8 % 2 * 8
bit_and_eight a = omega (arith, bit_and_digit a 8, bit_and_digit (a / 2) 4, bit_and_two (a / 2 / 2))

-- The top bit of a byte.
pub bit_and_bit7 : (a : ℕ) → bit_and a 128 ≡ a / 128 % 2 * 128
bit_and_bit7 a = omega (
  arith,
  bit_and_digit a 128,
  bit_and_digit (a / 2) 64,
  bit_and_digit (a / 2 / 2) 32,
  bit_and_digit (a / 2 / 2 / 2) 16,
  bit_and_eight (a / 2 / 2 / 2 / 2),
)
