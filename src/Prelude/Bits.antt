-- ===== src/Prelude/Bits.antt =====
-- Laws of the bit operations that packing and unpacking of bytes needs: an `|` of parts that do
-- not overlap is a sum, and an `&` with a mask of ones is a remainder.
use Prim.Native.Nat.{
  ℕ, zero, suc, ◌+◌, ◌*◌, ◌/◌, ◌%◌, ◌≤◌, ◌<◌, min, max, bit_and, bit_or, digits, bit_and-bitwise,
  bit_or-bitwise,
}
use mathlib.Core.Path.{◌≡◌, refl}
use native.Mathlib.Omega.{arith}

-- Any operation by digits: `z b` is the result once the first number has run out.
module _ (z : ℕ → ℕ) (f : ℕ → ℕ → ℕ) where
  by_digits : ℕ → ℕ → ℕ → ℕ
  by_digits n a b = digits z f n a b

  -- Any count of digits from the number itself upwards gives the same result.
  enough_digits : (n a b : ℕ) → a ≤ n → by_digits n a b ≡ by_digits a a b
  unfolding by_digits
  enough_digits n a b h = go n a a b h (omega arith)
    where
      go : (n m a b : ℕ) → a ≤ n → a ≤ m → by_digits n a b ≡ by_digits m a b
      go zero zero zero b p q = refl
      go zero (suc m) zero b p q = refl
      go (suc n) zero zero b p q = refl
      go (suc n) (suc m) zero b p q = refl
      go zero m (suc a) b p q = absurd (omega arith)
      go (suc n) zero (suc a) b p q = absurd (omega arith)
      go (suc n) (suc m) (suc a) b p q =
          omega (arith, go n m (suc a / 2) (b / 2) (omega arith) (omega arith))

  lowest_digit :
      ((b : ℕ) → z b ≡ z (b / 2) * 2 + f 0 (b % 2))
      → (a b : ℕ) → by_digits a a b ≡ by_digits (a / 2) (a / 2) (b / 2) * 2 + f (a % 2) (b % 2)
  unfolding by_digits
  lowest_digit h zero b = h b
  lowest_digit h (suc a) b = omega (arith, enough_digits a (suc a / 2) (b / 2) (omega arith))

pub bit_or_step : (a b : ℕ) → bit_or a b ≡ bit_or (a / 2) (b / 2) * 2 + max (a % 2) (b % 2)
unfolding by_digits
bit_or_step a b = omega (
  arith,
  bit_or-bitwise a b,
  bit_or-bitwise (a / 2) (b / 2),
  lowest_digit (λ b. b) max (λ b. omega arith) a b,
)

bit_and_step : (a b : ℕ) → bit_and a b ≡ bit_and (a / 2) (b / 2) * 2 + min (a % 2) (b % 2)
unfolding by_digits
bit_and_step a b = omega (
  arith,
  bit_and-bitwise a b,
  bit_and-bitwise (a / 2) (b / 2),
  lowest_digit (λ b. zero) min (λ b. omega arith) a b,
)

-- The second number is zero.
module _ (op f : ℕ → ℕ → ℕ)
    (step : (a b : ℕ) → op a b ≡ op (a / 2) (b / 2) * 2 + f (a % 2) (b % 2)) where
  right_zero :
      (r : ℕ → ℕ)
      → ((a : ℕ) → r a ≡ r (a / 2) * 2 + f (a % 2) 0)
      → op 0 0 ≡ r 0
      → (k a : ℕ) → a ≤ k
      → op a 0 ≡ r a
  right_zero r hr h0 k zero h = h0
  right_zero r hr h0 zero (suc a) h = absurd (omega arith)
  right_zero r hr h0 (suc k) (suc a) h =
      omega (arith, step (suc a) 0, hr (suc a), right_zero r hr h0 k (suc a / 2) (omega arith))

pub bit_or-zero : (a : ℕ) → bit_or a 0 ≡ a
bit_or-zero a = right_zero bit_or max bit_or_step (λ a. a) (λ a. omega arith) refl a a (omega arith)

pub bit_and-zero : (a : ℕ) → bit_and a 0 ≡ 0
bit_and-zero a =
    right_zero bit_and min bit_and_step (λ a. 0) (λ a. omega arith) refl a a (omega arith)

-- 2 ^ k, by steps that `omega` reads at a variable k.
abbrev pub pow2 : ℕ → ℕ
pow2 zero = 1
pow2 (suc k) = pow2 k * 2

pub or_disjoint : (k a b : ℕ) → b < pow2 k → bit_or (a * pow2 k) b ≡ a * pow2 k + b
or_disjoint zero a zero h = omega (arith, bit_or-zero (a * 1))
or_disjoint zero a (suc b) h = absurd (omega arith)
or_disjoint (suc k) a b h =
    let half : a * pow2 (suc k) / 2 ≡ a * pow2 k = omega arith in
    let even : a * pow2 (suc k) % 2 ≡ 0 = omega arith in
    rw (bit_or_step (a * pow2 (suc k)) b, half, even, or_disjoint k a (b / 2) (omega arith))
      (omega arith)

low3 : (a : ℕ) → bit_and a 7 ≡ a % 8
low3 a = omega (
  arith,
  bit_and_step a 7,
  bit_and_step (a / 2) 3,
  bit_and_step (a / 2 / 2) 1,
  bit_and-zero (a / 2 / 2 / 2),
)

pub bit_and_mask6 : (a : ℕ) → bit_and a 0x3F ≡ a % 64
bit_and_mask6 a = omega (
  arith,
  bit_and_step a 63,
  bit_and_step (a / 2) 31,
  bit_and_step (a / 2 / 2) 15,
  low3 (a / 2 / 2 / 2),
)

pub bit_and_mask8 : (a : ℕ) → bit_and a 0xFF ≡ a % 256
bit_and_mask8 a =
    omega (arith, bit_and_step a 255, bit_and_step (a / 2) 127, bit_and_mask6 (a / 2 / 2))
