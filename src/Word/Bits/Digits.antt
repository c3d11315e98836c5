-- ===== src/Word/Bits/Digits.antt =====
-- The lowest digit of the native bit operations, from the digit recursion that they stand for.
use Prim.Native.Nat.{bit_and, bit_or, bit_xor, digits, bitwise, differ, min, max}
use Prim.Native.Nat.{bit_and-bitwise, bit_or-bitwise, bit_xor-bitwise}
use pglinux.Base.{ℕ, zero, suc, ◌+◌, ◌*◌, ◌/◌, ◌%◌, ◌≤◌, ◌≡◌, refl, arith}

module _ (z : ℕ → ℕ) (f : ℕ → ℕ → ℕ) where
  -- Any fuel that reaches the first argument gives the same digits.
  fuel_agrees : (k l a b : ℕ) → a ≤ k → a ≤ l → digits z f k a b ≡ digits z f l a b
  fuel_agrees zero zero a b h g = refl
  fuel_agrees k l zero b h g = zeroes k l
    where
      zeroes : (k l : ℕ) → digits z f k zero b ≡ digits z f l zero b
      zeroes zero zero = refl
      zeroes zero (suc l) = refl
      zeroes (suc k) zero = refl
      zeroes (suc k) (suc l) = refl
  fuel_agrees zero (suc l) (suc a) b h g = absurd (omega arith)
  fuel_agrees (suc k) zero (suc a) b h g = absurd (omega arith)
  fuel_agrees (suc k) (suc l) (suc a) b h g =
      omega (arith, fuel_agrees k l (suc a / 2) (b / 2) (omega arith) (omega arith))

  peel :
      (a b : ℕ)
      → bitwise z f (suc a) b ≡ bitwise z f (suc a / 2) (b / 2) * 2 + f (suc a % 2) (b % 2)
  peel a b =
      omega (arith, fuel_agrees a (suc a / 2) (suc a / 2) (b / 2) (omega arith) (omega arith))

pub low_and : (a b : ℕ) → bit_and a b ≡ bit_and (a / 2) (b / 2) * 2 + min (a % 2) (b % 2)
low_and zero b = omega (arith, bit_and-bitwise 0 b, bit_and-bitwise 0 (b / 2))
low_and (suc a) b =
    omega
      (arith, bit_and-bitwise (suc a) b, bit_and-bitwise (suc a / 2) (b / 2), peel (λ y. 0) min a b)

pub low_or : (a b : ℕ) → bit_or a b ≡ bit_or (a / 2) (b / 2) * 2 + max (a % 2) (b % 2)
low_or zero b = omega (arith, bit_or-bitwise 0 b, bit_or-bitwise 0 (b / 2))
low_or (suc a) b =
    omega
      (arith, bit_or-bitwise (suc a) b, bit_or-bitwise (suc a / 2) (b / 2), peel (λ y. y) max a b)

differ_digits : (x y : ℕ) → x ≤ 1 → y ≤ 1 → differ x y ≡ (x + y) % 2
differ_digits zero y h g = omega arith
differ_digits (suc zero) zero h g = omega arith
differ_digits (suc zero) (suc zero) h g = refl
differ_digits (suc zero) (suc (suc y)) h g = absurd (omega arith)
differ_digits (suc (suc x)) y h g = absurd (omega arith)

pub low_xor : (a b : ℕ) → bit_xor a b ≡ bit_xor (a / 2) (b / 2) * 2 + (a % 2 + b % 2) % 2
low_xor zero b = omega (arith, bit_xor-bitwise 0 b, bit_xor-bitwise 0 (b / 2))
low_xor (suc a) b = omega (
  arith,
  differ_digits (suc a % 2) (b % 2) (omega arith) (omega arith),
  bit_xor-bitwise (suc a) b,
  bit_xor-bitwise (suc a / 2) (b / 2),
  peel (λ y. y) differ a b,
)
