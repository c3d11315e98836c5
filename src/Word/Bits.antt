-- ===== src/Word/Bits.antt =====
-- Single bits, and the laws of `&`, `|`, `^` and shifts read bit by bit.
mod Digits
pub mod Shift
pub mod Fields
pub mod Single
pub mod Put
pub mod Top
use native.Mathlib.Nat.{pow-suc, div-div-eq-div-mul, mul_comm}
use pglinux.Base.{ℕ, zero, suc, ◌+◌, ◌-◌, ◌*◌, ◌/◌, ◌%◌, ◌^◌, ◌≤◌, ◌<◌, min, max}
use pglinux.Base.{◌≡◌, refl, sym, ap, ◌∙◌, arith, ltb, ◌==◌, if◌then◌else◌, Bool-cases, inl, inr}
use Prim.Native.Nat.{bit_and, bit_or, bit_xor}
use Digits.{low_and, low_or, low_xor}

-- Bit `k` of `x`, 0 or 1.
abbrev pub bit : ℕ → ℕ → ℕ
bit k x = x / 2 ^ k % 2

pub bit-le-one : (k x : ℕ) → bit k x ≤ 1
bit-le-one k x = omega arith

pub bit-suc : (k x : ℕ) → bit (suc k) x ≡ bit k (x / 2)
bit-suc k x =
    ap (λ (t : ℕ). t % 2)
      (ap (λ (t : ℕ). x / t) (pow-suc 2 k ∙ mul_comm (2 ^ k) 2)
        ∙ sym (div-div-eq-div-mul x 2 (2 ^ k)))

pub bit-and : (k a b : ℕ) → bit k (bit_and a b) ≡ min (bit k a) (bit k b)
bit-and zero a b = omega (arith, low_and a b)
bit-and (suc k) a b =
    rw (bit-suc, bit-suc k a, bit-suc k b, ← bit-and k (a / 2) (b / 2))
      (ap (bit k) (omega (arith, low_and a b)))

pub bit-or : (k a b : ℕ) → bit k (bit_or a b) ≡ max (bit k a) (bit k b)
bit-or zero a b = omega (arith, low_or a b)
bit-or (suc k) a b =
    rw (bit-suc, bit-suc k a, bit-suc k b, ← bit-or k (a / 2) (b / 2))
      (ap (bit k) (omega (arith, low_or a b)))

-- The exclusive or of two bits.
abbrev pub differs : ℕ → ℕ → ℕ
differs x y = (x + y) % 2

pub bit-xor : (k a b : ℕ) → bit k (bit_xor a b) ≡ differs (bit k a) (bit k b)
bit-xor zero a b = omega (arith, low_xor a b)
bit-xor (suc k) a b =
    rw (bit-suc, bit-suc k a, bit-suc k b, ← bit-xor k (a / 2) (b / 2))
      (ap (bit k) (omega (arith, low_xor a b)))

-- Numbers with the same bits are equal.
bits_ext_fuel : (n a b : ℕ) → a ≤ n → b ≤ n → ((k : ℕ) → bit k a ≡ bit k b) → a ≡ b
bits_ext_fuel zero a b p q h = omega arith
bits_ext_fuel (suc n) a b p q h = omega (
  arith,
  h 0,
  bits_ext_fuel n (a / 2) (b / 2) (omega arith) (omega arith)
      (λ k. sym (bit-suc k a) ∙ h (suc k) ∙ bit-suc k b),
)

pub bits_ext : (a b : ℕ) → ((k : ℕ) → bit k a ≡ bit k b) → a ≡ b
bits_ext a b h = bits_ext_fuel (a + b) a b (omega arith) (omega arith) h

pub or_comm : (a b : ℕ) → bit_or a b ≡ bit_or b a
or_comm a b = bits_ext _ _ λ k. omega (arith, bit-or k a b, bit-or k b a)

pub and_comm : (a b : ℕ) → bit_and a b ≡ bit_and b a
and_comm a b = bits_ext _ _ λ k. omega (arith, bit-and k a b, bit-and k b a)
