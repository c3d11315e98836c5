-- ===== src/Word/Bits/Fields.antt =====
-- `&` with a mask and `|` of disjoint fields, as arithmetic.
use Prim.Native.Nat.{bit_and, bit_or, bit_or-bitwise}
use native.Mathlib.Nat.{one-le-pow, pow-le-pow_right}
use pglinux.Base.{ℕ, zero, suc, ◌+◌, ◌-◌, ◌*◌, ◌/◌, ◌%◌, ◌^◌, ◌≤◌, ◌<◌, min}
use pglinux.Base.{◌≡◌, ap, ◌∙◌, arith, ltb, if◌then◌else◌, inl, inr, Bool-cases}
use pglinux.Base.{ltb→lt}
use pglinux.Word.Bits.{bit, bit-le-one, bit-and, bits_ext}
use pglinux.Word.Bits.Digits.{low_and, low_or}
use pglinux.Word.Bits.Shift.{bit_of_lt, bit-mod, bit-shl, bit-not, bit-zero, bit-shr}

pub pow-pos : (n : ℕ) → 0 < 2 ^ n
pow-pos n = one-le-pow n 2 (omega arith)

pub pow_mono : (n k : ℕ) → n ≤ k → 2 ^ n ≤ 2 ^ k
pow_mono n k h = pow-le-pow_right {n = 2} (omega arith) h

-- A bit of the mask of the `n` low bits.
pub bit-mask : (k n : ℕ) → bit k (2 ^ n - 1) ≡ (if ltb k n then 1 else 0)
bit-mask k n = elim (Bool-cases (ltb k n)) [
  | inl h ↦ rw h (
      ap (bit k) {x = 2 ^ n - 1} {y = 2 ^ n - 1 - 0} (omega arith)
      ∙ bit-not k n 0 (pow-pos n) (ltb→lt k n h)
      ∙ omega (arith, bit-zero k))
  | inr h ↦
      let le : n ≤ k = ground arith in
      rw h (bit_of_lt k (2 ^ n - 1) (omega (arith, pow-pos n, pow_mono n k le)))
]

-- `a & (2^n - 1)` is the remainder.
pub and_mask : (n a : ℕ) → bit_and a (2 ^ n - 1) ≡ a % 2 ^ n
and_mask n a =
    bits_ext _ _
      λ k. ground (arith, bit-and k a (2 ^ n - 1), bit-mask k n, bit-mod k n a, bit-le-one k a)

-- `a & ~m` bit by bit.
pub bit-and_not :
    (k w a m : ℕ)
    → a < 2 ^ w
    → m < 2 ^ w
    → bit k (bit_and a (2 ^ w - 1 - m)) ≡ min (bit k a) (1 - bit k m)
bit-and_not k w a m h g = elim (Bool-cases (ltb k w)) [
  | inl lt ↦ omega (arith, bit-and k a (2 ^ w - 1 - m), bit-not k w m g (ltb→lt k w lt))
  | inr ge ↦
      let le : w ≤ k = ground arith in
      omega (arith, bit-and k a (2 ^ w - 1 - m), bit_of_lt k a (omega (arith, pow_mono w k le)))
]

-- `a & ~(2^n - 1)` clears the low bits.
pub and_not_mask :
    (w n a : ℕ) → a < 2 ^ w → n ≤ w → bit_and a (2 ^ w - 1 - (2 ^ n - 1)) ≡ a / 2 ^ n * 2 ^ n
and_not_mask w n a h g = bits_ext _ _ λ k.
    let m = bit-and_not k w a (2 ^ n - 1) h (omega (arith, pow-pos n, pow_mono n w g)) in
    elim (Bool-cases (ltb k n)) [
      | inl lt ↦ ground (arith, m, bit-mask k n, bit-shl k n (a / 2 ^ n))
      | inr ge ↦
          let e : n + (k - n) ≡ k = ground arith in
          ground (
            arith,
            m,
            bit-mask k n,
            bit-shl k n (a / 2 ^ n),
            bit-shr (k - n) n a ∙ ap (λ (t : ℕ). bit t a) e,
            bit-le-one k a,
          )
    ]

or-disjoint_fuel : (n a b : ℕ) → a ≤ n → bit_and a b ≡ 0 → bit_or a b ≡ a + b
or-disjoint_fuel n zero b h e = omega (arith, bit_or-bitwise 0 b)
or-disjoint_fuel zero (suc a) b h e = absurd (omega arith)
or-disjoint_fuel (suc n) (suc a) b h e = omega (
  arith,
  low_or (suc a) b,
  low_and (suc a) b,
  or-disjoint_fuel n (suc a / 2) (b / 2) (omega arith) (omega (arith, low_and (suc a) b)),
)

-- `|` of numbers with no common bit is their sum.
pub or-disjoint : (a b : ℕ) → bit_and a b ≡ 0 → bit_or a b ≡ a + b
or-disjoint a b e = or-disjoint_fuel a a b (omega arith) e

pub and_fields : (n a b : ℕ) → b < 2 ^ n → bit_and (a * 2 ^ n) b ≡ 0
and_fields n a b h = bits_ext _ _ λ k. elim (Bool-cases (ltb k n)) [
  | inl lt ↦ ground (arith, bit-and k (a * 2 ^ n) b, bit-shl k n a, bit-zero k)
  | inr ge ↦
      let le : n ≤ k = ground arith in
      omega
        (arith, bit-and k (a * 2 ^ n) b, bit_of_lt k b (omega (arith, pow_mono n k le)), bit-zero k)
]

-- `(a << n) | b` is a sum when `b` fits `n` bits.
pub or_fields : (n a b : ℕ) → b < 2 ^ n → bit_or (a * 2 ^ n) b ≡ a * 2 ^ n + b
or_fields n a b h = or-disjoint (a * 2 ^ n) b (and_fields n a b h)
