-- ===== src/Base/Int.antt =====
-- Signed integers over the native numbers, for the signed operations of the CPU.
use pglinux.Base.Tests.{ltb, leb, if◌then◌else◌}
use Prim.Native.Nat.{ℕ, suc, ◌+◌, ◌-◌, ◌*◌, ◌/◌, ◌%◌, ◌^◌}
use mathlib.Core.Bool.{Bool}

-- `negsuc n` is -(n + 1).
pub data ℤ : Type 0 where
  pos : ℕ → ℤ
  negsuc : ℕ → ℤ

abbrev pub pos_part : ℤ → ℕ
pos_part (pos n) = n
pos_part (negsuc n) = 0

abbrev pub neg_part : ℤ → ℕ
neg_part (pos n) = 0
neg_part (negsuc n) = suc n

-- a - b, as an integer.
abbrev pub sub_ℕ : ℕ → ℕ → ℤ
sub_ℕ a b = if leb b a then pos (a - b) else negsuc (b - a - 1)

infixl 70 ◌*ℤ◌
unfoldable pub ◌*ℤ◌ : ℤ → ℤ → ℤ
a *ℤ b =
    sub_ℕ (pos_part a * pos_part b + neg_part a * neg_part b)
      (pos_part a * neg_part b + neg_part a * pos_part b)

abbrev pub ltb_ℤ : ℤ → ℤ → Bool
ltb_ℤ a b = ltb (pos_part a + neg_part b) (pos_part b + neg_part a)

-- The integer that a `w`-bit pattern stands for.
abbrev pub signed : ℕ → ℕ → ℤ
signed w n = if ltb n (2 ^ (w - 1)) then pos n else negsuc (2 ^ w - n - 1)

-- The `w`-bit pattern of an integer: the cast to an unsigned type.
abbrev pub pattern_of : ℕ → ℤ → ℕ
pattern_of w (pos n) = n % 2 ^ w
pattern_of w (negsuc n) = 2 ^ w - 1 - n % 2 ^ w

-- `>>` of a signed value: the quotient by 2 ^ k, rounded down.
abbrev pub shift_right : ℤ → ℕ → ℤ
shift_right (pos n) k = pos (n / 2 ^ k)
shift_right (negsuc n) k = negsuc (n / 2 ^ k)

-- C's `/` and `%`: the quotient rounded towards zero, and the remainder with the sign of `a`.
unfoldable pub quotient : ℤ → ℤ → ℤ
quotient a b =
    let q = (pos_part a + neg_part a) / (pos_part b + neg_part b) in
    elim a [
      | pos _ ↦ elim b [ pos _ ↦ pos q | negsuc _ ↦ sub_ℕ 0 q ]
      | negsuc _ ↦ elim b [ pos _ ↦ sub_ℕ 0 q | negsuc _ ↦ pos q ]
    ]

unfoldable pub remainder : ℤ → ℤ → ℤ
remainder a b =
    let r = (pos_part a + neg_part a) % (pos_part b + neg_part b) in
    elim a [ pos _ ↦ pos r | negsuc _ ↦ sub_ℕ 0 r ]
