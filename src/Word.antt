-- ===== src/Word.antt =====
-- C's fixed-width unsigned integers as natural numbers: the casts, the operators and single bits.
pub mod Bits
use pglinux.Base.{Bool, not, ◌==◌, ℕ, ◌+◌, ◌-◌, ◌*◌, ◌/◌, ◌%◌, ◌^◌}
use Prim.Native.Nat.{bit_and, bit_or, bit_xor}

abbrev pub u8 : ℕ → ℕ
u8 n = n % 2 ^ 8

abbrev pub u16 : ℕ → ℕ
u16 n = n % 2 ^ 16

abbrev pub u32 : ℕ → ℕ
u32 n = n % 2 ^ 32

abbrev pub u64 : ℕ → ℕ
u64 n = n % 2 ^ 64

infixl 62 ◌<<<◌ ◌>>>◌
infixl 60 ◌&&&◌
infixl 58 ◌^^^◌
infixl 55 ◌|||◌
-- `<<` before the cast to its type: every use of it below is wrapped or shown to fit.
abbrev pub ◌<<<◌ : ℕ → ℕ → ℕ
x <<< k = x * 2 ^ k

abbrev pub ◌>>>◌ : ℕ → ℕ → ℕ
x >>> k = x / 2 ^ k

abbrev pub ◌&&&◌ : ℕ → ℕ → ℕ
a &&& b = bit_and a b

abbrev pub ◌|||◌ : ℕ → ℕ → ℕ
a ||| b = bit_or a b

abbrev pub ◌^^^◌ : ℕ → ℕ → ℕ
a ^^^ b = bit_xor a b

-- `a - b` on `uint64_t` and `uint32_t`, for operands that fit.
abbrev pub sub64 : ℕ → ℕ → ℕ
sub64 a b = u64 (a + 2 ^ 64 - b)

abbrev pub sub32 : ℕ → ℕ → ℕ
sub32 a b = u32 (a + 2 ^ 32 - b)

-- `~m` on `uint64_t` and `uint32_t`.
abbrev pub not64 : ℕ → ℕ
not64 m = 2 ^ 64 - 1 - m

abbrev pub not32 : ℕ → ℕ
not32 m = 2 ^ 32 - 1 - m

-- An integer as a condition.
abbrev pub nonzero : ℕ → Bool
nonzero n = not (n == 0)
