-- ===== src/Trap/Status.antt =====
-- extension/rv64_cpu.c: the updates of single bits of mstatus.
use pglinux.Base.{ℕ, ◌+◌, ◌-◌, ◌*◌, ◌≡◌, ◌==◌, if◌then◌else◌, arith, ◌^◌, ◌≤◌, ◌<◌, ◌%◌}
use pglinux.Word.{◌&&&◌, ◌|||◌, not64}
use pglinux.Word.Bits.{bit}
use pglinux.Word.Bits.Fields.{and_mask, pow_mono}
use pglinux.Word.Bits.Shift.{bit_of_lt}
use pglinux.Word.Bits.Single.{bit-set, bit-clear, bit_digit}
use pglinux.Word.Bits.Put.{bit-put, put-lt, lt_of_bits}

-- One bit replaced, at the numerals of mstatus.
pub put1 :
    (k j m d : ℕ)
    → m < 2 ^ 64
    → d ≤ 1
    → j + 1 ≤ 64
    → bit k (m &&& not64 (2 ^ j) ||| (d * 2 ^ j)) ≡ (if k == j then d else bit k m)
put1 k j m d h g l =
    ground (arith, bit-put k j 1 64 m d h (omega (arith, g)) l, bit_digit (k - j) d g)

pub put1-lt :
    (j m d : ℕ) → m < 2 ^ 64 → d ≤ 1 → j + 1 ≤ 64 → (m &&& not64 (2 ^ j) ||| (d * 2 ^ j)) < 2 ^ 64
put1-lt j m d h g l = ground (arith, put-lt j 1 64 m d h (omega (arith, g)) l)

-- A bit cleared leaves a word.
pub clear-lt : (j m : ℕ) → m < 2 ^ 64 → j < 64 → (m &&& not64 (2 ^ j)) < 2 ^ 64
clear-lt j m h l =
    lt_of_bits 64 _ λ k g.
      ground (arith, bit-clear k j 64 m h l, bit_of_lt k m (omega (arith, h, pow_mono 64 k g)))

pub set-lt : (j m : ℕ) → m < 2 ^ 64 → j < 64 → (m ||| 2 ^ j) < 2 ^ 64
set-lt j m h l =
    lt_of_bits 64 _
      λ k g. ground (arith, bit-set k j m, bit_of_lt k m (omega (arith, h, pow_mono 64 k g)))

pub low_bit : (n : ℕ) → (n &&& 1) ≡ n % 2
low_bit n = and_mask 1 n
