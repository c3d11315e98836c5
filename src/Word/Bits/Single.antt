-- ===== src/Word/Bits/Single.antt =====
-- Testing, setting and clearing one bit.
use Prim.Native.Nat.{bit_and, bit_or}
use native.Mathlib.Nat.{pow-suc}
use pglinux.Base.{ℕ, zero, suc, ◌-◌, ◌*◌, ◌^◌, ◌≤◌, ◌<◌}
use pglinux.Base.{◌≡◌, ap, ◌∙◌, arith, if◌then◌else◌, inl, inr, Bool-cases, ◌==◌, ==→eq}
use pglinux.Word.Bits.{bit, bit-le-one, bit-and, bit-or, bits_ext}
use pglinux.Word.Bits.Shift.{bit_of_lt, bit-shl}
use pglinux.Word.Bits.Fields.{pow-pos, pow_mono, bit-and_not}

pub pow-strict : (j w : ℕ) → j < w → 2 ^ j < 2 ^ w
pow-strict j w h = omega (arith, pow_mono (suc j) w h, pow-suc 2 j, pow-pos j)

-- The bits of a bit.
pub bit_digit : (k d : ℕ) → d ≤ 1 → bit k d ≡ (if k == 0 then d else 0)
bit_digit zero d h = ground arith
bit_digit (suc k) d h =
    ground (arith, bit_of_lt (suc k) d (omega (arith, pow-strict 0 (suc k) (omega arith))))

-- `1 << j` has one bit.
pub bit-pow : (k j : ℕ) → bit k (2 ^ j) ≡ (if k == j then 1 else 0)
bit-pow k j =
    ap (bit k) {x = 2 ^ j} {y = 1 * 2 ^ j} (omega arith)
    ∙ ground (arith, bit-shl k j 1, bit_digit (k - j) 1)

-- `x & (1 << j)`
pub and_pow : (j x : ℕ) → bit_and x (2 ^ j) ≡ bit j x * 2 ^ j
and_pow j x = bits_ext _ _ λ k. elim (Bool-cases (k == j)) [
  | inl same ↦ ground (
    arith,
    bit-and k x (2 ^ j),
    bit-pow k j,
    bit-shl k j (bit j x),
    bit_digit (k - j) (bit j x) (bit-le-one j x),
    ap (λ (t : ℕ). bit t x) (==→eq k j same),
    bit-le-one j x,
  )
  | inr other ↦ ground (
    arith,
    bit-and k x (2 ^ j),
    bit-pow k j,
    bit-shl k j (bit j x),
    bit_digit (k - j) (bit j x) (bit-le-one j x),
  )
]

pub bit-set : (k j x : ℕ) → bit k (bit_or x (2 ^ j)) ≡ (if k == j then 1 else bit k x)
bit-set k j x = ground (arith, bit-or k x (2 ^ j), bit-pow k j, bit-le-one k x)

pub bit-clear :
    (k j w x : ℕ)
    → x < 2 ^ w
    → j < w
    → bit k (bit_and x (2 ^ w - 1 - 2 ^ j)) ≡ (if k == j then 0 else bit k x)
bit-clear k j w x h g =
    ground (arith, bit-and_not k w x (2 ^ j) h (pow-strict j w g), bit-pow k j, bit-le-one k x)

-- The C test `x & (1 << j)`.
pub test_bit : (j x : ℕ) → (bit_and x (2 ^ j) == 0) ≡ (bit j x == 0)
test_bit j x = ground (arith, and_pow j x, pow-pos j, bit-le-one j x)
