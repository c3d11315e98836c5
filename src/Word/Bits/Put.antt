-- ===== src/Word/Bits/Put.antt =====
-- Replacing a field of a word: `(m & ~mask) | (d << j)`.
use Prim.Native.Nat.{bit_and, bit_or}
use pglinux.Base.{
  min, max, ℕ, ◌+◌, ◌-◌, ◌*◌, ◌%◌, ◌^◌, ◌≤◌, ◌<◌, ◌≡◌, ap, arith, ltb, leb, if◌then◌else◌, ◌&&◌,
  Bool-cases, inl, inr, subst,
}
use native.Mathlib.Nat.{mod-lt, mul_comm}
use pglinux.Word.Bits.{bit, bit-and, bit-or, bit-le-one, bits_ext}
use pglinux.Word.Bits.Shift.{bit-shl, bit_of_lt, bit-mod, pow-add}
use pglinux.Word.Bits.Fields.{bit-mask, bit-and_not, pow-pos, pow_mono}

-- A number without bits from `w` on is below 2 ^ w.
pub lt_of_bits : (w x : ℕ) → ((k : ℕ) → w ≤ k → bit k x ≡ 0) → x < 2 ^ w
lt_of_bits w x h = subst (λ t. t < 2 ^ w) same (mod-lt x (pow-pos w))
  where
    same : x % 2 ^ w ≡ x
    same = bits_ext _ _ λ k. elim (Bool-cases (ltb k w)) [
      | inl lt ↦ ground (arith, bit-mod k w x)
      | inr ge ↦ ground (arith, bit-mod k w x, h k (ground arith))
    ]

-- Fields below a power of two, joined.
pub or_lt : (n a b : ℕ) → a < 2 ^ n → b < 2 ^ n → bit_or a b < 2 ^ n
or_lt n a b p q = lt_of_bits n (bit_or a b) λ k h. omega (
  arith,
  bit-or k a b,
  bit_of_lt k a (omega (arith, p, pow_mono n k h)),
  bit_of_lt k b (omega (arith, q, pow_mono n k h)),
)

pub and_lt : (n a b : ℕ) → b < 2 ^ n → bit_and a b < 2 ^ n
and_lt n a b q =
    lt_of_bits n (bit_and a b)
      λ k h. omega (arith, bit-and k a b, bit_of_lt k b (omega (arith, q, pow_mono n k h)))

mask_fits : (j n w : ℕ) → j + n ≤ w → (2 ^ n - 1) * 2 ^ j < 2 ^ w
mask_fits j n w h = omega (
  arith,
  pow-pos j,
  pow_mono (j + n) w h,
  pow-add 2 j n,
  mul_comm (2 ^ j) (2 ^ n),
  ap (λ (t : ℕ). t * 2 ^ j) {x = 2 ^ n} {y = 2 ^ n - 1 + 1} (omega (arith, pow-pos n)),
)

-- The bits of a word after `d` was put into its `n` bits from `j` on.
pub bit-put :
    (k j n w m d : ℕ)
    → m < 2 ^ w
    → d < 2 ^ n
    → j + n ≤ w
    → bit k (bit_or (bit_and m (2 ^ w - 1 - (2 ^ n - 1) * 2 ^ j)) (d * 2 ^ j))
      ≡ (if leb j k && ltb k (j + n) then bit (k - j) d else bit k m)
bit-put k j n w m d hm hd hj = elim (Bool-cases (ltb (k - j) n)) [
  | inl lt ↦ elim (Bool-cases (ltb k j)) [
    | inl below ↦ ground (arith, parts, bit-shl k j (2 ^ n - 1), bit-shl k j d, bit-le-one k m)
    | inr above ↦
        ground
          (arith, parts, bit-shl k j (2 ^ n - 1), bit-mask (k - j) n, bit-shl k j d, bit-le-one k m)
  ]
  | inr ge ↦ ground (
    arith,
    bit-or k (bit_and m (2 ^ w - 1 - (2 ^ n - 1) * 2 ^ j)) (d * 2 ^ j),
    bit-and_not k w m ((2 ^ n - 1) * 2 ^ j) hm (mask_fits j n w hj),
    bit-shl k j (2 ^ n - 1),
    bit-mask (k - j) n,
    bit-shl k j d,
    bit-le-one k m,
    bit_of_lt (k - j) d (omega (arith, pow_mono n (k - j) (ground arith))),
  )
]
  where
    parts :
        bit k (bit_or (bit_and m (2 ^ w - 1 - (2 ^ n - 1) * 2 ^ j)) (d * 2 ^ j))
        ≡ max (min (bit k m) (1 - bit k ((2 ^ n - 1) * 2 ^ j))) (bit k (d * 2 ^ j))
    parts = omega (
      arith,
      bit-or k (bit_and m (2 ^ w - 1 - (2 ^ n - 1) * 2 ^ j)) (d * 2 ^ j),
      bit-and_not k w m ((2 ^ n - 1) * 2 ^ j) hm (mask_fits j n w hj),
    )

pub put-lt :
    (j n w m d : ℕ)
    → m < 2 ^ w
    → d < 2 ^ n
    → j + n ≤ w
    → bit_or (bit_and m (2 ^ w - 1 - (2 ^ n - 1) * 2 ^ j)) (d * 2 ^ j) < 2 ^ w
put-lt j n w m d hm hd hj = lt_of_bits w _ λ k h.
    ground (arith, bit-put k j n w m d hm hd hj, bit_of_lt k m (omega (arith, pow_mono w k h)))
