-- ===== src/Mmu/Address.antt =====
-- extension/rv64_mmu.c: the address that a TLB entry gives is that of the walk that filled it.
use pglinux.Base.{
  ℕ, ◌+◌, ◌-◌, ◌/◌, ◌^◌, ◌<◌, ◌≤◌, ◌≡◌, ◌==◌, if_both₂, ap, ◌∙◌, max, ltb, if◌then◌else◌, arith,
}
use pglinux.Word.{u64, ◌&&&◌, ◌|||◌, ◌<<<◌, ◌>>>◌}
use pglinux.Word.Bits.{bit, bits_ext, bit-or}
use pglinux.Word.Bits.Shift.{bit-shl, bit-shr, bit-mod}
use pglinux.Word.Bits.Fields.{and_mask}
use pglinux.Mmu.{leaf_address}

-- Bit `k` of a number shifted right and left again.
bit-page : (k j x : ℕ) → bit k (x >>> j <<< j) ≡ (if ltb k j then 0 else bit k x)
bit-page k j x = ground (arith, bit-shl k j (x / 2 ^ j), bit-shr (k - j) j x, same)
  where
    same : j ≤ k → bit (j + (k - j)) x ≡ bit k x
    same h = ap (λ (t : ℕ). bit t x) (omega (arith, h))

bit-low : (k n x : ℕ) → bit k (x &&& (2 ^ n - 1)) ≡ (if ltb k n then bit k x else 0)
bit-low k n x = ap (bit k) (and_mask n x) ∙ bit-mod k n x

-- Nine bits of the address, in their place.
bit-index :
    (k j v : ℕ)
    → bit k ((v >>> j &&& 0x1FF) <<< j)
      ≡ (if ltb k j then 0 else if ltb k (j + 9) then bit k v else 0)
bit-index k j v = ground (
  arith,
  bit-shl k j (v / 2 ^ j &&& 0x1FF),
  bit-low (k - j) 9 (v / 2 ^ j),
  bit-shr (k - j) j v,
  same,
)
  where
    same : j ≤ k → bit (j + (k - j)) v ≡ bit k v
    same h = ap (λ (t : ℕ). bit t v) (omega (arith, h))

-- An address below 2 ^ 64 whose low bits are those of `v`, and which has the next bits of `v`.
record IsAddress (n v r : ℕ) : Type 0 where
  high : (k : ℕ) → 64 ≤ k → bit k r ≡ 0
  low : (k : ℕ) → k < 12 → bit k r ≡ bit k v
  between : (k : ℕ) → k < n → bit k v ≤ bit k r

-- Its page with the offset into a page of 2 ^ n bytes is the address again.
page_again :
    (n v r : ℕ) → 12 ≤ n → IsAddress n v r → (u64 (r >>> 12 <<< 12) ||| (v &&& (2 ^ n - 1))) ≡ r
page_again n v r large a = bits_ext _ _ each
  where
    each : (k : ℕ) → bit k (u64 (r >>> 12 <<< 12) ||| (v &&& (2 ^ n - 1))) ≡ bit k r
    each k = ground (
      arith,
      bit-or k (u64 (r >>> 12 <<< 12)) (v &&& (2 ^ n - 1)),
      bit-mod k 64 (r >>> 12 <<< 12),
      bit-page k 12 r,
      bit-low k n v,
      a.high k,
      a.low k,
      a.between k,
      large,
    )

small-IsAddress : (ppn v : ℕ) → IsAddress 12 v (u64 (ppn <<< 12) ||| (v &&& 0xFFF))
small-IsAddress ppn v = record {
  high = λ k h. ground (arith, bits k, h);
  low = λ k h. ground (arith, bits k, h);
  between = λ k h. ground (arith, bits k, h);
}
  where
    bits :
        (k : ℕ)
        → bit k (u64 (ppn <<< 12) ||| (v &&& 0xFFF))
          ≡ max
              (if ltb k 64 then if ltb k 12 then 0 else bit (k - 12) ppn else 0)
              (if ltb k 12 then bit k v else 0)
    bits k = ground (
      arith,
      bit-or k (u64 (ppn <<< 12)) (v &&& 0xFFF),
      bit-mod k 64 (ppn <<< 12),
      bit-shl k 12 ppn,
      bit-low k 12 v,
    )

-- The base of a page of 2 ^ 21 or 2 ^ 30 bytes, with the indices of the address below it.
large-IsAddress :
    (a v : ℕ)
    → ((k : ℕ) → 64 ≤ k → bit k a ≡ 0)
    → ((k : ℕ) → k < 12 → bit k a ≡ 0)
    → IsAddress 21 v (a ||| (v >>> 12 &&& 0x1FF) <<< 12 ||| (v &&& 0xFFF))
large-IsAddress a v top bottom = record {
  high = λ k h. ground (arith, bits k, h, top k);
  low = λ k h. ground (arith, bits k, h, bottom k);
  between = λ k h. ground (arith, bits k, h);
}
  where
    bits :
        (k : ℕ)
        → bit k (a ||| (v >>> 12 &&& 0x1FF) <<< 12 ||| (v &&& 0xFFF))
          ≡ max
              (max (bit k a) (if ltb k 12 then 0 else if ltb k 21 then bit k v else 0))
              (if ltb k 12 then bit k v else 0)
    bits k = ground (
      arith,
      bit-or k (a ||| (v >>> 12 &&& 0x1FF) <<< 12) (v &&& 0xFFF),
      bit-or k a ((v >>> 12 &&& 0x1FF) <<< 12),
      bit-index k 12 v,
      bit-low k 12 v,
    )

giant-IsAddress :
    (a v : ℕ)
    → ((k : ℕ) → 64 ≤ k → bit k a ≡ 0)
    → ((k : ℕ) → k < 12 → bit k a ≡ 0)
    → IsAddress 30 v
        (a ||| (v >>> 21 &&& 0x1FF) <<< 21 ||| (v >>> 12 &&& 0x1FF) <<< 12 ||| (v &&& 0xFFF))
giant-IsAddress a v top bottom =
    let b = a ||| (v >>> 21 &&& 0x1FF) <<< 21 in
    let inner : IsAddress 21 v (b ||| (v >>> 12 &&& 0x1FF) <<< 12 ||| (v &&& 0xFFF)) =
      large-IsAddress b v
        (λ k h.
          ground (arith, bit-or k a ((v >>> 21 &&& 0x1FF) <<< 21), bit-index k 21 v, top k, h))
        (λ k h.
          ground
            (arith, bit-or k a ((v >>> 21 &&& 0x1FF) <<< 21), bit-index k 21 v, bottom k, h)) in
    record {
      high = inner.high;
      low = inner.low;
      between = λ k h. ground (
        arith,
        h,
        inner.between k,
        bit-or k (b ||| (v >>> 12 &&& 0x1FF) <<< 12) (v &&& 0xFFF),
        bit-or k b ((v >>> 12 &&& 0x1FF) <<< 12),
        bit-or k a ((v >>> 21 &&& 0x1FF) <<< 21),
        bit-index k 21 v,
      );
    }

-- A shifted number that is cast has no bits above the width, and none below the shift.
shifted_high : (k j x : ℕ) → 64 ≤ k → bit k (u64 (x <<< j)) ≡ 0
shifted_high k j x h = ground (arith, bit-mod k 64 (x <<< j), h)

shifted_low : (k j x : ℕ) → k < j → bit k (u64 (x <<< j)) ≡ 0
shifted_low k j x h = ground (arith, bit-mod k 64 (x <<< j), bit-shl k j x, h)

-- The page of a walk's result with the offset that a hit takes at the level of the leaf.
pub leaf_address-again :
    (pte level v : ℕ)
    → (u64 (leaf_address pte level v >>> 12 <<< 12)
        ||| (if level == 2
            then v &&& 0x3FFFFFFF
            else if level == 1
            then v &&& 0x1FFFFF
            else v &&& 0xFFF))
      ≡ leaf_address pte level v
unfolding leaf_address
leaf_address-again pte level v =
    let P = λ (offset r : ℕ). (u64 (r >>> 12 <<< 12) ||| offset) ≡ r in
    let ppn = pte >>> 10 in
    if_both₂ P (level == 2)
      (page_again 30 v _ (omega arith) (
        giant-IsAddress (u64 (ppn <<< 12)) v (λ k h. shifted_high k 12 ppn h)
          λ k h. shifted_low k 12 ppn h))
      (if_both₂ P (level == 1)
        (page_again 21 v _ (omega arith) (
          large-IsAddress (u64 (ppn >>> 9 <<< 21)) v (λ k h. shifted_high k 21 (ppn >>> 9) h)
            λ k h. shifted_low k 21 (ppn >>> 9) (omega (arith, h))))
        (page_again 12 v _ (omega arith) (small-IsAddress ppn v)))
