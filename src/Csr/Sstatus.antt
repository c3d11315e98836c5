-- ===== src/Csr/Sstatus.antt =====
-- extension/rv64_cpu.c: sstatus is a window on mstatus.
use pglinux.Base.{ℕ, ◌≡◌, refl, ◌==◌, ltb, some, ap, arith, inl, inr, ◌^◌, ◌<◌}
use pglinux.Word.{◌&&&◌, not64}
use pglinux.Cpu.{Cpu}
use pglinux.Word.Bits.{bit, bit-and, bit-or, bit-le-one, bits_ext}
use pglinux.Word.Bits.Shift.{bit-not, bit_of_lt}
use pglinux.Word.Bits.Fields.{pow_mono}
use pglinux.Base.{Bool-cases}
use pglinux.Csr.{
  csr_read, csr_write, read_machine, read_supervisor, write_machine, write_supervisor, sstatus_mask,
  merge64,
}

-- No bit is both in a mask and in its complement.
disjoint : (k m : ℕ) → m < 2 ^ 64 → (bit k m ≡ 1) → bit k (not64 m) ≡ 0
disjoint k m h b = elim (Bool-cases (ltb k 64)) [
  | inl lt ↦ omega (arith, bit-not k 64 m h (ground arith), b)
  | inr ge ↦ bit_of_lt k (not64 m) (omega (arith, pow_mono 64 k (ground arith)))
]

merge_in : (m old val : ℕ) → m < 2 ^ 64 → (merge64 m old val &&& m) ≡ (val &&& m)
merge_in m old val h = bits_ext _ _ λ k. elim (Bool-cases (bit k m == 1)) [
  | inl set ↦ ground (
    arith,
    disjoint k m h (ground arith),
    bit-and k (merge64 m old val) m,
    bit-or k (old &&& not64 m) (val &&& m),
    bit-and k old (not64 m),
    bit-and k val m,
    bit-le-one k val,
  )
  | inr clear ↦ ground (arith, bit-and k (merge64 m old val) m, bit-and k val m, bit-le-one k m)
]

merge_out : (m old val : ℕ) → m < 2 ^ 64 → (merge64 m old val &&& not64 m) ≡ (old &&& not64 m)
merge_out m old val h = bits_ext _ _ λ k. elim (Bool-cases (bit k m == 1)) [
  | inl set ↦ ground (
    arith,
    disjoint k m h (ground arith),
    bit-and k (merge64 m old val) (not64 m),
    bit-and k old (not64 m),
  )
  | inr clear ↦ ground (
    arith,
    bit-and k (merge64 m old val) (not64 m),
    bit-or k (old &&& not64 m) (val &&& m),
    bit-and k old (not64 m),
    bit-and k val m,
    bit-le-one k m,
    bit-le-one k old,
    bit-le-one k (not64 m),
  )
]

-- A write to sstatus succeeds, is read back under the mask of sstatus, and leaves the bits of mstatus
-- outside the mask alone, among them those of machine mode.
pub csr_write-sstatus :
    (c : Cpu) (val : ℕ)
    → let d = record c { mstatus = merge64 sstatus_mask c.mstatus val } in
      (csr_write c 0x100 val ≡ some d)
      × (csr_read d 0x100 ≡ some (val &&& sstatus_mask))
      × ((d.mstatus &&& not64 sstatus_mask) ≡ (c.mstatus &&& not64 sstatus_mask))
unfolding csr_read csr_write read_machine read_supervisor write_machine write_supervisor
csr_write-sstatus c val = (
  refl,
  ap some (merge_in sstatus_mask c.mstatus val (omega arith)),
  merge_out sstatus_mask c.mstatus val (omega arith),
)
