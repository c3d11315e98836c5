-- ===== src/Jit/Uncompress/Agree.antt =====
-- extension/rv64_sljit.c and rv64_cpu.c: the JIT expands what the interpreter expands.
use mathlib.Core.Option.{Option, none, some}
use pglinux.Base.{ℕ, ◌+◌, ◌-◌, ◌*◌, ◌^◌, ◌<◌, ◌≡◌, ap, if◌then◌else◌, arith}
use pglinux.Word.{nonzero, ◌&&&◌, ◌|||◌, ◌>>>◌}
use pglinux.Word.Bits.Fields.{and_mask}
use pglinux.Word.Bits.Put.{or_lt}
use pglinux.Word.Bits.Single.{test_bit}
use pglinux.Rvc.{part, sext32, branch}
use pglinux.Rvc.Expand.{expand, quadrant0, quadrant1, quadrant2, register_ops}
use pglinux.Jit.Uncompress.{
  uncompress0, uncompress1, uncompress2, uncompress_ops, branch_off, branch_sub, sljit_uncompress,
}

-- The expansion, or 0 for none.
unfoldable pub or_zero : Option ℕ → ℕ
or_zero none = 0
or_zero (some v) = v

-- The sign of a number of `k + 1` bits by subtraction, and by shifts.
sext_sub :
    (off : ℕ)
    → off < 512
    → (if nonzero (off &&& 0x100) then off + 2 ^ 32 - 0x200 else off) ≡ sext32 off 23
unfolding sext32
sext_sub off h = ground (arith, h, test_bit 8 off)

branch-sub : (funct3 ci : ℕ) → branch_sub funct3 ci ≡ branch funct3 ci
unfolding branch_sub branch_off branch
branch-sub funct3 ci =
    ap
      (λ (off : ℕ).
        part off 12 1 31
        ||| part off 5 0x3F 25
        ||| part off 1 0xF 8
        ||| part off 11 1 7
        ||| ((ci >>> 7 &&& 7) + 8) * 2 ^ 15
        ||| funct3 * 2 ^ 12
        ||| 0x63)
      (sext_sub _ (
        or_lt 9 _ _
          (or_lt 9 _ _
            (or_lt 9 _ _
              (or_lt 9 _ _ (omega (arith, and_mask 1 (ci >>> 12)))
                (omega (arith, and_mask 2 (ci >>> 10))))
              (omega (arith, and_mask 2 (ci >>> 5))))
            (omega (arith, and_mask 2 (ci >>> 3))))
          (omega (arith, and_mask 1 (ci >>> 2)))))

agree0 : (ci : ℕ) → uncompress0 ci ≡ or_zero (quadrant0 ci)
unfolding uncompress0 quadrant0 or_zero
agree0 ci = ground arith

agree_ops : (ci : ℕ) → uncompress_ops ci ≡ or_zero (register_ops ci)
unfolding uncompress_ops register_ops or_zero
agree_ops ci = ground (arith, and_mask 2 (ci >>> 5))

agree1 : (ci : ℕ) → uncompress1 ci ≡ or_zero (quadrant1 ci)
unfolding uncompress1 quadrant1 or_zero
agree1 ci = ground (
  arith,
  agree_ops ci,
  branch-sub 0 ci,
  branch-sub 1 ci,
  and_mask 3 (ci >>> 13),
  and_mask 2 (ci >>> 10),
)

agree2 : (ci : ℕ) → uncompress2 ci ≡ or_zero (quadrant2 ci)
unfolding uncompress2 quadrant2 or_zero
agree2 ci = ground arith

-- The JIT expands every compressed instruction as the interpreter does, and gives 0 for the ones that
-- are illegal.
pub sljit_uncompress-expand : (ci : ℕ) → sljit_uncompress ci ≡ or_zero (expand ci)
unfolding sljit_uncompress expand or_zero
sljit_uncompress-expand ci = ground (arith, agree0 ci, agree1 ci, agree2 ci)
