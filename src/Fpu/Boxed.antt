-- ===== src/Fpu/Boxed.antt =====
-- extension/rv64_fpu.c: single-precision results are NaN-boxed.
use mathlib.Core.Bool.{false≢true, true≢false}
use pglinux.Mem.Keeps.{match_Loaded}
use pglinux.Base.{
  if_both₂, if_same, if_split, refl, none, ◌∙◌, ◌&&◌, Option, ◌%◌, ◌/◌, ℕ, ◌+◌, ◌*◌, ◌^◌, ◌≡◌, sym,
  subst, ltb, some, if_both, Bool, true, false, ◌==◌, ◌||◌, if◌then◌else◌, update_self, arith,
}
use pglinux.Word.{not32, u32, u64, ◌&&&◌, ◌>>>◌}
use pglinux.Word.Bits.Fields.{or_fields, pow-pos}
use native.Mathlib.Nat.{mod-lt}
use pglinux.Ram.{Memory}
use pglinux.Virtio.{VirtioDev}
use pglinux.Cpu.{Cpu, Access}
use pglinux.Mem.{cpu_load}
use pglinux.Decode.{opcode, rd, funct3, rs1, rs2, funct7, imm_i}
use pglinux.Exec.{FpResult, fp_ok, fp_unimplemented, fp_trapped}
use pglinux.Fpu.{
  Host, mark_fs_dirty, put_f, box, fused, writes_int, writes_single, single_result, sign_inject,
  write_s, fp_arith, fp_fused, fp_load, put_loaded, fp_exec, rd_f,
}

-- The upper half is all ones: the register holds a single.
unfoldable pub IsBoxed : ℕ → Type 0
IsBoxed v = (v >>> 32) ≡ 0xFFFFFFFF

pub box-fields : (bits : ℕ) → box bits ≡ 0xFFFFFFFF * 2 ^ 32 + u32 bits
unfolding box
box-fields bits = or_fields 32 0xFFFFFFFF (u32 bits) (mod-lt bits (pow-pos 32))

pub box-IsBoxed : (bits : ℕ) → IsBoxed (box bits)
unfolding IsBoxed
box-IsBoxed bits = omega (arith, box-fields bits)

pub u32-box : (bits : ℕ) → u32 (box bits) ≡ u32 bits
u32-box bits = omega (arith, box-fields bits)

-- Reading a boxed value as a single gives its bits.
pub rd_f-box : (host : Host) (c : Cpu) (r bits : ℕ) → c.f r ≡ box bits → rd_f host c r ≡ u32 bits
unfolding rd_f
rd_f-box host c r bits h = ground (arith, box-fields bits, h)

-- OP-FP with the format S, the low two bits of funct7, and a funct5 with a single-precision result:
-- FADD, FSUB, FMUL, FDIV, FSQRT, FCVT.S.D, FCVT from an integer, FMV.W.X, and with the funct3 that
-- they have, FSGNJ, FSGNJN and FSGNJX, and FMIN and FMAX.
abbrev pub single_funct5 : ℕ → ℕ → Bool
single_funct5 f5 f3 =
    f5 == 0x00
    || f5 == 0x01
    || f5 == 0x02
    || f5 == 0x03
    || f5 == 0x0B
    || f5 == 0x08
    || f5 == 0x1A
    || f5 == 0x1E
    || (f5 == 0x04 && ltb f3 3)
    || (f5 == 0x05 && ltb f3 2)

abbrev pub single_arith : ℕ → ℕ → Bool
single_arith f7 f3 = f7 % 4 == 0 && single_funct5 (f7 / 4) f3

-- The instructions that the instruction set gives a single-precision result: FLW, and the fused ones
-- and the ones of OP-FP in the format S.
unfoldable pub single_insn : ℕ → Bool
single_insn insn =
    let op = opcode insn in
    if op == 0x07
    then funct3 insn == 2
    else if op == 0x27
    then false
    else if op == 0x43 || op == 0x47 || op == 0x4B || op == 0x4F
    then (insn >>> 25 &&& 0x3) == 0
    else if op == 0x53
    then single_arith (funct7 insn) (funct3 insn)
    else false

-- The instruction has written a boxed result, or trapped; it is not refused.
unfoldable pub BoxedResult : ℕ → FpResult × Cpu → Type 0
BoxedResult rd (fp_ok, d) = IsBoxed (d.f rd)
BoxedResult rd (fp_unimplemented, d) = ⊥
BoxedResult rd (fp_trapped, d) = Unit

module _ (host : Host) (insn : ℕ) where
  P : Bool → FpResult × Cpu → Type 0
  P single r = single ≡ true → BoxedResult (rd insn) r

  other : (r : FpResult × Cpu) → P false r
  unfolding P
  other r h = absurd (false≢true h)

  boxed : (c : Cpu) (single : Bool) (bits : ℕ) → P single (fp_ok, put_f c (rd insn) (box bits))
  unfolding P BoxedResult
  boxed c single bits h =
      subst IsBoxed (sym (update_self c.f (rd insn) (box bits))) (box-IsBoxed bits)

  faulted : (c : Cpu) (single : Bool) → P single (fp_trapped, c)
  unfolding P BoxedResult
  faulted c single h = tt

  -- The condition on the fields of an instruction of OP-FP, and a result.
  abbrev S : Bool
  S = single_arith (funct7 insn) (funct3 insn)

  Given : Option ℕ → Type 0
  Given none = ⊥
  Given (some v) = Unit

  no_int : S ≡ true → writes_int host (funct7 insn) ≡ false
  unfolding writes_int
  no_int h = ground (arith, h)

  a_single : S ≡ true → writes_single host (funct7 insn) ≡ true
  unfolding writes_single
  a_single h = ground (arith, h)

  signs :
      (a b : ℕ)
      → ltb (funct3 insn) 3 ≡ true
      → Given (sign_inject 0x7FFFFFFF 0x80000000 not32 (funct3 insn) a b)
  unfolding sign_inject Given
  signs a b h =
      if_split Given (funct3 insn == 0) (λ e. tt)
        λ n0.
          if_split Given (funct3 insn == 1) (λ e. tt)
            λ n1. if_split Given (funct3 insn == 2) (λ e. tt) λ n2. absurd (none_left n0 n1 n2)
    where
      none_left :
          (funct3 insn == 0) ≡ false → (funct3 insn == 1) ≡ false → (funct3 insn == 2) ≡ false → ⊥
      none_left n0 n1 n2 = ground (arith, h, n0, n1, n2)

  single_result-Given : (c : Cpu) → S ≡ true → Given (single_result host c insn)
  unfolding single_result Given
  single_result-Given c h =
      let f7 = funct7 insn in
      if_both Given (f7 == 0x00) tt (
        if_both Given (f7 == 0x04) tt (
          if_both Given (f7 == 0x08) tt (
            if_both Given (f7 == 0x0C) tt (
              if_both Given (f7 == 0x2C) tt (
                if_split Given (f7 == 0x10) (λ e. signs _ _ (ground (arith, h, e)))
                  λ n.
                    if_both Given (f7 == 0x14) tt
                      (if_both Given (f7 == 0x68) tt (if_both Given (f7 == 0x78) tt tt)))))))

  written : (c : Cpu) (o : Option ℕ) → Given o → BoxedResult (rd insn) (write_s host c (rd insn) o)
  unfolding Given P
  written c none g = absurd g
  written c (some v) g = boxed c true v refl

  -- What is not boxed is no instruction of the format S.
  arith-P : (c : Cpu) → P S (fp_arith host c insn)
  unfolding fp_arith P
  arith-P c h =
      let Q = λ (r : FpResult × Cpu). BoxedResult (rd insn) r in
      if_split Q (writes_int host (funct7 insn)) (λ e. absurd (true≢false (sym e ∙ no_int h)))
        λ n.
          if_split Q (writes_single host (funct7 insn))
            (λ e. written c (single_result host c insn) (single_result-Given c h))
            λ e. absurd (true≢false (sym (a_single h) ∙ e))

  fused-P : (c : Cpu) → P ((insn >>> 25 &&& 0x3) == 0) (fp_fused host c insn)
  unfolding fp_fused
  fused-P c =
      let fmt = insn >>> 25 &&& 0x3 in
      subst
        (λ b. P b (
          if fmt == 0
          then (
            fp_ok,
            put_f c (rd insn) (
                box (
                  fused host.float (opcode insn) (rd_f host c (rs1 insn)) (rd_f host c (rs2 insn))
                    (rd_f host c (insn >>> 27 &&& 0x1F)))),
          )
          else if fmt == 1
          then (
            fp_ok,
            put_f c (rd insn) (
                fused host.double (opcode insn) (c.f (rs1 insn)) (c.f (rs2 insn))
                  (c.f (insn >>> 27 &&& 0x1F))),
          )
          else (fp_unimplemented, c)))
        (if_same (fmt == 0)) (if_both₂ P (fmt == 0) (boxed c true _) (other _))

  module _ (net_process : VirtioDev → ℕ → Memory → ℕ → VirtioDev × Memory) where
    load-P : (c : Cpu) → P (funct3 insn == 2) (fp_load host net_process c insn)
    unfolding fp_load
    load-P c =
        let addr = u64 (c.x (rs1 insn) + imm_i insn) in
        subst
          (λ b. P b (
            if funct3 insn == 2
            then put_loaded host net_process (cpu_load net_process c addr 4 Access.read) addr
                (rd insn) box
            else if funct3 insn == 3
            then put_loaded host net_process (cpu_load net_process c addr 8 Access.read) addr
                (rd insn) (λ v. v)
            else (fp_unimplemented, c)))
          (if_same (funct3 insn == 2))
          (if_both₂ P (funct3 insn == 2)
            (match_Loaded (P true) (cpu_load net_process c addr 4 Access.read).0
              (λ e. faulted _ true) λ v. boxed _ true v)
            (other _))

    exec-P : (c : Cpu) → P (single_insn insn) (fp_exec host net_process c insn)
    unfolding fp_exec single_insn
    exec-P c =
        let op = opcode insn in
        let c1 = mark_fs_dirty c in
        if_both₂ P (op == 0x07) (load-P c1) (
          if_both₂ P (op == 0x27) (other _) (
            if_both₂ P (op == 0x43 || op == 0x47 || op == 0x4B || op == 0x4F) (fused-P c1)
              (if_both₂ P (op == 0x53) (arith-P c1) (other _))))

module _ (host : Host) (net_process : VirtioDev → ℕ → Memory → ℕ → VirtioDev × Memory) where
  -- An instruction that the instruction set gives a single-precision result, a load, a fused operation,
  -- an arithmetic one, a conversion or a move, leaves it NaN-boxed in its register, or traps: none
  -- of them is refused.
  pub fp_exec-BoxedResult :
      (c : Cpu) (insn : ℕ)
      → single_insn insn ≡ true
      → BoxedResult (rd insn) (fp_exec host net_process c insn)
  unfolding P
  fp_exec-BoxedResult c insn h = exec-P host insn net_process c h
