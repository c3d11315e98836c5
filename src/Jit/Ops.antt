-- ===== src/Jit/Ops.antt =====
-- extension/rv64_sljit.c and rv64_cpu.c: the operations that the JIT selects compute what the
-- interpreter computes.
pub mod Words
use pglinux.Base.{
  ℕ, ◌+◌, ◌^◌, ◌<◌, ◌≡◌, refl, ap, ◌∙◌, true, ◌||◌, Option, none, some, List, [], ◌++◌, ◌==◌,
  if◌then◌else◌, if_split, arith,
}
use pglinux.Base.Int.{signed, pattern_of}
use pglinux.Word.{u32, sub32, ◌&&&◌, ◌<<<◌, ◌>>>◌}
use pglinux.Word.Bits.Fields.{and_mask}
use pglinux.Ram.{Memory}
use pglinux.Virtio.{VirtioDev}
use pglinux.Cpu.{Cpu}
use pglinux.Exec.{FpResult}
use pglinux.Alu.{alu_imm, alu_reg, alu_imm32, alu_reg32, widen32, sra32}
use pglinux.Jit.Calls.{Op2, Condition, Place, Call}
use pglinux.Jit.Emit.{ops_reg, ops_imm, ops_reg32, ops_imm32, on_r0, set_less, widen, funct7, imm20}
use pglinux.Jit.Engine.{Sljit, IsSljit, Host, get, put, run}
use pglinux.Jit.Runs.{Wrote, on_r0-Wrote, set_less-Wrote}

-- The JIT tells only 0x20 from the other values of funct7.
abbrev pub seen_funct7 : ℕ → ℕ
seen_funct7 f7 = if f7 == 0x20 then 0x20 else 0

imm20_low6 : (insn : ℕ) → insn < 2 ^ 32 → (imm20 insn &&& 0x3F) ≡ (insn >>> 20 &&& 0x3F)
unfolding imm20
imm20_low6 insn w = ground (arith, w, and_mask 6 (imm20 insn), and_mask 6 (insn >>> 20))

pub imm20_low5 : (insn : ℕ) → insn < 2 ^ 32 → (imm20 insn &&& 0x1F) ≡ (insn >>> 20 &&& 0x1F)
unfolding imm20
imm20_low5 insn w = ground (arith, w, and_mask 5 (imm20 insn), and_mask 5 (insn >>> 20))

funct7_high : (insn : ℕ) → insn < 2 ^ 32 → (insn >>> 25 &&& 0x7F) >>> 1 ≡ insn >>> 26
funct7_high insn w = omega (arith, w, and_mask 7 (insn >>> 25))

module _ (s : Sljit) (law : IsSljit s)
    (net_process : VirtioDev → ℕ → Memory → ℕ → VirtioDev × Memory)
    (fp_exec : Cpu → ℕ → FpResult × Cpu) where
  -- The calls compute the value that the interpreter writes.
  pub record Value (calls : List Call) (h : Host) (r : Option ℕ) : Type 0 where
    pub v : ℕ
    pub is : r ≡ some v
    pub wrote : Wrote s law net_process fp_exec calls h v

  -- Where the JIT has no calls, the instruction is illegal.
  unfoldable pub Computes : Option (List Call) → List Call → Host → Option ℕ → Type 0
  Computes none after h r = r ≡ none
  Computes (some code) after h r = Value (code ++ after) h r

  op_value :
      (op : Op2) (b : Place) (h : Host) (v : ℕ)
      → s.op2 op h.r0 (get s b h) ≡ v
      → Computes (some (on_r0 op b)) [] h (some v)
  unfolding Computes
  op_value op b h v e = record {
    v = v;
    is = refl;
    wrote = on_r0-Wrote s law net_process fp_exec op b h v e;
  }

  set_value :
      (cond : Condition) (b : Place) (h : Host) (v : ℕ)
      → (if s.holds cond h.r0 (get s b h) then 1 else 0) ≡ v
      → Computes (some (set_less cond b)) [] h (some v)
  unfolding Computes
  set_value cond b h v e = record {
    v = v;
    is = refl;
    wrote = set_less-Wrote s law net_process fp_exec cond b h v e;
  }

  pub illegal_value :
      (h : Host) (after : List Call) (r : Option ℕ) → r ≡ none → Computes none after h r
  unfolding Computes
  illegal_value h after r e = e

  pub ops_reg-Computes :
      (f3 f7 : ℕ) (h : Host)
      → f3 < 8
      → ((f3 == 1 || f3 == 5) ≡ true → h.r1 < 64)
      → Computes (ops_reg f3 f7) [] h (some (alu_reg f3 (seen_funct7 f7) h.r0 h.r1))
  unfolding ops_reg get alu_reg
  ops_reg-Computes f3 f7 h lt small =
      let a = h.r0 in
      let b = h.r1 in
      let P =
        λ (o : Option (List Call)). Computes o [] h (some (alu_reg f3 (seen_funct7 f7) a b)) in
      if_split P (f3 == 0) (λ e. op_value _ _ h _ (ground (arith, e, law.add a b, law.sub a b)))
        λ n0.
          if_split P (f3 == 1)
            (λ e. op_value _ _ h _ (ground (arith, e, small, law.shl a b, and_mask 6 b)))
            λ n1.
              if_split P (f3 == 2) (λ e. set_value _ _ h _ (ground (arith, e, law.sig_less a b)))
                λ n2.
                  if_split P (f3 == 3) (λ e. set_value _ _ h _ (ground (arith, e, law.less a b)))
                    λ n3.
                      if_split P (f3 == 4) (λ e. op_value _ _ h _ (ground (arith, e, law.xor a b)))
                        λ n4.
                          if_split P (f3 == 5)
                            (λ e.
                              op_value _ _ h _ (
                                ground (arith, e, small, law.ashr a b, law.lshr a b, and_mask 6 b)))
                            λ n5.
                              if_split P (f3 == 6)
                                (λ e. op_value _ _ h _ (ground (arith, e, law.or a b)))
                                λ n6.
                                  if_split P (f3 == 7)
                                    (λ e. op_value _ _ h _ (ground (arith, e, law.and a b)))
                                    λ n7.
                                      absurd (ground (arith, lt, n0, n1, n2, n3, n4, n5, n6, n7))

  -- `insn` is a word, and its shift amount and funct7 are those of SRAI, SRLI or SLLI.
  pub ops_imm-Computes :
      (f3 insn : ℕ) (h : Host)
      → f3 < 8
      → insn < 2 ^ 32
      → ((f3 == 5) ≡ true → (insn >>> 26 == 0x10 || insn >>> 26 == 0) ≡ true)
      → Computes
          (ops_imm f3 insn)
          []
          h
          (some (alu_imm f3 (insn >>> 25 &&& 0x7F) (insn >>> 20 &&& 0x3F) h.r0 (imm20 insn)))
  unfolding ops_imm get alu_imm
  ops_imm-Computes f3 insn h lt word shape =
      let a = h.r0 in
      let i = imm20 insn in
      let k = insn >>> 20 &&& 0x3F in
      let same : (i &&& 0x3F) ≡ k = imm20_low6 insn word in
      let small : k < 64 = omega (arith, and_mask 6 (insn >>> 20)) in
      let P = λ (o : Option (List Call)).
        Computes o [] h (some (alu_imm f3 (insn >>> 25 &&& 0x7F) k a i)) in
      if_split P (f3 == 0) (λ e. op_value _ _ h _ (ground (arith, e, law.add a i)))
        λ n0.
          if_split P (f3 == 2) (λ e. set_value _ _ h _ (ground (arith, e, law.sig_less a i)))
            λ n2.
              if_split P (f3 == 3) (λ e. set_value _ _ h _ (ground (arith, e, law.less a i)))
                λ n3.
                  if_split P (f3 == 4) (λ e. op_value _ _ h _ (ground (arith, e, law.xor a i)))
                    λ n4.
                      if_split P (f3 == 6) (λ e. op_value _ _ h _ (ground (arith, e, law.or a i)))
                        λ n6.
                          if_split P (f3 == 7)
                            (λ e. op_value _ _ h _ (ground (arith, e, law.and a i)))
                            λ n7.
                              if_split P (f3 == 1)
                                (λ e. op_value _ _ h _ (
                                  ap (s.op2 Op2.shl a) same
                                  ∙ ground (arith, e, law.shl a k, small)))
                                λ n1.
                                  if_split P (f3 == 5)
                                    (λ e. op_value _ _ h _ (
                                      ap
                                        (s.op2 (if insn >>> 26 == 0x10 then Op2.ashr else Op2.lshr)
                                          a)
                                        same
                                      ∙ ground (
                                        arith,
                                        e,
                                        shape,
                                        law.ashr a k,
                                        law.lshr a k,
                                        small,
                                        funct7_high insn word,
                                      )))
                                    λ n5.
                                      absurd (ground (arith, lt, n0, n1, n2, n3, n4, n5, n6, n7))
