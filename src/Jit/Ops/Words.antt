-- ===== src/Jit/Ops/Words.antt =====
-- extension/rv64_sljit.c and rv64_cpu.c: the 32-bit operations.
use pglinux.Base.{
  ℕ, ◌+◌, ◌^◌, ◌<◌, ◌≡◌, ap, ◌∙◌, true, ◌||◌, Option, none, some, List, ◌==◌, if◌then◌else◌,
  if_split, arith,
}
use pglinux.Base.Int.{signed, pattern_of}
use pglinux.Word.{u32, sub32, ◌&&&◌, ◌<<<◌, ◌>>>◌}
use pglinux.Word.Bits.Fields.{and_mask}
use pglinux.Ram.{Memory}
use pglinux.Virtio.{VirtioDev}
use pglinux.Cpu.{Cpu}
use pglinux.Exec.{FpResult}
use pglinux.Alu.{alu_imm32, alu_reg32, widen32, sra32}
use pglinux.Jit.Calls.{Op2, Place, Call}
use pglinux.Jit.Emit.{ops_reg32, ops_imm32, on_r0, widen, funct7, imm20}
use pglinux.Jit.Engine.{Sljit, IsSljit, Host, get, put, run}
use pglinux.Jit.Ops.{Computes, illegal_value, imm20_low5, seen_funct7}

module _ (s : Sljit) (law : IsSljit s)
    (net_process : VirtioDev → ℕ → Memory → ℕ → VirtioDev × Memory)
    (fp_exec : Cpu → ℕ → FpResult × Cpu) where
  -- A 32-bit operation and the extension of its sign.
  widen_value :
      (op : Op2) (b : Place) (h : Host) (w : ℕ) (r : Option ℕ)
      → u32 (s.op2 op h.r0 (get s b h)) ≡ u32 w
      → r ≡ some (widen32 w)
      → Computes s law net_process fp_exec (some (on_r0 op b)) widen h r
  unfolding Computes get put run
  widen_value op b h w r e is = record {
    v = widen32 w;
    is = is;
    wrote = record {
      left = h.left;
      right = h.right;
      runs = λ rest.
          ap (λ (t : ℕ). run s net_process fp_exec none rest (record h { r0 = t }))
            (law.mov_s32 _ ∙ ap (λ (t : ℕ). pattern_of 64 (signed 32 t)) e);
    };
  }

  pub ops_reg32-Computes :
      (f3 f7 : ℕ) (h : Host)
      → ((f3 == 1 || f3 == 5) ≡ true → u32 h.r1 < 32)
      → Computes s law net_process fp_exec
          (ops_reg32 f3 f7)
          widen
          h
          (alu_reg32 f3 (seen_funct7 f7) h.r0 h.r1)
  unfolding ops_reg32 get alu_reg32
  ops_reg32-Computes f3 f7 h small =
      let a = h.r0 in
      let b = h.r1 in
      let P = λ (o : Option (List Call)).
        Computes s law net_process fp_exec o widen h (alu_reg32 f3 (seen_funct7 f7) a b) in
      if_split P (f3 == 0)
        (λ e.
          widen_value _ _ h (if f7 == 0x20 then sub32 (u32 a) (u32 b) else u32 a + u32 b) _
            (ground (arith, law.add32 a b, law.sub32 a b)) (ground (arith, e)))
        λ n0.
          if_split P (f3 == 1)
            (λ e.
              widen_value _ _ h (u32 a <<< (u32 b &&& 0x1F)) _
                (ground (arith, e, small, law.shl32 a b, and_mask 5 (u32 b))) (ground (arith, e)))
            λ n1.
              if_split P (f3 == 5)
                (λ e.
                  widen_value _ _ h
                    (if f7 == 0x20
                      then sra32 (u32 a) (u32 b &&& 0x1F)
                      else u32 a >>> (u32 b &&& 0x1F))
                    _ (ground (arith, e, small, law.ashr32 a b, law.lshr32 a b, and_mask 5 (u32 b)))
                    (ground (arith, e)))
                λ n5. illegal_value s law net_process fp_exec h widen _ (ground (arith, n0, n1, n5))

  pub ops_imm32-Computes :
      (f3 insn : ℕ) (h : Host)
      → insn < 2 ^ 32
      → Computes s law net_process fp_exec
          (ops_imm32 f3 insn)
          widen
          h
          (alu_imm32 f3 (insn >>> 25 &&& 0x7F) (insn >>> 20 &&& 0x1F) h.r0 (imm20 insn))
  unfolding ops_imm32 get alu_imm32
  ops_imm32-Computes f3 insn h word =
      let a = h.r0 in
      let i = imm20 insn in
      let k = insn >>> 20 &&& 0x1F in
      let same : (i &&& 0x1F) ≡ k = imm20_low5 insn word in
      let small : k < 32 = omega (arith, and_mask 5 (insn >>> 20)) in
      let f7 : (insn >>> 25 &&& 0x7F) ≡ funct7 insn =
        omega (arith, word, and_mask 7 (insn >>> 25)) in
      let P = λ (o : Option (List Call)).
        Computes s law net_process fp_exec o widen h (alu_imm32 f3 (insn >>> 25 &&& 0x7F) k a i) in
      if_split P (f3 == 0)
        (λ e.
          widen_value _ _ h (u32 a + u32 i) _ (ground (arith, law.add32 a i)) (ground (arith, e)))
        λ n0.
          if_split P (f3 == 1)
            (λ e.
              widen_value _ _ h (u32 a <<< k) _
                (ap (λ (t : ℕ). u32 (s.op2 Op2.shl32 a t)) same
                  ∙ ground (arith, law.shl32 a k, small))
                (ground (arith, e)))
            λ n1.
              if_split P (f3 == 5)
                (λ e.
                  widen_value _ _ h (if funct7 insn == 0x20 then sra32 (u32 a) k else u32 a >>> k) _
                    (ap
                        (λ (t : ℕ).
                          u32 (s.op2 (if funct7 insn == 0x20 then Op2.ashr32 else Op2.lshr32) a t))
                        same
                      ∙ ground (arith, law.ashr32 a k, law.lshr32 a k, small))
                    (ground (arith, e, f7)))
                λ n5. illegal_value s law net_process fp_exec h widen _ (ground (arith, n0, n1, n5))
