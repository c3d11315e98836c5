-- ===== src/Jit/Every.antt =====
-- extension/rv64_sljit.c and rv64_cpu.c: every supported instruction.
use mathlib.Core.Bool.{true≢false}
use pglinux.Base.{
  ℕ, ◌+◌, ◌^◌, ◌<◌, ◌≡◌, refl, sym, ◌∙◌, true, false, ◌||◌, ◌==◌, Bool-cases, inl, inr, ==→eq,
  arith,
}
use pglinux.Word.{u32, u64, ◌>>>◌}
use pglinux.Ram.{Memory}
use pglinux.Virtio.{VirtioDev}
use pglinux.Cpu.{Cpu, Access}
use pglinux.Decode.{opcode, rs1, rs2, funct3}
use pglinux.Mem.{value, cpu_load}
use pglinux.Exec.{FpResult}
use pglinux.Jit.Emit.{emit_insn, funct7, imm20, access_size}
use pglinux.Jit.Engine.{Sljit, IsSljit, Host}
use pglinux.Jit.Insn.{Goal, op33-Goal, op13-Does, op3b-Does, op1b-Does}
use pglinux.Jit.Insn.Control.{op37-Does, op17-Does, op6f-Does, op67-Does, op63-Does}
use pglinux.Jit.Insn.Store.{op23-Does}
use pglinux.Jit.Insn.Fp.{is_fp, fp_opcodes-Does}
use pglinux.Jit.Insn.Load.{narrow, op03-Does}

module _ (net_process : VirtioDev → ℕ → Memory → ℕ → VirtioDev × Memory) where
  -- The JIT and the interpreter agree on the instruction in the machine `c`: it is no multiplication or
  -- division, whose funct7 the JIT does not look at, a shift amount in a register is below the width,
  -- SRLI and SRAI are well formed, loads and stores have a size, and an unsigned load gets no
  -- more bits than it asked for.
  pub record Agrees (insn : ℕ) (c : Cpu) : Type 0 where
    pub word : insn < 2 ^ 32
    pub zero : c.x 0 ≡ 0
    pub no_mul : (opcode insn == 0x33 || opcode insn == 0x3B) ≡ true → (funct7 insn == 1) ≡ false
    pub shift :
        opcode insn ≡ 0x33 → (funct3 insn == 1 || funct3 insn == 5) ≡ true → c.x (rs2 insn) < 64
    pub shift_imm :
        opcode insn ≡ 0x13
        → (funct3 insn == 5) ≡ true
        → (insn >>> 26 == 0x10 || insn >>> 26 == 0) ≡ true
    pub shift32 :
        opcode insn ≡ 0x3B
        → (funct3 insn == 1 || funct3 insn == 5) ≡ true
        → u32 (c.x (rs2 insn)) < 32
    pub load : opcode insn ≡ 0x03 → (funct3 insn == 7) ≡ false
    pub loaded :
        opcode insn ≡ 0x03
        → (v : ℕ)
        → (cpu_load net_process c
            (u64 (c.x (rs1 insn) + imm20 insn))
            (access_size (funct3 insn))
            Access.read).0
          ≡ value v
        → narrow (funct3 insn) v ≡ true
    pub store : opcode insn ≡ 0x23 → funct3 insn < 4

module _ (s : Sljit) (law : IsSljit s)
    (net_process : VirtioDev → ℕ → Memory → ℕ → VirtioDev × Memory)
    (fp_exec : Cpu → ℕ → FpResult × Cpu) where
  module _ (insn len : ℕ) (h : Host) (a : Agrees net_process insn h.cpu) where
    abbrev Same : Type 0
    Same = Goal s law net_process fp_exec insn h.cpu.pc len h a.zero a.word

    nothing_else :
        (opcode insn == 0x33) ≡ false
        → (opcode insn == 0x13) ≡ false
        → (opcode insn == 0x3B) ≡ false
        → (opcode insn == 0x1B) ≡ false
        → (opcode insn == 0x37) ≡ false
        → (opcode insn == 0x17) ≡ false
        → (opcode insn == 0x6F) ≡ false
        → (opcode insn == 0x67) ≡ false
        → (opcode insn == 0x63) ≡ false
        → (opcode insn == 0x03) ≡ false
        → (opcode insn == 0x23) ≡ false
        → is_fp insn ≡ false
        → (emit_insn h.cpu.pc insn len).supported ≡ false
    unfolding emit_insn
    nothing_else a b c d e f g i j k l m = rw (emit_insn, a, b, c, d, e, f, g, i, j, k, l, m) refl

    -- The code of a supported instruction does what the interpreter does, where the two agree on it.
    pub emit_insn-Does : (emit_insn h.cpu.pc insn len).supported ≡ true → Same
    emit_insn-Does ok =
        let op = opcode insn in
        elim (Bool-cases (op == 0x33)) [
          | inl e ↦
              op33-Goal s law net_process fp_exec insn h.cpu.pc len h a.zero a.word
                (==→eq op 0x33 e) (a.no_mul (ground (arith, e))) (a.shift (==→eq op 0x33 e)) ok
          | inr n33 ↦ elim (Bool-cases (op == 0x13)) [
            | inl e ↦
                op13-Does s law net_process fp_exec insn h.cpu.pc len h a.zero a.word
                  (==→eq op 0x13 e) (a.shift_imm (==→eq op 0x13 e)) ok
            | inr n13 ↦ elim (Bool-cases (op == 0x3B)) [
              | inl e ↦
                  op3b-Does s law net_process fp_exec insn h.cpu.pc len h a.zero a.word
                    (==→eq op 0x3B e) (a.no_mul (ground (arith, e))) (a.shift32 (==→eq op 0x3B e))
                    ok
              | inr n3b ↦ elim (Bool-cases (op == 0x1B)) [
                | inl e ↦
                    op1b-Does s law net_process fp_exec insn h.cpu.pc len h a.zero a.word
                      (==→eq op 0x1B e) ok
                | inr n1b ↦ elim (Bool-cases (op == 0x37)) [
                  | inl e ↦
                      op37-Does s law net_process fp_exec insn len h a.zero a.word (==→eq op 0x37 e)
                  | inr n37 ↦ elim (Bool-cases (op == 0x17)) [
                    | inl e ↦
                        op17-Does s law net_process fp_exec insn len h a.zero a.word
                          (==→eq op 0x17 e)
                    | inr n17 ↦ elim (Bool-cases (op == 0x6F)) [
                      | inl e ↦
                          op6f-Does s law net_process fp_exec insn len h a.zero a.word
                            (==→eq op 0x6F e)
                      | inr n6f ↦ elim (Bool-cases (op == 0x67)) [
                        | inl e ↦
                            op67-Does s law net_process fp_exec insn len h a.zero a.word
                              (==→eq op 0x67 e)
                        | inr n67 ↦ elim (Bool-cases (op == 0x63)) [
                          | inl e ↦
                              op63-Does s law net_process fp_exec insn len h a.zero a.word
                                (==→eq op 0x63 e) ok
                          | inr n63 ↦ elim (Bool-cases (op == 0x03)) [
                            | inl e ↦
                                op03-Does s law net_process fp_exec insn len h a.zero a.word
                                  (==→eq op 0x03 e) (a.load (==→eq op 0x03 e))
                                  (a.loaded (==→eq op 0x03 e))
                            | inr n03 ↦ elim (Bool-cases (op == 0x23)) [
                              | inl e ↦
                                  op23-Does s law net_process fp_exec insn len h a.zero a.word
                                    (==→eq op 0x23 e) (a.store (==→eq op 0x23 e))
                              | inr n23 ↦ elim (Bool-cases (is_fp insn)) [
                                | inl e ↦
                                    fp_opcodes-Does s law net_process fp_exec insn len h a.zero
                                      a.word e
                                | inr nfp ↦ absurd (
                                    true≢false (
                                      sym ok
                                      ∙ nothing_else n33 n13 n3b n1b n37 n17 n6f n67 n63 n03 n23
                                          nfp))
                              ]
                            ]
                          ]
                        ]
                      ]
                    ]
                  ]
                ]
              ]
            ]
          ]
        ]
