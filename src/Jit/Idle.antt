-- ===== src/Jit/Idle.antt =====
-- extension/rv64_sljit.c: what an unsupported instruction leaves behind in the code.
use mathlib.Core.Bool.{true≢false}
use pglinux.Base.{
  ℕ, ◌+◌, ◌≡◌, refl, sym, ◌∙◌, true, false, ◌||◌, Option, none, some, List, [], ◌∷◌, ◌==◌, if_both,
  match_option,
}
use pglinux.Word.{u64}
use pglinux.Ram.{Memory}
use pglinux.Virtio.{VirtioDev}
use pglinux.Cpu.{Cpu}
use pglinux.Decode.{opcode, rd, rs1, rs2, funct3}
use pglinux.Exec.{FpResult}
use pglinux.Jit.Calls.{Place, Call}
use pglinux.Jit.Emit.{
  Emitted, emit_insn, emit_branch, branch_type, computed, load_both, emit_load_guest, funct7,
  emit_jal, emit_jalr, emit_load, emit_store, emit_fp, widen, upper, goes_on, mov_to,
  emit_store_guest, ops_reg, ops_imm, ops_reg32, ops_imm32,
}
use pglinux.Jit.Engine.{Sljit, IsSljit, Host}
use pglinux.Jit.Runs.{RunsTo, load_guest-r0}
use pglinux.Jit.Insn.{load_both_runs}

module _ (s : Sljit) (law : IsSljit s)
    (net_process : VirtioDev → ℕ → Memory → ℕ → VirtioDev × Memory)
    (fp_exec : Cpu → ℕ → FpResult × Cpu) where
  -- The calls change neither the guest nor the counter.
  pub record Idle (calls : List Call) (h : Host) : Type 0 where
    pub after : Host
    pub runs : RunsTo s law net_process fp_exec calls h none after
    pub cpu : after.cpu ≡ h.cpu
    pub count : after.count ≡ h.count

  module _ (insn pc len : ℕ) (h : Host) (zero : h.cpu.x 0 ≡ 0) where
    abbrev LeavesIdle : Emitted → Type 0
    LeavesIdle em = em.supported ≡ false → Idle em.calls h

    pub nothing_emitted : Idle [] h
    nothing_emitted = record { after = h; runs = λ rest. refl; cpu = refl; count = refl }

    both_loaded : Idle (load_both insn) h
    both_loaded = record {
      after = record h { r0 = h.cpu.x (rs1 insn); r1 = h.cpu.x (rs2 insn) };
      runs = load_both_runs s law net_process fp_exec insn h zero;
      cpu = refl;
      count = refl;
    }

    one_loaded : Idle (emit_load_guest Place.r0 (rs1 insn)) h
    one_loaded = record {
      after = record h { r0 = h.cpu.x (rs1 insn) };
      runs = load_guest-r0 s law net_process fp_exec (rs1 insn) h zero;
      cpu = refl;
      count = refl;
    }

    computed_stays :
        (loads after : List Call) (ops : Option (List Call))
        → Idle loads h
        → LeavesIdle (computed insn loads ops after)
    computed_stays loads after none idle off = idle
    computed_stays loads after (some code) idle off = absurd (true≢false off)

    branch_stays : LeavesIdle (emit_branch pc insn len)
    unfolding emit_branch
    branch_stays =
        match_option LeavesIdle (branch_type (funct3 insn)) (λ off. both_loaded)
          λ type off. absurd (true≢false off)

    supported_stays : (em : Emitted) → em.supported ≡ true → LeavesIdle em
    supported_stays em on off = absurd (true≢false (sym on ∙ off))

    -- What an unsupported instruction has emitted does nothing.
    pub emit_insn-Idle : LeavesIdle (emit_insn pc insn len)
    unfolding emit_insn emit_jal emit_jalr emit_load emit_store emit_fp
    emit_insn-Idle =
        let op = opcode insn in
        let P = LeavesIdle in
        if_both P (op == 0x33)
          (computed_stays (load_both insn) [] (ops_reg (funct3 insn) (funct7 insn)) both_loaded)
          (if_both P (op == 0x13)
            (computed_stays (emit_load_guest Place.r0 (rs1 insn)) [] (ops_imm (funct3 insn) insn)
              one_loaded)
            (if_both P (op == 0x3B)
              (computed_stays (load_both insn) widen (ops_reg32 (funct3 insn) (funct7 insn))
                both_loaded)
              (if_both P (op == 0x1B)
                (computed_stays (emit_load_guest Place.r0 (rs1 insn)) widen
                  (ops_imm32 (funct3 insn) insn) one_loaded)
                (if_both P (op == 0x37)
                  (supported_stays
                    (goes_on (
                      mov_to Place.r0 (Place.imm (upper insn))
                      ∷ emit_store_guest (rd insn) Place.r0))
                    refl)
                  (if_both P (op == 0x17)
                    (supported_stays
                      (goes_on (
                        mov_to Place.r0 (Place.imm (u64 (pc + upper insn)))
                        ∷ emit_store_guest (rd insn) Place.r0))
                      refl)
                    (if_both P (op == 0x6F) (supported_stays (emit_jal pc insn len) refl) (
                      if_both P (op == 0x67) (supported_stays (emit_jalr pc insn len) refl) (
                        if_both P (op == 0x63) branch_stays (
                          if_both P (op == 0x03) (supported_stays (emit_load pc insn) refl) (
                            if_both P (op == 0x23) (supported_stays (emit_store pc insn) refl) (
                              if_both P
                                (op == 0x07
                                  || op == 0x27
                                  || op == 0x43
                                  || op == 0x47
                                  || op == 0x4B
                                  || op == 0x4F
                                  || op == 0x53)
                                (supported_stays (emit_fp pc insn) refl)
                                (λ off. nothing_emitted))))))))))))
