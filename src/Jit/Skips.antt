-- ===== src/Jit/Skips.antt =====
-- extension/rv64_sljit.c: the calls of one instruction have no label of the epilogue, so that a jump to it
-- skips them.
use mathlib.Core.List.{append_assoc}
use pglinux.Base.{
  ℕ, ◌≡◌, refl, ◌∙◌, ◌||◌, false, Option, some, List, [], ◌∷◌, ◌++◌, ◌==◌, if_both, match_option,
}
use pglinux.Ram.{Memory}
use pglinux.Virtio.{VirtioDev}
use pglinux.Cpu.{Cpu}
use pglinux.Decode.{opcode, rd, rs1, rs2, funct3}
use pglinux.Exec.{FpResult}
use pglinux.Jit.Calls.{Op2, Condition, Place, Call}
use pglinux.Jit.Emit.{
  Emitted, emit_insn, emit_jal, emit_jalr, emit_branch, branch_type, emit_load, emit_store, emit_fp,
  emit_memory_icall, emit_address, emit_load_guest, emit_store_guest, mov_to, imm20, store_imm,
  computed, load_both, on_r0, set_less, ops_reg, ops_imm, ops_reg32, ops_imm32, load_ops,
  access_size, funct7, widen,
}
use pglinux.Jit.Engine.{Sljit, IsSljit, Host, run}
use pglinux.Jit.Runs.{RunsTo}

module _ (s : Sljit) (law : IsSljit s)
    (net_process : VirtioDev → ℕ → Memory → ℕ → VirtioDev × Memory)
    (fp_exec : Cpu → ℕ → FpResult × Cpu) where
  -- After a jump to the epilogue the calls are skipped.
  abbrev pub Skips : List Call → Type 0
  Skips cs =
      (rest : List Call) (k : Host)
      → run s net_process fp_exec (some 0) (cs ++ rest) k
        ≡ run s net_process fp_exec (some 0) rest k

  pub skipped_after :
      (a b : List Call) (h k : Host)
      → RunsTo s law net_process fp_exec a h (some 0) k
      → Skips b
      → RunsTo s law net_process fp_exec (a ++ b) h (some 0) k
  skipped_after a b h k p q rest = rw (append_assoc a b rest) (p (b ++ rest) ∙ q rest k)

  pub Skips-append : (a b : List Call) → Skips a → Skips b → Skips (a ++ b)
  Skips-append a b p q rest k = rw (append_assoc a b rest) (p (b ++ rest) k ∙ q rest k)

  pub load_ops-Skips : (f3 : ℕ) → Skips (load_ops f3)
  unfolding load_ops run
  load_ops-Skips f3 =
      if_both Skips (f3 == 0) (λ rest k. refl)
        (if_both Skips (f3 == 1) (λ rest k. refl)
          (if_both Skips (f3 == 2) (λ rest k. refl)
            (if_both Skips (f3 == 4) (λ rest k. refl)
              (if_both Skips (f3 == 5) (λ rest k. refl)
                (if_both Skips (f3 == 6) (λ rest k. refl) (λ rest k. refl))))))

  pub store_guest-Skips : (g : ℕ) → Skips (emit_store_guest g Place.r0)
  unfolding emit_store_guest run
  store_guest-Skips g = if_both Skips (g == 0) (λ rest k. refl) (λ rest k. refl)

  load_guest-Skips : (p : Place) (g : ℕ) → Skips (emit_load_guest p g)
  unfolding emit_load_guest run
  load_guest-Skips p g = if_both Skips (g == 0) (λ rest k. refl) (λ rest k. refl)

  load_both-Skips : (insn : ℕ) → Skips (load_both insn)
  load_both-Skips insn =
      Skips-append (emit_load_guest Place.r0 (rs1 insn)) (emit_load_guest Place.r1 (rs2 insn))
        (load_guest-Skips Place.r0 (rs1 insn)) (load_guest-Skips Place.r1 (rs2 insn))

  address-Skips : (base i : ℕ) → Skips (emit_address base i)
  unfolding emit_address run
  address-Skips base i = if_both Skips (base == 0) (λ rest k. refl) (λ rest k. refl)

  on_r0-Skips : (op : Op2) (b : Place) → Skips (on_r0 op b)
  unfolding run
  on_r0-Skips op b rest k = refl

  set_less-Skips : (cond : Condition) (b : Place) → Skips (set_less cond b)
  unfolding run
  set_less-Skips cond b rest k = refl

  module _ (insn : ℕ) (loads after : List Call) (p : Skips loads) (q : Skips after) where
    abbrev ComputedSkips : Option (List Call) → Type 0
    ComputedSkips ops = Skips (computed insn loads ops after).calls

    code-Skips : (code : List Call) → Skips code → ComputedSkips (some code)
    code-Skips code r =
        let store = emit_store_guest (rd insn) Place.r0 in
        Skips-append loads ((code ++ after) ++ store) p (
          Skips-append (code ++ after) store (Skips-append code after r q)
            (store_guest-Skips (rd insn)))

    op_code : (op : Op2) (b : Place) → ComputedSkips (some (on_r0 op b))
    op_code op b = code-Skips (on_r0 op b) (on_r0-Skips op b)

    less_code : (cond : Condition) (b : Place) → ComputedSkips (some (set_less cond b))
    less_code cond b = code-Skips (set_less cond b) (set_less-Skips cond b)

    ops_reg-Skips : (f3 f7 : ℕ) → ComputedSkips (ops_reg f3 f7)
    unfolding ops_reg
    ops_reg-Skips f3 f7 = if_both ComputedSkips (f3 == 0) (op_code _ _) (
        if_both ComputedSkips (f3 == 1) (op_code _ _) (
          if_both ComputedSkips (f3 == 2) (less_code _ _) (
            if_both ComputedSkips (f3 == 3) (less_code _ _) (
              if_both ComputedSkips (f3 == 4) (op_code _ _) (
                if_both ComputedSkips (f3 == 5) (op_code _ _) (
                  if_both ComputedSkips (f3 == 6) (op_code _ _)
                    (if_both ComputedSkips (f3 == 7) (op_code _ _) p)))))))

    ops_imm-Skips : (f3 i : ℕ) → ComputedSkips (ops_imm f3 i)
    unfolding ops_imm
    ops_imm-Skips f3 i = if_both ComputedSkips (f3 == 0) (op_code _ _) (
        if_both ComputedSkips (f3 == 2) (less_code _ _) (
          if_both ComputedSkips (f3 == 3) (less_code _ _) (
            if_both ComputedSkips (f3 == 4) (op_code _ _) (
              if_both ComputedSkips (f3 == 6) (op_code _ _) (
                if_both ComputedSkips (f3 == 7) (op_code _ _) (
                  if_both ComputedSkips (f3 == 1) (op_code _ _)
                    (if_both ComputedSkips (f3 == 5) (op_code _ _) p)))))))

    ops_reg32-Skips : (f3 f7 : ℕ) → ComputedSkips (ops_reg32 f3 f7)
    unfolding ops_reg32
    ops_reg32-Skips f3 f7 = if_both ComputedSkips (f3 == 0) (op_code _ _) (
        if_both ComputedSkips (f3 == 1) (op_code _ _)
          (if_both ComputedSkips (f3 == 5) (op_code _ _) p))

    ops_imm32-Skips : (f3 i : ℕ) → ComputedSkips (ops_imm32 f3 i)
    unfolding ops_imm32
    ops_imm32-Skips f3 i = if_both ComputedSkips (f3 == 0) (op_code _ _) (
        if_both ComputedSkips (f3 == 1) (op_code _ _)
          (if_both ComputedSkips (f3 == 5) (op_code _ _) p))

  jal-Skips : (pc insn len : ℕ) → Skips (emit_jal pc insn len).calls
  unfolding emit_jal run
  jal-Skips pc insn len rest k =
      rw (append_assoc (emit_store_guest (rd insn) Place.r0) _ rest)
        (store_guest-Skips (rd insn) _ k)

  jalr-Skips : (pc insn len : ℕ) → Skips (emit_jalr pc insn len).calls
  unfolding emit_jalr run
  jalr-Skips pc insn len =
      Skips-append (emit_load_guest Place.r1 (rs1 insn)) _ (load_guest-Skips Place.r1 (rs1 insn))
        λ rest k.
          rw (append_assoc (emit_store_guest (rd insn) Place.r0) _ rest)
            (store_guest-Skips (rd insn) _ k)

  branch-Skips : (pc insn len : ℕ) → Skips (emit_branch pc insn len).calls
  unfolding emit_branch run
  branch-Skips pc insn len =
      match_option (λ (em : Emitted). Skips em.calls) (branch_type (funct3 insn))
        (load_both-Skips insn)
        λ type. Skips-append (load_both insn) _ (load_both-Skips insn) λ rest k. refl

  load-Skips : (pc insn : ℕ) → Skips (emit_load pc insn).calls
  unfolding emit_load emit_memory_icall run
  load-Skips pc insn =
      Skips-append
        (mov_to Place.guest_pc (Place.imm pc)
          ∷ emit_memory_icall false (access_size (funct3 insn)) (rs1 insn) (imm20 insn) 0)
        _
        (Skips-append (mov_to Place.guest_pc (Place.imm pc) ∷ emit_address (rs1 insn) (imm20 insn))
          _ (address-Skips (rs1 insn) (imm20 insn)) λ rest k. refl)
        (Skips-append (load_ops (funct3 insn)) _ (load_ops-Skips (funct3 insn))
          (store_guest-Skips (rd insn)))

  store-Skips : (pc insn : ℕ) → Skips (emit_store pc insn).calls
  unfolding emit_store emit_memory_icall run
  store-Skips pc insn =
      Skips-append (mov_to Place.guest_pc (Place.imm pc) ∷ emit_address (rs1 insn) (store_imm insn))
        _ (address-Skips (rs1 insn) (store_imm insn))
        λ rest k.
          rw (append_assoc (emit_load_guest Place.r3 (rs2 insn)) _ rest)
            (load_guest-Skips Place.r3 (rs2 insn) _ k)

  fp-Skips : (pc insn : ℕ) → Skips (emit_fp pc insn).calls
  unfolding emit_fp run
  fp-Skips pc insn rest k = refl

  -- Whatever was emitted for an instruction, supported or not.
  pub emit_insn-Skips : (pc insn len : ℕ) → Skips (emit_insn pc insn len).calls
  unfolding emit_insn run
  emit_insn-Skips pc insn len =
      let op = opcode insn in
      let P = λ (em : Emitted). Skips em.calls in
      if_both P (op == 0x33)
        (ops_reg-Skips insn (load_both insn) [] (load_both-Skips insn) (λ rest k. refl)
          (funct3 insn) (funct7 insn))
        (if_both P (op == 0x13)
          (ops_imm-Skips insn (emit_load_guest Place.r0 (rs1 insn)) []
            (load_guest-Skips Place.r0 (rs1 insn)) (λ rest k. refl) (funct3 insn) insn)
          (if_both P (op == 0x3B)
            (ops_reg32-Skips insn (load_both insn) widen (load_both-Skips insn) (λ rest k. refl)
              (funct3 insn) (funct7 insn))
            (if_both P (op == 0x1B)
              (ops_imm32-Skips insn (emit_load_guest Place.r0 (rs1 insn)) widen
                (load_guest-Skips Place.r0 (rs1 insn)) (λ rest k. refl) (funct3 insn) insn)
              (if_both P (op == 0x37) (store_guest-Skips (rd insn)) (
                if_both P (op == 0x17) (store_guest-Skips (rd insn)) (
                  if_both P (op == 0x6F) (jal-Skips pc insn len) (
                    if_both P (op == 0x67) (jalr-Skips pc insn len) (
                      if_both P (op == 0x63) (branch-Skips pc insn len) (
                        if_both P (op == 0x03) (load-Skips pc insn) (
                          if_both P (op == 0x23) (store-Skips pc insn) (
                            if_both P
                              (op == 0x07
                                || op == 0x27
                                || op == 0x43
                                || op == 0x47
                                || op == 0x4B
                                || op == 0x4F
                                || op == 0x53)
                              (fp-Skips pc insn) (λ rest k. refl))))))))))))
