-- ===== src/Jit/Insn/Control.antt =====
-- extension/rv64_sljit.c and rv64_cpu.c: LUI, AUIPC, the jumps and the branches.
use mathlib.Core.Bool.{false≢true}
use pglinux.Base.{
  ℕ, ◌+◌, ◌^◌, ◌<◌, ◌≡◌, refl, sym, ap, ◌∙◌, Bool, true, false, Option, none, some, List, [], ◌∷◌,
  ◌++◌, ◌==◌, if◌then◌else◌, if_split, arith,
}
use pglinux.Word.{u64, not64, nonzero, ◌&&&◌}
use pglinux.Ram.{Memory}
use pglinux.Virtio.{VirtioDev}
use pglinux.Cpu.{Cpu, set_reg}
use pglinux.Decode.{opcode, rd, rs1, rs2, funct3, imm_b}
use pglinux.Alu.{branch_taken}
use pglinux.Exec.{Flow, done, FpResult, exec, exec_plain, exec_jalr, exec_branch, illegal}
use pglinux.Jit.Calls.{Op2, Condition, Place, Call, emit_op2, emit_cmp, emit_jump, emit_label}
use pglinux.Jit.Emit.{
  Emitted, emit_insn, emit_jal, emit_jalr, emit_branch, branch_type, branch_off, jal_off, load_both,
  emit_load_guest, emit_store_guest, mov_to, imm20, upper, ends, unsupported,
}
use pglinux.Jit.Engine.{Sljit, IsSljit, Host, get, put, run}
use pglinux.Jit.Runs.{RunsTo, then_runs, load_guest-r1, store_guest}
use pglinux.Jit.Insn.{Does, goes, jumps, both, load_both_runs, Goal}
use pglinux.Jit.Signs.{imm20-imm_i, upper-imm_u, jal_off-imm_j, branch_off-imm_b}

module _ (s : Sljit) (law : IsSljit s)
    (net_process : VirtioDev → ℕ → Memory → ℕ → VirtioDev × Memory)
    (fp_exec : Cpu → ℕ → FpResult × Cpu) where
  mov_r0-imm :
      (v : ℕ) (h : Host)
      → RunsTo s law net_process fp_exec
          (mov_to Place.r0 (Place.imm v) ∷ [])
          h
          none
          (record h { r0 = v })
  unfolding run get put
  mov_r0-imm v h rest =
      ap (λ (t : ℕ). run s net_process fp_exec none rest (record h { r0 = t })) (law.mov v)

  pub mov_pc-imm :
      (v : ℕ) (h : Host)
      → RunsTo s law net_process fp_exec
          (mov_to Place.guest_pc (Place.imm v) ∷ [])
          h
          none
          (record h { cpu = record h.cpu { pc = v } })
  unfolding run get put
  mov_pc-imm v h rest =
      ap
        (λ (t : ℕ).
          run s net_process fp_exec none rest (record h { cpu = record h.cpu { pc = t } }))
        (law.mov v)

  -- Is the condition of the branch the interpreter's?
  Agrees : Option Condition → ℕ → ℕ → ℕ → Type 0
  Agrees none f3 a b = true ≡ true
  Agrees (some type) f3 a b = branch_taken f3 a b ≡ some (if s.holds type a b then 1 else 0)

  branch_type-Agrees : (f3 a b : ℕ) → Agrees (branch_type f3) f3 a b
  unfolding branch_type branch_taken Agrees
  branch_type-Agrees f3 a b =
      let P = λ (o : Option Condition). Agrees o f3 a b in
      if_split P (f3 == 0) (λ e. ground (arith, e, law.equal a b))
        λ n0.
          if_split P (f3 == 1) (λ e. ground (arith, e, law.not_equal a b))
            λ n1.
              if_split P (f3 == 4) (λ e. ground (arith, e, law.sig_less a b))
                λ n4.
                  if_split P (f3 == 5) (λ e. ground (arith, e, law.sig_greater_equal a b))
                    λ n5.
                      if_split P (f3 == 6) (λ e. ground (arith, e, law.less a b))
                        λ n6.
                          if_split P (f3 == 7) (λ e. ground (arith, e, law.greater_equal a b))
                            λ n7. refl

  abbrev branch_tail : Condition → ℕ → ℕ → List Call
  branch_tail type fall taken =
      emit_cmp type Place.r0 Place.r1 1
      ∷ mov_to Place.guest_pc (Place.imm fall)
      ∷ emit_jump 2
      ∷ emit_label 1
      ∷ mov_to Place.guest_pc (Place.imm taken)
      ∷ emit_label 2
      ∷ []

  branch_tail_runs :
      (type : Condition) (fall taken : ℕ) (h : Host) (b : Bool)
      → s.holds type h.r0 h.r1 ≡ b
      → RunsTo s law net_process fp_exec
          (branch_tail type fall taken)
          h
          none
          (record h { cpu = record h.cpu { pc = if b then taken else fall } })
  unfolding run get put
  branch_tail_runs type fall taken h true e rest = rw (e) (
      ap
        (λ (t : ℕ).
          run s net_process fp_exec none rest (record h { cpu = record h.cpu { pc = t } }))
        (law.mov taken))
  branch_tail_runs type fall taken h false e rest = rw (e) (
      ap
        (λ (t : ℕ).
          run s net_process fp_exec none rest (record h { cpu = record h.cpu { pc = t } }))
        (law.mov fall))

  module _ (insn len : ℕ) (h : Host) (zero : h.cpu.x 0 ≡ 0) (word : insn < 2 ^ 32) where
    abbrev pc : ℕ
    pc = h.cpu.pc

    pub op37-Does : opcode insn ≡ 0x37 → Goal s law net_process fp_exec insn pc len h zero word
    unfolding emit_insn exec exec_plain
    op37-Does e =
        rw (emit_insn, exec, e, ← upper-imm_u insn word)
          (goes _
            (then_runs s law net_process fp_exec (mov_to Place.r0 (Place.imm (upper insn)) ∷ [])
              (emit_store_guest (rd insn) Place.r0) h (record h { r0 = upper insn }) _ none
              (mov_r0-imm (upper insn) h)
              (store_guest s law net_process fp_exec (rd insn) (record h { r0 = upper insn }) zero))
            refl refl refl)

    pub op17-Does : opcode insn ≡ 0x17 → Goal s law net_process fp_exec insn pc len h zero word
    unfolding emit_insn exec exec_plain
    op17-Does e =
        rw (emit_insn, exec, e, ← upper-imm_u insn word)
          (goes _
            (then_runs s law net_process fp_exec
              (mov_to Place.r0 (Place.imm (u64 (pc + upper insn))) ∷ [])
              (emit_store_guest (rd insn) Place.r0) h (record h { r0 = u64 (pc + upper insn) }) _
              none (mov_r0-imm (u64 (pc + upper insn)) h)
              (store_guest s law net_process fp_exec (rd insn)
                (record h { r0 = u64 (pc + upper insn) }) zero))
            refl refl refl)

    -- R0 holds the return address and goes into rd; the pc is set.
    pub op6f-Does : opcode insn ≡ 0x6F → Goal s law net_process fp_exec insn pc len h zero word
    unfolding emit_insn exec exec_plain emit_jal
    op6f-Does e =
        let next = u64 (pc + len) in
        let h1 : Host = record h { r0 = next } in
        let h2 : Host = record h1 { cpu = set_reg h.cpu (rd insn) next } in
        let target = u64 (pc + jal_off insn) in
        let store = emit_store_guest (rd insn) Place.r0 in
        rw (emit_insn, exec, e, ← jal_off-imm_j insn)
          (jumps _ target (set_reg h.cpu (rd insn) next)
            (then_runs s law net_process fp_exec (mov_to Place.r0 (Place.imm next) ∷ [])
              (store ++ (mov_to Place.guest_pc (Place.imm target) ∷ [])) h h1 _ none
              (mov_r0-imm next h)
              (then_runs s law net_process fp_exec store
                (mov_to Place.guest_pc (Place.imm target) ∷ []) h1 h2 _ none
                (store_guest s law net_process fp_exec (rd insn) h1 zero) (mov_pc-imm target h2)))
            refl refl refl refl)

    pub op67-Does : opcode insn ≡ 0x67 → Goal s law net_process fp_exec insn pc len h zero word
    unfolding emit_insn exec exec_plain emit_jalr exec_jalr run get put
    op67-Does e =
        let next = u64 (pc + len) in
        let a = h.cpu.x (rs1 insn) in
        let target = u64 (a + imm20 insn) &&& not64 1 in
        let h1 : Host = record h { r1 = a } in
        let h2 : Host = record h { r1 = target; r0 = next } in
        let h3 : Host = record h2 { cpu = set_reg h.cpu (rd insn) next } in
        let compute =
          emit_op2 Op2.add Place.r1 Place.r1 (Place.imm (imm20 insn))
          ∷ emit_op2 Op2.and Place.r1 Place.r1 (Place.imm (not64 1))
          ∷ mov_to Place.r0 (Place.imm next)
          ∷ [] in
        let store = emit_store_guest (rd insn) Place.r0 in
        let set_pc = mov_to Place.guest_pc Place.r1 ∷ [] in
        rw (emit_insn, exec, e, ← imm20-imm_i insn word)
          (jumps (record h3 { cpu = record h3.cpu { pc = target } }) target
            (set_reg h.cpu (rd insn) next)
            (then_runs s law net_process fp_exec (emit_load_guest Place.r1 (rs1 insn))
              (compute ++ (store ++ set_pc)) h h1 _ none
              (load_guest-r1 s law net_process fp_exec (rs1 insn) h zero)
              (then_runs s law net_process fp_exec compute (store ++ set_pc) h1 h2 _ none
                (λ rest. rw (law.add, law.and, law.mov) refl)
                (then_runs s law net_process fp_exec store set_pc h2 h3 _ none
                  (store_guest s law net_process fp_exec (rd insn) h2 zero)
                  λ rest.
                    ap
                      (λ (t : ℕ).
                        run s net_process fp_exec none rest
                          (record h3 { cpu = record h3.cpu { pc = t } }))
                      (law.mov target))))
            refl refl refl refl)

    -- What the interpreter does with the outcome of the comparison.
    abbrev branched : Option ℕ → Flow × Cpu
    branched o = elim o [
      | none ↦ illegal h.cpu insn
      | some take ↦
          (done (if nonzero take then u64 (h.cpu.pc + imm_b insn) else u64 (pc + len)), h.cpu)
    ]

    abbrev emitted : Option Condition → Emitted
    emitted o = elim o [
      | none ↦ unsupported (load_both insn)
      | some type ↦
          ends (load_both insn ++ branch_tail type (u64 (pc + len)) (u64 (pc + branch_off insn)))
    ]

    decided :
        (type : Condition) (b : Bool)
        → s.holds type (h.cpu.x (rs1 insn)) (h.cpu.x (rs2 insn)) ≡ b
        → branched (some (if s.holds type (h.cpu.x (rs1 insn)) (h.cpu.x (rs2 insn)) then 1 else 0))
          ≡ (done (if b then u64 (pc + branch_off insn) else u64 (pc + len)), h.cpu)
    decided type true e = rw (e) (
        ap (λ (off : ℕ). let r : Flow × Cpu = (done (u64 (pc + off)), h.cpu) in r)
          (sym (branch_off-imm_b insn)))
    decided type false e = rw (e) refl

    branch-Does :
        (o : Option Condition)
        → Agrees o (funct3 insn) (h.cpu.x (rs1 insn)) (h.cpu.x (rs2 insn))
        → (emitted o).supported ≡ true
        → Does s law net_process fp_exec
            (emitted o)
            h
            (u64 (pc + len))
            (branched (branch_taken (funct3 insn) (h.cpu.x (rs1 insn)) (h.cpu.x (rs2 insn))))
    unfolding Agrees
    branch-Does none a ok = absurd (false≢true ok)
    branch-Does (some type) a ok =
        let here = both s law net_process fp_exec insn h zero in
        let b = s.holds type here.r0 here.r1 in
        let n = if b then u64 (pc + branch_off insn) else u64 (pc + len) in
        jumps (record here { cpu = record h.cpu { pc = n } }) n h.cpu
          (then_runs s law net_process fp_exec (load_both insn) _ h here _ none
            (load_both_runs s law net_process fp_exec insn h zero)
            (branch_tail_runs type (u64 (pc + len)) (u64 (pc + branch_off insn)) here b refl))
          refl refl refl (ap branched a ∙ decided type b refl)

    pub op63-Does :
        opcode insn ≡ 0x63
        → (emit_insn pc insn len).supported ≡ true
        → Goal s law net_process fp_exec insn pc len h zero word
    unfolding emit_insn exec exec_plain emit_branch exec_branch
    op63-Does e =
        rw (emit_insn, exec, e)
          (branch-Does (branch_type (funct3 insn))
            (branch_type-Agrees (funct3 insn) (h.cpu.x (rs1 insn)) (h.cpu.x (rs2 insn))))
