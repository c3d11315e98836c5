-- ===== src/Jit/Insn/Fp.antt =====
-- extension/rv64_sljit.c and rv64_cpu.c: the floating-point instructions.
use pglinux.Base.{
  ℕ, ◌+◌, ◌^◌, ◌<◌, ◌≡◌, refl, sym, ap, subst, ◌∙◌, Bool, true, ◌||◌, Option, none, some, [], ◌∷◌,
  ◌++◌, ◌==◌, arith,
}
use pglinux.Word.{u64}
use pglinux.Ram.{Memory}
use pglinux.Virtio.{VirtioDev}
use pglinux.Cpu.{Cpu}
use pglinux.Decode.{opcode}
use pglinux.Exec.{
  Flow, done, left, FpResult, fp_ok, fp_unimplemented, fp_trapped, exec, exec_fp, illegal,
}
use pglinux.Jit.Calls.{Op1, Place, icall_fp_exec}
use pglinux.Jit.Emit.{Emitted, emit_insn, emit_fp, mov_to, leave_on_error}
use pglinux.Jit.Engine.{Sljit, IsSljit, Host, get, put, run, returned, helper_fp_exec}
use pglinux.Jit.Runs.{RunsTo, then_runs}
use pglinux.Jit.Insn.{Does, goes, faults, leaves, Goal}
use pglinux.Jit.Insn.Control.{mov_pc-imm}
use pglinux.Jit.Insn.Store.{leave_runs, leave_jumps}

-- The opcodes of the floating-point unit.
abbrev pub is_fp : ℕ → Bool
is_fp insn =
    opcode insn == 0x07
    || opcode insn == 0x27
    || opcode insn == 0x43
    || opcode insn == 0x47
    || opcode insn == 0x4B
    || opcode insn == 0x4F
    || opcode insn == 0x53

module _ (s : Sljit) (law : IsSljit s)
    (net_process : VirtioDev → ℕ → Memory → ℕ → VirtioDev × Memory)
    (fp_exec : Cpu → ℕ → FpResult × Cpu) where
  fp_arguments :
      (insn : ℕ) (h : Host)
      → RunsTo s law net_process fp_exec
          (mov_to Place.r0 Place.cpu_reg ∷ mov_to Place.r1 (Place.imm insn) ∷ [])
          h
          none
          (record h { r0 = s.pointer; r1 = insn })
  unfolding run get put
  fp_arguments insn h rest =
      ap
        (λ (t : ℕ).
          let k : Host = record h { r0 = t; r1 = s.op1 Op1.mov insn } in
          run s net_process fp_exec none rest k)
        (law.mov s.pointer)
      ∙ ap
          (λ (t : ℕ).
            let k : Host = record h { r0 = s.pointer; r1 = t } in
            run s net_process fp_exec none rest k)
          (law.mov insn)

  abbrev fp_host : Host → FpResult × Cpu → Host
  fp_host k r = elim r.0 [
    | fp_ok ↦ returned s 0 r.1 k
    | fp_unimplemented ↦ returned s 1 r.1 k
    | fp_trapped ↦ returned s 1 r.1 k
  ]

  fp_runs :
      (h : Host) (r : FpResult × Cpu)
      → fp_exec h.cpu h.r1 ≡ r
      → RunsTo s law net_process fp_exec (icall_fp_exec ∷ []) h none (fp_host h r)
  unfolding run helper_fp_exec
  fp_runs h r e rest = ap (λ t. run s net_process fp_exec none rest (fp_host h t)) e

  module _ (insn len : ℕ) (h : Host) (zero : h.cpu.x 0 ≡ 0) (word : insn < 2 ^ 32) where
    abbrev calling : Host
    calling = record h { r0 = s.pointer; r1 = insn }

    up_to_fp :
        (r : FpResult × Cpu) (target : Option ℕ)
        → fp_exec h.cpu insn ≡ r
        → RunsTo s law net_process fp_exec
            (leave_on_error ∷ [])
            (fp_host calling r)
            target
            (fp_host calling r)
        → RunsTo s law net_process fp_exec
            (emit_fp h.cpu.pc insn).calls
            h
            target
            (fp_host calling r)
    unfolding emit_fp
    up_to_fp r target e q =
        let end = fp_host calling r in
        let finish = icall_fp_exec ∷ leave_on_error ∷ [] in
        let arguments = mov_to Place.r0 Place.cpu_reg ∷ mov_to Place.r1 (Place.imm insn) ∷ [] in
        then_runs s law net_process fp_exec (mov_to Place.guest_pc (Place.imm h.cpu.pc) ∷ [])
          (arguments ++ finish) h h end target (mov_pc-imm s law net_process fp_exec h.cpu.pc h)
          (then_runs s law net_process fp_exec arguments finish h calling end target
            (fp_arguments insn h)
            (then_runs s law net_process fp_exec (icall_fp_exec ∷ []) (leave_on_error ∷ []) calling
              end end target (fp_runs calling r e) q))

    abbrev fp_flow : FpResult × Cpu → Flow × Cpu
    fp_flow r = elim r.0 [
      | fp_ok ↦ (done (u64 (h.cpu.pc + len)), r.1)
      | fp_unimplemented ↦ illegal r.1 insn
      | fp_trapped ↦ (left, r.1)
    ]

    fp-Does :
        (got : FpResult) (c : Cpu)
        → fp_exec h.cpu insn ≡ (got, c)
        → Does s law net_process fp_exec
            (emit_fp h.cpu.pc insn)
            h
            (u64 (h.cpu.pc + len))
            (exec_fp net_process fp_exec h.cpu insn (u64 (h.cpu.pc + len)))
    unfolding returned emit_fp exec_fp
    fp-Does fp_ok c e =
        let k = returned s 0 c calling in
        goes k (up_to_fp (fp_ok, c) none e (leave_runs s law net_process fp_exec k refl)) refl refl
          (ap fp_flow e)
    fp-Does fp_unimplemented c e =
        let k = returned s 1 c calling in
        faults k 2 insn
          (up_to_fp (fp_unimplemented, c) (some 0) e (leave_jumps s law net_process fp_exec k refl))
          refl (ap fp_flow e)
    fp-Does fp_trapped c e =
        let k = returned s 1 c calling in
        leaves k
          (up_to_fp (fp_trapped, c) (some 0) e (leave_jumps s law net_process fp_exec k refl)) refl
          (ap fp_flow e)

    emit_insn-emit_fp : is_fp insn ≡ true → emit_insn h.cpu.pc insn len ≡ emit_fp h.cpu.pc insn
    unfolding emit_insn
    emit_insn-emit_fp e = ground (arith, e)

    exec-exec_fp :
        is_fp insn ≡ true
        → exec net_process fp_exec h.cpu insn (u64 (h.cpu.pc + len))
          ≡ exec_fp net_process fp_exec h.cpu insn (u64 (h.cpu.pc + len))
    unfolding exec
    exec-exec_fp e = ground (arith, e)

    pub fp_opcodes-Does :
        is_fp insn ≡ true → Goal s law net_process fp_exec insn h.cpu.pc len h zero word
    fp_opcodes-Does e =
        let got = fp_exec h.cpu insn in
        subst
          (λ (em : Emitted).
            Does s law net_process fp_exec em h (u64 (h.cpu.pc + len))
              (exec net_process fp_exec h.cpu insn (u64 (h.cpu.pc + len))))
          (sym (emit_insn-emit_fp e))
          (subst (Does s law net_process fp_exec (emit_fp h.cpu.pc insn) h (u64 (h.cpu.pc + len)))
            (sym (exec-exec_fp e)) (fp-Does got.0 got.1 refl))
