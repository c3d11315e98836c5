-- ===== src/Jit/Insn/Store.antt =====
-- extension/rv64_sljit.c and rv64_cpu.c: the stores.
use pglinux.Base.{
  ℕ, ◌+◌, ◌^◌, ◌<◌, ◌≡◌, inl, inr, refl, sym, ap, subst, ◌∙◌, true, false, Option, none, some, [],
  ◌∷◌, ◌++◌, ◌==◌, arith,
}
use pglinux.Word.{u64}
use pglinux.Word.Bits.Fields.{and_mask}
use pglinux.Ram.{Memory}
use pglinux.Virtio.{VirtioDev}
use pglinux.Cpu.{Cpu}
use pglinux.Decode.{opcode, rs1, rs2, funct3, imm_s}
use pglinux.Mem.{cpu_store}
use pglinux.Mem.Faults.{cpu_store-traps}
use pglinux.Trap.{trap}
use pglinux.Exec.{Flow, done, left, FpResult, exec, exec_store, store_size, illegal}
use pglinux.Jit.Calls.{Op1, Place, icall_store}
use pglinux.Jit.Emit.{
  emit_insn, emit_store, emit_memory_icall, emit_address, emit_load_guest, mov_to, store_imm,
  access_size, leave_on_error,
}
use pglinux.Jit.Engine.{Sljit, IsSljit, Host, get, put, run, returned, helper_sljit_store}
use pglinux.Jit.Runs.{RunsTo, then_runs, load_guest-r3}
use pglinux.Jit.Insn.{Does, goes, faults, Goal}
use pglinux.Jit.Insn.Control.{mov_pc-imm}
use pglinux.Jit.Insn.Load.{address_runs}
use pglinux.Jit.Signs.{store_imm-imm_s, store_imm-lt}

size_of_store : (f3 : ℕ) → f3 < 4 → store_size f3 ≡ some (access_size f3)
unfolding store_size
size_of_store f3 lt = ground (arith, lt, and_mask 2 f3)

module _ (s : Sljit) (law : IsSljit s)
    (net_process : VirtioDev → ℕ → Memory → ℕ → VirtioDev × Memory)
    (fp_exec : Cpu → ℕ → FpResult × Cpu) where
  -- The jump to the epilogue is taken on an error only.
  pub leave_runs :
      (k : Host)
      → (k.r0 == 0) ≡ true
      → RunsTo s law net_process fp_exec (leave_on_error ∷ []) k none k
  unfolding run get
  leave_runs k ok rest = rw (law.not_equal, ok) refl

  pub leave_jumps :
      (k : Host)
      → (k.r0 == 0) ≡ false
      → RunsTo s law net_process fp_exec (leave_on_error ∷ []) k (some 0) k
  unfolding run get
  leave_jumps k bad rest = rw (law.not_equal, bad) refl

  set_arguments :
      (size : ℕ) (h : Host)
      → RunsTo s law net_process fp_exec
          (mov_to Place.r0 Place.cpu_reg ∷ mov_to Place.r2 (Place.imm size) ∷ [])
          h
          none
          (record h { r0 = s.pointer; r2 = size })
  unfolding run get put
  set_arguments size h rest =
      ap
        (λ (t : ℕ).
          let k : Host = record h { r0 = t; r2 = s.op1 Op1.mov size } in
          run s net_process fp_exec none rest k)
        (law.mov s.pointer)
      ∙ ap
          (λ (t : ℕ).
            let k : Host = record h { r0 = s.pointer; r2 = t } in
            run s net_process fp_exec none rest k)
          (law.mov size)

  abbrev stored_host : Host → Option ℕ × Cpu → Host
  stored_host h r = elim r.0 [ none ↦ returned s 0 r.1 h | some e ↦ returned s e r.1 h ]

  helper_runs :
      (h : Host) (r : Option ℕ × Cpu)
      → cpu_store net_process h.cpu h.r1 h.r2 h.r3 ≡ r
      → RunsTo s law net_process fp_exec (icall_store ∷ []) h none (stored_host h r)
  unfolding run helper_sljit_store
  helper_runs h r e rest = ap (λ t. run s net_process fp_exec none rest (stored_host h t)) e

  module _ (insn len : ℕ) (h : Host) (zero : h.cpu.x 0 ≡ 0) (word : insn < 2 ^ 32) where
    abbrev addr : ℕ
    addr = u64 (h.cpu.x (rs1 insn) + store_imm insn)

    abbrev size : ℕ
    size = access_size (funct3 insn)

    abbrev ready : Host
    ready = record h { r0 = s.pointer; r1 = addr; r2 = size; r3 = h.cpu.x (rs2 insn) }

    -- The calls up to the helper, and what follows.
    up_to_helper :
        (k l : Host) (target : Option ℕ)
        → RunsTo s law net_process fp_exec (icall_store ∷ []) ready none k
        → RunsTo s law net_process fp_exec (leave_on_error ∷ []) k target l
        → RunsTo s law net_process fp_exec (emit_store h.cpu.pc insn).calls h target l
    unfolding emit_store emit_memory_icall
    up_to_helper k l target p q =
        let start : Host = record h { r1 = addr } in
        let set : Host = record start { r0 = s.pointer; r2 = size } in
        let value = emit_load_guest Place.r3 (rs2 insn) in
        let finish = icall_store ∷ leave_on_error ∷ [] in
        let arguments = mov_to Place.r0 Place.cpu_reg ∷ mov_to Place.r2 (Place.imm size) ∷ [] in
        then_runs s law net_process fp_exec (mov_to Place.guest_pc (Place.imm h.cpu.pc) ∷ [])
          (emit_address (rs1 insn) (store_imm insn) ++ (arguments ++ (value ++ finish))) h h l
          target (mov_pc-imm s law net_process fp_exec h.cpu.pc h)
          (then_runs s law net_process fp_exec (emit_address (rs1 insn) (store_imm insn))
            (arguments ++ (value ++ finish)) h start l target
            (address_runs s law net_process fp_exec (rs1 insn) (store_imm insn) h zero
              (store_imm-lt insn word))
            (then_runs s law net_process fp_exec arguments (value ++ finish) start set l target
              (set_arguments size start)
              (then_runs s law net_process fp_exec value finish set ready l target
                (load_guest-r3 s law net_process fp_exec (rs2 insn) set zero)
                (then_runs s law net_process fp_exec (icall_store ∷ []) (leave_on_error ∷ []) ready
                  k l target p q))))

    abbrev stored : Option ℕ × Cpu → Flow × Cpu
    stored r = elim r.0 [
      | some e ↦ (left, trap r.1 e addr)
      | none ↦ (done (u64 (h.cpu.pc + len)), r.1)
    ]

    store-Does :
        (got : Option ℕ) (c : Cpu)
        → cpu_store net_process h.cpu addr size (h.cpu.x (rs2 insn)) ≡ (got, c)
        → Does s law net_process fp_exec
            (emit_store h.cpu.pc insn)
            h
            (u64 (h.cpu.pc + len))
            (stored (cpu_store net_process h.cpu addr size (h.cpu.x (rs2 insn))))
    unfolding returned emit_store
    store-Does none c e =
        let k = returned s 0 c ready in
        goes k (up_to_helper k k none (helper_runs ready (none, c) e) (leave_runs k refl)) refl refl
          (ap stored e)
    store-Does (some exc) c e =
        let k = returned s exc c ready in
        let bad : (exc == 0) ≡ false =
          elim (cpu_store-traps net_process h.cpu addr size (h.cpu.x (rs2 insn)) exc
            (ap (λ (r : Option ℕ × Cpu). r.0) e)) [
              | inl page ↦ ground (arith, page)
              | inr access ↦ ground (arith, access)
            ] in
        faults k exc addr
          (up_to_helper k k (some 0) (helper_runs ready (some exc, c) e) (leave_jumps k bad)) refl
          (ap stored e)

    abbrev storing : Option ℕ → ℕ → Flow × Cpu
    storing o i = elim o [
      | none ↦ illegal h.cpu insn
      | some n ↦
          let a = u64 (h.cpu.x (rs1 insn) + i) in
          elim (cpu_store net_process h.cpu a n (h.cpu.x (rs2 insn))).0 [
            | some e ↦ (left, trap (cpu_store net_process h.cpu a n (h.cpu.x (rs2 insn))).1 e a)
            | none ↦ (
              done (u64 (h.cpu.pc + len)),
              (cpu_store net_process h.cpu a n (h.cpu.x (rs2 insn))).1,
            )
          ]
    ]

    exec_store-storing :
        funct3 insn < 4
        → exec_store net_process h.cpu insn (u64 (h.cpu.pc + len))
          ≡ stored (cpu_store net_process h.cpu addr size (h.cpu.x (rs2 insn)))
    unfolding exec_store
    exec_store-storing known =
        ap (λ (o : Option ℕ). storing o (imm_s insn)) (size_of_store (funct3 insn) known)
        ∙ ap (storing (some size)) (sym (store_imm-imm_s insn word))

    pub op23-Does :
        opcode insn ≡ 0x23
        → funct3 insn < 4
        → Goal s law net_process fp_exec insn h.cpu.pc len h zero word
    unfolding emit_insn exec
    op23-Does e known =
        let got = cpu_store net_process h.cpu addr size (h.cpu.x (rs2 insn)) in
        rw (emit_insn, exec, e)
          (subst
            (Does s law net_process fp_exec (emit_store h.cpu.pc insn) h (u64 (h.cpu.pc + len)))
            (sym (exec_store-storing known)) (store-Does got.0 got.1 refl))
