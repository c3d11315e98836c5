-- ===== src/Jit/Insn/Load.antt =====
-- extension/rv64_sljit.c and rv64_cpu.c: the loads.
use pglinux.Base.{
  ℕ, ◌+◌, ◌^◌, ◌<◌, ◌≡◌, refl, sym, ap, subst, ◌∙◌, Bool, true, false, Option, none, some, List, [],
  ◌∷◌, ◌++◌, ◌==◌, ltb, if◌then◌else◌, if_split, arith, ==→eq,
}
use pglinux.Word.{u64, ◌>>>◌}
use pglinux.Word.Bits.Fields.{and_mask}
use pglinux.Ram.{Memory}
use pglinux.Virtio.{VirtioDev}
use pglinux.Cpu.{Cpu, Access, set_reg}
use pglinux.Decode.{opcode, rd, rs1, funct3, imm_i}
use pglinux.Mem.{Loaded, value, trapped, cpu_load}
use pglinux.Mem.Faults.{LoadTrap, read_page, read_access, cpu_load-traps}
use pglinux.Mem.Keeps.{hart-cpu_load}
use pglinux.Cpu.Hart.{Hart, hart}
use pglinux.Trap.{trap}
use pglinux.Exec.{Flow, done, left, FpResult, exec, exec_load, load_size, load_value, illegal}
use pglinux.Jit.Calls.{Op1, Place, Call, get_local_base, icall_load}
use pglinux.Jit.Emit.{
  emit_insn, emit_load, emit_memory_icall, emit_address, emit_store_guest, mov_to, imm20, load_ops,
  access_size, leave_on_error,
}
use pglinux.Jit.Engine.{Sljit, IsSljit, Host, get, put, run, returned, helper_sljit_load}
use pglinux.Jit.Skips.{skipped_after, Skips-append, load_ops-Skips, store_guest-Skips}
use pglinux.Jit.Runs.{RunsTo, then_runs, store_guest}
use pglinux.Jit.Insn.{Does, goes, faults, Goal}
use pglinux.Jit.Insn.Control.{mov_pc-imm}
use pglinux.Jit.Signs.{imm20-imm_i}

-- LBU, LHU and LWU cut the value to their size, the interpreter does not.
abbrev pub narrow : ℕ → ℕ → Bool
narrow f3 v =
    if f3 == 4
    then ltb v (2 ^ 8)
    else if f3 == 5
    then ltb v (2 ^ 16)
    else if f3 == 6
    then ltb v (2 ^ 32)
    else true

size_of_load : (f3 : ℕ) → f3 < 7 → load_size f3 ≡ some (access_size f3)
unfolding load_size
size_of_load f3 lt = ground (arith, lt, and_mask 2 f3)

imm20-lt : (insn : ℕ) → insn < 2 ^ 32 → imm20 insn < 2 ^ 64
unfolding imm20
imm20-lt insn word = ground (arith, word)

not_zero : (e : ℕ) → LoadTrap Access.read e → (e == 0) ≡ false
not_zero e read_page = refl
not_zero e read_access = refl

module _ (s : Sljit) (law : IsSljit s)
    (net_process : VirtioDev → ℕ → Memory → ℕ → VirtioDev × Memory)
    (fp_exec : Cpu → ℕ → FpResult × Cpu) where
  pub address_runs :
      (base i : ℕ) (h : Host)
      → h.cpu.x 0 ≡ 0
      → i < 2 ^ 64
      → RunsTo s law net_process fp_exec
          (emit_address base i)
          h
          none
          (record h { r1 = u64 (h.cpu.x base + i) })
  unfolding emit_address run get put
  address_runs base i h zero small =
      let goal = record h { r1 = u64 (h.cpu.x base + i) } in
      let P = λ (cs : List Call). RunsTo s law net_process fp_exec cs h none goal in
      if_split P (base == 0)
        (λ e rest.
          ap (λ (t : ℕ). run s net_process fp_exec none rest (record h { r1 = t }))
            (law.mov i ∙ omega (arith, small, zero, ap h.cpu.x (==→eq base 0 e))))
        λ e rest. rw (law.mov, law.add) refl

  load_ops_run :
      (f3 : ℕ) (k : Host)
      → narrow f3 k.r0 ≡ true
      → RunsTo s law net_process fp_exec (load_ops f3) k none (record k { r0 = load_value f3 k.r0 })
  unfolding load_ops load_value run get put
  load_ops_run f3 k fits =
      let v = k.r0 in
      let to =
        λ (rest : List Call) (t : ℕ). run s net_process fp_exec none rest (record k { r0 = t }) in
      let P = λ (cs : List Call).
        RunsTo s law net_process fp_exec cs k none (record k { r0 = load_value f3 k.r0 }) in
      if_split P (f3 == 0) (λ e rest. ap (to rest) (law.mov_s8 v ∙ ground (arith, e)))
        λ n0.
          if_split P (f3 == 1) (λ e rest. ap (to rest) (law.mov_s16 v ∙ ground (arith, e)))
            λ n1.
              if_split P (f3 == 2) (λ e rest. ap (to rest) (law.mov_s32 v ∙ ground (arith, e)))
                λ n2.
                  if_split P (f3 == 4)
                    (λ e rest. ap (to rest) (law.mov_u8 v ∙ ground (arith, e, fits)))
                    λ n4.
                      if_split P (f3 == 5)
                        (λ e rest. ap (to rest) (law.mov_u16 v ∙ ground (arith, e, fits)))
                        λ n5.
                          if_split P (f3 == 6)
                            (λ e rest. ap (to rest) (law.mov_u32 v ∙ ground (arith, e, fits)))
                            λ n6. λ rest. ap (to rest) (ground (arith, n0, n1, n2))

  abbrev load_tail : ℕ → List Call
  load_tail size =
      mov_to Place.r0 Place.cpu_reg
      ∷ mov_to Place.r2 (Place.imm size)
      ∷ get_local_base Place.r3
      ∷ icall_load
      ∷ leave_on_error
      ∷ mov_to Place.r0 Place.local
      ∷ []

  abbrev result : Host → Loaded × Cpu → Host
  result h r = elim r.0 [
    | value v ↦ returned s 0 r.1 (record h { local = v })
    | trapped e ↦ returned s e r.1 h
  ]

  helper_value :
      (v : ℕ) (c : Cpu) (h : Host)
      → cpu_load net_process h.cpu h.r1 h.r2 Access.read ≡ (value v, c)
      → helper_sljit_load s net_process fp_exec h ≡ returned s 0 c (record h { local = v })
  unfolding helper_sljit_load
  helper_value v c h e = ap (result h) e

  helper_trap :
      (exc : ℕ) (c : Cpu) (h : Host)
      → cpu_load net_process h.cpu h.r1 h.r2 Access.read ≡ (trapped exc, c)
      → helper_sljit_load s net_process fp_exec h ≡ returned s exc c h
  unfolding helper_sljit_load
  helper_trap exc c h e = ap (result h) e

  load_tail_value :
      (size v : ℕ) (c : Cpu) (h : Host)
      → cpu_load net_process h.cpu h.r1 size Access.read ≡ (value v, c)
      → RunsTo s law net_process fp_exec
          (load_tail size)
          h
          none
          (record (returned s 0 c h) { r0 = v; local = v })
  unfolding run get put returned
  load_tail_value size v c h e rest =
      ap
        (λ (t : ℕ).
          let k : Host = record h { r0 = s.op1 Op1.mov s.pointer; r2 = t; r3 = s.pointer } in
          run s net_process fp_exec none (leave_on_error ∷ mov_to Place.r0 Place.local ∷ rest)
            (helper_sljit_load s net_process fp_exec k))
        (law.mov size)
      ∙ ap (run s net_process fp_exec none (leave_on_error ∷ mov_to Place.r0 Place.local ∷ rest))
          (helper_value v c _ e)
      ∙ rw (law.not_equal 0 0, law.mov v) refl

  load_tail_trap :
      (size exc : ℕ) (c : Cpu) (h : Host)
      → cpu_load net_process h.cpu h.r1 size Access.read ≡ (trapped exc, c)
      → (exc == 0) ≡ false
      → RunsTo s law net_process fp_exec (load_tail size) h (some 0) (returned s exc c h)
  unfolding run get put returned
  load_tail_trap size exc c h e ne rest =
      ap
        (λ (t : ℕ).
          let k : Host = record h { r0 = s.op1 Op1.mov s.pointer; r2 = t; r3 = s.pointer } in
          run s net_process fp_exec none (leave_on_error ∷ mov_to Place.r0 Place.local ∷ rest)
            (helper_sljit_load s net_process fp_exec k))
        (law.mov size)
      ∙ ap (run s net_process fp_exec none (leave_on_error ∷ mov_to Place.r0 Place.local ∷ rest))
          (helper_trap exc c _ e)
      ∙ rw (law.not_equal exc 0, ne) refl

  -- The exceptions of a load are not 0.
  load_error :
      (c : Cpu) (vaddr size exc : ℕ)
      → (cpu_load net_process c vaddr size Access.read).0 ≡ trapped exc
      → (exc == 0) ≡ false
  load_error c vaddr size exc e =
      not_zero exc (cpu_load-traps net_process c vaddr size Access.read exc e)

  module _ (insn len : ℕ) (h : Host) (zero : h.cpu.x 0 ≡ 0) (word : insn < 2 ^ 32) where
    abbrev addr : ℕ
    addr = u64 (h.cpu.x (rs1 insn) + imm20 insn)

    abbrev size : ℕ
    size = access_size (funct3 insn)

    -- What the interpreter does with the outcome of the access.
    abbrev loaded : Loaded × Cpu → Flow × Cpu
    loaded r = elim r.0 [
      | trapped e ↦ (left, trap r.1 e addr)
      | value v ↦ (done (u64 (h.cpu.pc + len)), set_reg r.1 (rd insn) (load_value (funct3 insn) v))
    ]

    load-Does :
        (got : Loaded) (c : Cpu)
        → cpu_load net_process h.cpu addr size Access.read ≡ (got, c)
        → c.x 0 ≡ 0
        → ((v : ℕ) → got ≡ value v → narrow (funct3 insn) v ≡ true)
        → Does s law net_process fp_exec
            (emit_load h.cpu.pc insn)
            h
            (u64 (h.cpu.pc + len))
            (loaded (cpu_load net_process h.cpu addr size Access.read))
    unfolding emit_load emit_memory_icall returned
    load-Does (value v) c e keeps fits =
        let f3 = funct3 insn in
        let store = emit_store_guest (rd insn) Place.r0 in
        let start : Host = record h { r1 = addr } in
        let got : Host = record (returned s 0 c start) { r0 = v; local = v } in
        let ready : Host = record got { r0 = load_value f3 v } in
        let after : Host = record ready { cpu = set_reg c (rd insn) (load_value f3 v) } in
        goes after
          (then_runs s law net_process fp_exec (mov_to Place.guest_pc (Place.imm h.cpu.pc) ∷ [])
            (emit_memory_icall false size (rs1 insn) (imm20 insn) 0 ++ (load_ops f3 ++ store)) h h
            after none (mov_pc-imm s law net_process fp_exec h.cpu.pc h)
            (then_runs s law net_process fp_exec
              (emit_memory_icall false size (rs1 insn) (imm20 insn) 0) (load_ops f3 ++ store) h got
              after none
              (then_runs s law net_process fp_exec (emit_address (rs1 insn) (imm20 insn))
                (load_tail size) h start got none
                (address_runs (rs1 insn) (imm20 insn) h zero (imm20-lt insn word))
                (load_tail_value size v c start e))
              (then_runs s law net_process fp_exec (load_ops f3) store got ready after none
                (load_ops_run f3 got (fits v refl))
                (store_guest s law net_process fp_exec (rd insn) ready keeps))))
          refl refl (ap loaded e)
    load-Does (trapped exc) c e keeps fits =
        let f3 = funct3 insn in
        let store = emit_store_guest (rd insn) Place.r0 in
        let start : Host = record h { r1 = addr } in
        let after : Host = returned s exc c start in
        faults after exc addr
          (then_runs s law net_process fp_exec (mov_to Place.guest_pc (Place.imm h.cpu.pc) ∷ [])
            (emit_memory_icall false size (rs1 insn) (imm20 insn) 0 ++ (load_ops f3 ++ store)) h h
            after (some 0) (mov_pc-imm s law net_process fp_exec h.cpu.pc h)
            (skipped_after s law net_process fp_exec
              (emit_memory_icall false size (rs1 insn) (imm20 insn) 0) (load_ops f3 ++ store) h
              after
              (then_runs s law net_process fp_exec (emit_address (rs1 insn) (imm20 insn))
                (load_tail size) h start after (some 0)
                (address_runs (rs1 insn) (imm20 insn) h zero (imm20-lt insn word))
                (load_tail_trap size exc c start e
                  (load_error h.cpu addr size exc (ap (λ (r : Loaded × Cpu). r.0) e))))
              (Skips-append s law net_process fp_exec (load_ops f3) store
                (load_ops-Skips s law net_process fp_exec f3)
                (store_guest-Skips s law net_process fp_exec (rd insn)))))
          refl (ap loaded e)

    abbrev loading : Option ℕ → ℕ → Flow × Cpu
    loading o i = elim o [
      | none ↦ illegal h.cpu insn
      | some n ↦
          let a = u64 (h.cpu.x (rs1 insn) + i) in
          elim (cpu_load net_process h.cpu a n Access.read).0 [
            | trapped e ↦ (left, trap (cpu_load net_process h.cpu a n Access.read).1 e a)
            | value v ↦ (
              done (u64 (h.cpu.pc + len)),
              set_reg (cpu_load net_process h.cpu a n Access.read).1 (rd insn)
                  (load_value (funct3 insn) v),
            )
          ]
    ]

    exec_load-loading :
        (funct3 insn == 7) ≡ false
        → exec_load net_process h.cpu insn (u64 (h.cpu.pc + len))
          ≡ loaded (cpu_load net_process h.cpu addr size Access.read)
    unfolding exec_load
    exec_load-loading known =
        ap (λ (o : Option ℕ). loading o (imm_i insn))
          (size_of_load (funct3 insn) (ground (arith, known, and_mask 3 (insn >>> 12))))
        ∙ ap (loading (some size)) (sym (imm20-imm_i insn word))

    pub op03-Does :
        opcode insn ≡ 0x03
        → (funct3 insn == 7) ≡ false
        → ((v : ℕ)
            → (cpu_load net_process h.cpu addr size Access.read).0 ≡ value v
            → narrow (funct3 insn) v ≡ true)
        → Goal s law net_process fp_exec insn h.cpu.pc len h zero word
    unfolding emit_insn exec
    op03-Does e known fits =
        let got = cpu_load net_process h.cpu addr size Access.read in
        let same : hart got.1 ≡ hart h.cpu =
          hart-cpu_load net_process h.cpu addr size Access.read in
        rw (emit_insn, exec, e)
          (subst (Does s law net_process fp_exec (emit_load h.cpu.pc insn) h (u64 (h.cpu.pc + len)))
            (sym (exec_load-loading known))
            (load-Does got.0 got.1 refl (ap (λ (g : Hart). g.x 0) same ∙ zero) fits))
