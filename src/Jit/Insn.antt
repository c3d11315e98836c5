-- ===== src/Jit/Insn.antt =====
-- extension/rv64_sljit.c and rv64_cpu.c: the code of one instruction does what the interpreter does.
pub mod Control
pub mod Load
pub mod Store
pub mod Fp
use mathlib.Core.Bool.{false≢true}
use pglinux.Base.{
  ℕ, ◌+◌, ◌-◌, ◌*◌, ◌/◌, ◌%◌, ◌^◌, ◌<◌, ◌≡◌, ◌⊎◌, inl, inr, refl, sym, ap, ap₂, subst, ◌∙◌, Bool,
  true, false, not, ◌&&◌, ◌||◌, Option, none, some, List, [], ◌∷◌, ◌++◌, ◌==◌, ltb, if◌then◌else◌,
  if_split, arith,
}
use pglinux.Word.{u32, u64, nonzero, ◌&&&◌, ◌|||◌, ◌^^^◌, ◌<<<◌, ◌>>>◌}
use pglinux.Word.Bits.Fields.{and_mask}
use pglinux.Ram.{Memory}
use pglinux.Virtio.{VirtioDev}
use pglinux.Cpu.{Cpu, set_reg}
use pglinux.Decode.{opcode, rd, rs1, rs2, funct3, imm_i, imm_u, imm_j}
use pglinux.Alu.{alu_imm, alu_reg, alu_imm32, alu_reg32}
use pglinux.Trap.{trap}
use pglinux.Exec.{Flow, done, left, FpResult, exec, exec_plain, write_or_illegal}
use pglinux.Jit.Calls.{Op1, Op2, Condition, Place, Call}
use pglinux.Jit.Emit.{
  Emitted, emit_insn, computed, load_both, emit_load_guest, emit_store_guest, funct7, mov_to, imm20,
  widen, ops_reg,
}
use pglinux.Jit.Engine.{Sljit, IsSljit, Host, get, put, run}
use pglinux.Jit.Runs.{RunsTo, then_runs, load_guest-r0, load_guest-r1, store_guest, Wrote}
use pglinux.Jit.Ops.{Computes, Value, ops_reg-Computes, ops_imm-Computes, seen_funct7}
use pglinux.Jit.Ops.Words.{ops_reg32-Computes, ops_imm32-Computes}
use pglinux.Jit.Signs.{imm20-imm_i, upper-imm_u, jal_off-imm_j}

-- Where funct7 is not 1, the interpreter tells only 0x20 from the other values too.
pub seen64 :
    (f3 insn a b : ℕ)
    → insn < 2 ^ 32
    → (funct7 insn == 1) ≡ false
    → alu_reg f3 (seen_funct7 (funct7 insn)) a b ≡ alu_reg f3 (insn >>> 25 &&& 0x7F) a b
unfolding alu_reg
seen64 f3 insn a b word other = ground (arith, word, other, and_mask 7 (insn >>> 25))

seen32 :
    (f3 insn a b : ℕ)
    → insn < 2 ^ 32
    → (funct7 insn == 1) ≡ false
    → alu_reg32 f3 (seen_funct7 (funct7 insn)) a b ≡ alu_reg32 f3 (insn >>> 25 &&& 0x7F) a b
unfolding alu_reg32
seen32 f3 insn a b word other = ground (arith, word, other, and_mask 7 (insn >>> 25))

module _ (s : Sljit) (law : IsSljit s)
    (net_process : VirtioDev → ℕ → Memory → ℕ → VirtioDev × Memory)
    (fp_exec : Cpu → ℕ → FpResult × Cpu) where
  -- The code of an instruction against what the interpreter does: it completes it, with the pc still
  -- to be set behind it or set by the jump, or it leaves the block in the state in which the
  -- interpreter traps, or in which it has trapped.
  pub data Does (em : Emitted) (h : Host) (next : ℕ) (r : Flow × Cpu) : Type 0 where
    goes :
        (k : Host)
        → RunsTo s law net_process fp_exec em.calls h none k
        → em.ended ≡ false
        → k.count ≡ h.count
        → r ≡ (done next, k.cpu)
        → Does em h next r
    jumps :
        (k : Host) (n : ℕ) (c : Cpu)
        → RunsTo s law net_process fp_exec em.calls h none k
        → em.ended ≡ true
        → k.count ≡ h.count
        → k.cpu ≡ record c { pc = n }
        → r ≡ (done n, c)
        → Does em h next r
    faults :
        (k : Host) (e addr : ℕ)
        → RunsTo s law net_process fp_exec em.calls h (some 0) k
        → k.count ≡ h.count
        → r ≡ (left, trap k.cpu e addr)
        → Does em h next r
    leaves :
        (k : Host)
        → RunsTo s law net_process fp_exec em.calls h (some 0) k
        → k.count ≡ h.count
        → r ≡ (left, k.cpu)
        → Does em h next r

  computed-Does :
      (insn next : ℕ) (loads after : List Call) (ops : Option (List Call)) (h k : Host)
      (r : Option ℕ)
      → RunsTo s law net_process fp_exec loads h none k
      → k.cpu ≡ h.cpu
      → k.count ≡ h.count
      → h.cpu.x 0 ≡ 0
      → Computes s law net_process fp_exec ops after k r
      → (computed insn loads ops after).supported ≡ true
      → Does (computed insn loads ops after) h next (write_or_illegal h.cpu insn next r)
  unfolding Computes write_or_illegal
  computed-Does insn next loads after none h k r runs cpu count zero val ok = absurd (false≢true ok)
  computed-Does insn next loads after (some code) h k r runs cpu count zero val ok =
      let w = val.wrote in
      let k2 : Host = record k { r0 = val.v; left = w.left; right = w.right } in
      let k3 : Host = record k2 { cpu = set_reg k.cpu (rd insn) val.v } in
      goes k3
        (then_runs s law net_process fp_exec loads
          ((code ++ after) ++ emit_store_guest (rd insn) Place.r0) h k k3 none runs
          (then_runs s law net_process fp_exec (code ++ after) (emit_store_guest (rd insn) Place.r0)
            k k2 k3 none w.runs
            (store_guest s law net_process fp_exec (rd insn) k2
              (ap (λ (c : Cpu). c.x 0) cpu ∙ zero))))
        refl count
        (ap (write_or_illegal h.cpu insn next) val.is
          ∙ ap (λ (c : Cpu). let o : Flow × Cpu = (done next, set_reg c (rd insn) val.v) in o)
              (sym cpu))

  module _ (insn : ℕ) (h : Host) (zero : h.cpu.x 0 ≡ 0) where
    -- R0 and R1 hold rs1 and rs2.
    abbrev pub both : Host
    both = record h { r0 = h.cpu.x (rs1 insn); r1 = h.cpu.x (rs2 insn) }

    pub load_both_runs : RunsTo s law net_process fp_exec (load_both insn) h none both
    load_both_runs =
        then_runs s law net_process fp_exec _ _ h (record h { r0 = h.cpu.x (rs1 insn) }) both none
          (load_guest-r0 s law net_process fp_exec (rs1 insn) h zero)
          (load_guest-r1 s law net_process fp_exec (rs2 insn) _ zero)

  module _ (insn pc len : ℕ) (h : Host) (zero : h.cpu.x 0 ≡ 0) (word : insn < 2 ^ 32) where
    abbrev pub next_pc : ℕ
    next_pc = u64 (pc + len)

    abbrev pub interpreted : Flow × Cpu
    interpreted = exec net_process fp_exec h.cpu insn next_pc

    abbrev pub Goal : Type 0
    Goal = Does (emit_insn pc insn len) h next_pc interpreted

    f3_small : funct3 insn < 8
    f3_small = omega (arith, and_mask 3 (insn >>> 12))

    -- The code of an OP instruction that is supported, with a shift amount below 64, writes what the
    -- interpreter computes for it with funct7 as the JIT sees it, 0x20 or else 0: a multiplication or
    -- division becomes the operation of the base set with the same funct3.
    pub op33-Does :
        opcode insn ≡ 0x33
        → ((funct3 insn == 1 || funct3 insn == 5) ≡ true → h.cpu.x (rs2 insn) < 64)
        → (emit_insn pc insn len).supported ≡ true
        → Does (emit_insn pc insn len) h next_pc (
          done next_pc,
          set_reg h.cpu (rd insn) (
              alu_reg
                (funct3 insn)
                (seen_funct7 (funct7 insn))
                (h.cpu.x (rs1 insn))
                (h.cpu.x (rs2 insn))),
        )
    unfolding write_or_illegal emit_insn
    op33-Does e small =
        rw (emit_insn, e)
          λ ok.
            computed-Does insn next_pc (load_both insn) [] _ h (both insn h zero) _
              (load_both_runs insn h zero) refl refl zero
              (ops_reg-Computes s law net_process fp_exec (funct3 insn) (funct7 insn)
                (both insn h zero) f3_small small)
              ok

    exec-alu_reg :
        opcode insn ≡ 0x33
        → interpreted ≡ (
          done next_pc,
          set_reg h.cpu (rd insn) (
              alu_reg
                (funct3 insn)
                (insn >>> 25 &&& 0x7F)
                (h.cpu.x (rs1 insn))
                (h.cpu.x (rs2 insn))),
        )
    unfolding exec exec_plain
    exec-alu_reg e = rw (exec, e) refl

    pub op33-Goal :
        opcode insn ≡ 0x33
        → (funct7 insn == 1) ≡ false
        → ((funct3 insn == 1 || funct3 insn == 5) ≡ true → h.cpu.x (rs2 insn) < 64)
        → (emit_insn pc insn len).supported ≡ true
        → Goal
    op33-Goal e no_mul small ok =
        subst (Does (emit_insn pc insn len) h next_pc)
          (ap (λ (v : ℕ). let r : Flow × Cpu = (done next_pc, set_reg h.cpu (rd insn) v) in r)
              (seen64 (funct3 insn) insn (h.cpu.x (rs1 insn)) (h.cpu.x (rs2 insn)) word no_mul)
            ∙ sym (exec-alu_reg e))
          (op33-Does e small ok)

    pub op13-Does :
        opcode insn ≡ 0x13
        → ((funct3 insn == 5) ≡ true → (insn >>> 26 == 0x10 || insn >>> 26 == 0) ≡ true)
        → (emit_insn pc insn len).supported ≡ true
        → Goal
    unfolding write_or_illegal emit_insn exec exec_plain
    op13-Does e shape =
        rw (emit_insn, exec, e, ← imm20-imm_i insn word)
          λ ok.
            computed-Does insn next_pc (emit_load_guest Place.r0 (rs1 insn)) [] _ h
              (record h { r0 = h.cpu.x (rs1 insn) }) _
              (load_guest-r0 s law net_process fp_exec (rs1 insn) h zero) refl refl zero
              (ops_imm-Computes s law net_process fp_exec (funct3 insn) insn
                (record h { r0 = h.cpu.x (rs1 insn) }) f3_small word shape)
              ok

    pub op3b-Does :
        opcode insn ≡ 0x3B
        → (funct7 insn == 1) ≡ false
        → ((funct3 insn == 1 || funct3 insn == 5) ≡ true → u32 (h.cpu.x (rs2 insn)) < 32)
        → (emit_insn pc insn len).supported ≡ true
        → Goal
    unfolding emit_insn exec exec_plain
    op3b-Does e no_mul small =
        rw (emit_insn, exec, e)
          λ ok.
            subst (Does _ h next_pc)
              (ap (write_or_illegal h.cpu insn next_pc) (seen32 (funct3 insn) insn _ _ word no_mul))
              (computed-Does insn next_pc (load_both insn) widen _ h (both insn h zero) _
                (load_both_runs insn h zero) refl refl zero
                (ops_reg32-Computes s law net_process fp_exec (funct3 insn) (funct7 insn)
                  (both insn h zero) small)
                ok)

    pub op1b-Does : opcode insn ≡ 0x1B → (emit_insn pc insn len).supported ≡ true → Goal
    unfolding emit_insn exec exec_plain
    op1b-Does e =
        rw (emit_insn, exec, e, ← imm20-imm_i insn word)
          λ ok.
            computed-Does insn next_pc (emit_load_guest Place.r0 (rs1 insn)) widen _ h
              (record h { r0 = h.cpu.x (rs1 insn) }) _
              (load_guest-r0 s law net_process fp_exec (rs1 insn) h zero) refl refl zero
              (ops_imm32-Computes s law net_process fp_exec (funct3 insn) insn
                (record h { r0 = h.cpu.x (rs1 insn) }) word)
              ok
