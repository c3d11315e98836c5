-- ===== src/Jit/Whole.antt =====
-- extension/rv64_sljit.c and rv64_cpu.c: the code of a block does what the interpreter does with its
-- instructions, one after the other.
pub mod Turn
pub mod Loop
pub mod Cold
use pglinux.Base.{
  ℕ, zero, suc, ◌+◌, ◌^◌, ◌<◌, ◌≡◌, Bool, not, ◌&&◌, ◌||◌, List, [], ◌∷◌, ltb, if◌then◌else◌,
}
use pglinux.Word.{u32, u64}
use pglinux.Ram.{Memory}
use pglinux.Virtio.{VirtioDev}
use pglinux.Cpu.{Cpu, Access}
use pglinux.Mem.{Loaded, value, trapped, cpu_load}
use pglinux.Trap.{trap}
use pglinux.Exec.{Flow, done, left, FpResult, exec}
use pglinux.Jit.Emit.{Emitted}
use pglinux.Jit.Block.{JitState, emit_word, unpack, compile_body}
use pglinux.Jit.Every.{Agrees}

-- An instruction with its length.
abbrev pub Insns : Type 0
Insns = List (ℕ × ℕ)

-- The instructions that `compile_word` and `compile_body` compile, in their order.
unfoldable pub word_insns : JitState → ℕ → ℕ → ℕ → (ℕ → ℕ → Insns) → Insns
word_insns jit pc jumps word rest =
    let em = emit_word jit pc word in
    let n = if em.jumps then jumps + 1 else jumps in
    let next_pc = u64 (pc + (unpack word).1) in
    let more = rest next_pc n in
    if not em.supported
    then []
    else if em.ended || (em.jumps && ltb 60 n)
    then unpack word ∷ []
    else unpack word ∷ more

module _ (net_process : VirtioDev → ℕ → Memory → ℕ → VirtioDev × Memory) where
  unfoldable pub body_insns : JitState → ℕ → Cpu → ℕ → ℕ → Insns
  body_insns jit zero c pc jumps = []
  body_insns jit (suc turns) c pc jumps =
      let (got, c1) = cpu_load net_process c pc 4 Access.exec in
      elim got [
        | trapped exc ↦ []
        | value val ↦ word_insns jit pc jumps (u32 val) (body_insns jit turns c1)
      ]

  module _ (fp_exec : Cpu → ℕ → FpResult × Cpu) where
    -- The interpreter on the instructions: it comes from the first machine to the second and completes
    -- the number of instructions. It stops behind the last one, before one that traps, or after an
    -- instruction has trapped.
    pub data Interprets : Insns → Cpu → Cpu → ℕ → Type 0 where
      stands : {c d : Cpu} → d ≡ c → Interprets [] c d 0
      completes :
          {c d e : Cpu} {insn len to n : ℕ} {is : Insns}
          → exec net_process fp_exec c insn (u64 (c.pc + len)) ≡ (done to, d)
          → Interprets is (record d { pc = to }) e n
          → Interprets ((insn, len) ∷ is) c e (suc n)
      faults :
          {c d : Cpu} {insn len : ℕ} {is : Insns} (exc addr : ℕ)
          → exec net_process fp_exec c insn (u64 (c.pc + len)) ≡ (left, trap d exc addr)
          → Interprets ((insn, len) ∷ is) c d 0
      leaves :
          {c d : Cpu} {insn len : ℕ} {is : Insns}
          → exec net_process fp_exec c insn (u64 (c.pc + len)) ≡ (left, d)
          → Interprets ((insn, len) ∷ is) c d 0

    -- The JIT and the interpreter agree on every instruction in the machine in which it is reached, and
    -- x0 is zero at the end.
    unfoldable pub AgreeAlong : Insns → Cpu → Type 0
    AgreeAlong [] c = c.x 0 ≡ 0
    AgreeAlong (i ∷ is) c =
        Agrees net_process i.0 c
        × ((to : ℕ) (d : Cpu)
            → exec net_process fp_exec c i.0 (u64 (c.pc + i.1)) ≡ (done to, d)
            → AgreeAlong is (record d { pc = to }))
