-- ===== src/Step.antt =====
-- extension/rv64_cpu.c: `rv64_step`, whose breakpoint is in Run. Its instruction log and class counters
-- are not part of the state. It never returns -1.
pub mod Zero
use pglinux.Base.{ℕ, ◌+◌, none, some, ◌==◌, if◌then◌else◌}
use pglinux.Word.{u16, u32, u64, ◌&&&◌}
use pglinux.Ram.{Memory}
use pglinux.Virtio.{VirtioDev}
use pglinux.Cpu.{Cpu, Access}
use pglinux.Mem.{value, trapped, cpu_load}
use pglinux.Trap.{trap}
use pglinux.Rvc.Expand.{expand}
use pglinux.Exec.{Flow, done, left, FpResult, exec}

-- The instruction word, or a trap that was taken.
pub data Fetched : Type 0 where
  word : ℕ → Fetched
  no_word : Fetched

-- cpu->pc = next_pc; cpu->instret++; cpu->cycle++;
unfoldable pub retire : Flow × Cpu → Cpu
retire (done next_pc, c) = record c {
  pc = next_pc;
  instret = u64 (c.instret + 1);
  cycle = u64 (c.cycle + 1);
}
retire (left, c) = c

module _ (net_process : VirtioDev → ℕ → Memory → ℕ → VirtioDev × Memory)
    (fp_exec : Cpu → ℕ → FpResult × Cpu) where
  -- Four bytes, or two where the next two cannot be read and a short instruction begins.
  unfoldable pub fetch : Cpu → Fetched × Cpu
  fetch c =
      let (r, c1) = cpu_load net_process c c.pc 4 Access.exec in
      elim r [
        | value v ↦ (word (u32 v), c1)
        | trapped exc ↦
            let (r2, c2) = cpu_load net_process c1 c1.pc 2 Access.exec in
            elim r2 [
              | trapped exc2 ↦ (no_word, trap c2 exc2 c2.pc)
              | value v ↦
                  if (v &&& 3) == 3 then (no_word, trap c2 exc c2.pc) else (word (u32 v), c2)
            ]
      ]

  unfoldable pub step_word : Cpu → ℕ → Cpu
  step_word c insn =
      if (insn &&& 3) == 3
      then retire (exec net_process fp_exec c insn (u64 (c.pc + 4)))
      else (let ci = u16 (insn &&& 0xFFFF) in
          elim (expand ci) [
            | none ↦ trap c 2 ci
            | some insn' ↦ retire (exec net_process fp_exec c insn' (u64 (c.pc + 2)))
          ])

  unfoldable pub rv64_step : Cpu → Cpu
  rv64_step c =
      if c.halted
      then c
      else (let (f, c1) = fetch c in elim f [ no_word ↦ c1 | word insn ↦ step_word c1 insn ])
