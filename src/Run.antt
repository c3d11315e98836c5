-- ===== src/Run.antt =====
-- extension/rv64_cpu.c: `rv64_run` and `rv64_run_jit`. The host's clock is the parameter `now_ns`, its
-- readings in order, and `boot` is `vm_boot_time_ns`. `jit_exec` stands for the JIT; 0 is any result
-- that is not positive. The log of breakpoints and the profile are left out. The loops run on fuel:
-- `none` is a loop that has not ended.
pub mod Wfi
pub mod Exits
pub mod Reset
pub mod Stuck
use pglinux.Base.{
  ℕ, zero, suc, ◌+◌, ◌/◌, Bool, true, false, not, ◌&&◌, ◌||◌, Option, none, some, ◌==◌, ltb, leb,
  if◌then◌else◌,
}
use pglinux.Word.{u64, sub64, nonzero, ◌&&&◌}
use pglinux.Ram.{Memory}
use pglinux.Virtio.{VirtioDev}
use pglinux.Cpu.{Cpu}
use pglinux.Irq.{check_interrupts}
use pglinux.Exec.{FpResult}
use pglinux.Step.{rv64_step}

-- The exit reasons RUN_EXIT_BUDGET, RUN_EXIT_ERROR, RUN_EXIT_DEBUG_HALT and RUN_EXIT_WFI_TIMEOUT.
pub data ExitReason : Type 0 where
  budget exit_error exit_debug_halt wfi_timeout : ExitReason

-- cpu->error, the fields of cpu->dbg for the breakpoint, and whether there is a JIT and it is on.
pub record Debug : Type 0 where
  pub error : Bool
  pub break_pc : ℕ
  pub break_active : Bool
  pub break_halt : Bool
  pub debug_halt : Bool
  pub jit_enabled : Bool

-- The machine, `next_check_cycle`, and the number of clock readings so far.
pub record Run : Type 0 where
  pub cpu : Cpu
  pub debug : Debug
  pub next_check : ℕ
  pub ticks : ℕ

-- The end of a turn of the loop: another one, or `break`.
pub data Turn : Type 0 where
  again : Run → Turn
  leave : ExitReason → Run → Turn

-- The breakpoint at the head of `rv64_step`.
unfoldable pub hit_break : Cpu → Debug → Debug
hit_break c d =
    if not c.halted && d.break_active && c.pc == d.break_pc && d.break_halt
    then record d { debug_halt = true }
    else d

-- The lengths of `check_interval`.
abbrev pub run_interval : ℕ
run_interval = 9973

abbrev pub jit_interval : ℕ
jit_interval = 10000

module _ (net_poll : VirtioDev → Memory → VirtioDev × Memory) (now_ns : ℕ → ℕ) (boot : ℕ) where
  -- cpu->clint.mtime = (_now_ns - vm_boot_time_ns) / 100
  unfoldable pub set_mtime : Run → Run
  set_mtime r = record r {
    cpu = record r.cpu { clint = record r.cpu.clint { mtime = sub64 (now_ns r.ticks) boot / 100 } };
    ticks = r.ticks + 1;
  }

  -- The clock at a due check.
  unfoldable pub due : ℕ → Run → Run
  due interval r =
      if leb r.next_check r.cpu.cycle
      then record (set_mtime r) { next_check = u64 (r.cpu.cycle + interval) }
      else r

  -- The check at the head of `rv64_run`'s loop. The flag says that an interrupt was taken.
  unfoldable pub check_run : Run → Bool × Run
  check_run r =
      if r.cpu.pending_irq_check || leb r.next_check r.cpu.cycle
      then (let r1 = due run_interval r in
          let (taken, c) =
            check_interrupts net_poll (record r1.cpu { pending_irq_check = false }) in
          (taken, record r1 { cpu = c }))
      else (false, r)

  -- That of `rv64_run_jit`, which does not look at `pending_irq_check`.
  unfoldable pub check_jit : Run → Bool × Run
  check_jit r =
      if leb r.next_check r.cpu.cycle
      then (let r1 = due jit_interval r in
          let (taken, c) = check_interrupts net_poll r1.cpu in (taken, record r1 { cpu = c }))
      else (false, r)

  -- One turn of the wait: the clock, `interval` cycles and the interrupts.
  unfoldable pub wait : ℕ → Run → Run
  wait interval r =
      let r1 = set_mtime r in
      let c =
        (check_interrupts net_poll (record r1.cpu { cycle = u64 (r1.cpu.cycle + interval) })).1 in
      record r1 { cpu = c }

  -- while (cpu->halted && cpu->cycle < max_cycles)
  unfoldable pub wfi_loop : ℕ → ℕ → ℕ → Run → Option Run
  wfi_loop zero interval max r = none
  wfi_loop (suc fuel) interval max r = elim (r.cpu.halted && ltb r.cpu.cycle max) [
    | false ↦ some r
    | true ↦
        let r1 = wait interval r in
        elim (r1.cpu.mip &&& r1.cpu.mie) [
          | zero ↦ wfi_loop fuel interval max r1
          | suc _ ↦ some (record r1 { cpu = record r1.cpu { halted = false } })
        ]
  ]

  -- The case of a halted hart.
  unfoldable pub halted_turn : ℕ → ℕ → ℕ → Run → Option Turn
  halted_turn fuel interval max r =
      if r.cpu.mie == 0
      then some (again (record r { cpu = record r.cpu { halted = false } }))
      else elim (wfi_loop fuel interval max r) [
        | none ↦ none
        | some r1 ↦ if r1.cpu.halted then some (leave wfi_timeout r1) else some (again r1)
      ]

  module _ (net_process : VirtioDev → ℕ → Memory → ℕ → VirtioDev × Memory)
      (fp_exec : Cpu → ℕ → FpResult × Cpu) where
    -- `rv64_step` with its breakpoint. The flag is a result below 0, which it never returns.
    unfoldable pub stepped : Run → Bool × Run
    stepped r = (
      false,
      record r { cpu = rv64_step net_process fp_exec r.cpu; debug = hit_break r.cpu r.debug },
    )

    -- The end of a turn: a step, and the exits behind it. Without one `debug_halt` is cleared.
    unfoldable pub step_turn : Run → Turn
    step_turn r =
        let (failed, r1) = stepped r in
        if failed
        then leave exit_error (record r1 { debug = record r1.debug { error = true } })
        else if r1.debug.debug_halt && r1.debug.break_halt
        then leave exit_debug_halt r1
        else again (record r1 { debug = record r1.debug { debug_halt = false } })

    -- A turn of the loop of `rv64_run`.
    unfoldable pub run_turn : ℕ → ℕ → Run → Option Turn
    run_turn fuel max r =
        let (taken, r1) = check_run r in
        if taken
        then some (again r1)
        else if r1.cpu.halted
        then halted_turn fuel run_interval max r1
        else some (step_turn r1)

    -- A turn of that of `rv64_run_jit`.
    unfoldable pub jit_turn : (Cpu → ℕ × Cpu) → ℕ → ℕ → Run → Option Turn
    jit_turn jit_exec fuel max r =
        let (taken, r1) = check_jit r in
        if taken
        then some (again r1)
        else if r1.cpu.halted
        then halted_turn fuel jit_interval max r1
        else (let (jit_ran, c) =
              if nonzero (r1.cpu.mip &&& r1.cpu.mie) then (0, r1.cpu) else jit_exec r1.cpu in
            if jit_ran == 0
            then some (step_turn (record r1 { cpu = c }))
            else some (again (record r1 { cpu = record c { cycle = u64 (c.cycle + jit_ran) } })))

    -- The reason where the loop was not left by a `break`.
    unfoldable pub run_reason : Debug → ExitReason
    run_reason d = if d.debug_halt then exit_debug_halt else if d.error then exit_error else budget

    unfoldable pub jit_reason : Debug → ExitReason
    jit_reason d = if d.error then exit_error else budget

    -- while (cpu->cycle < max_cycles && !cpu->error), over the turns of either loop.
    unfoldable pub loop :
        (ℕ → ℕ → Run → Option Turn) → (Debug → ExitReason) → ℕ → ℕ → Run → Option (ExitReason × Run)
    loop turn reason zero max r = none
    loop turn reason (suc fuel) max r = elim (ltb r.cpu.cycle max && not r.debug.error) [
      | false ↦ some (reason r.debug, r)
      | true ↦ elim (turn fuel max r) [
        | none ↦ none
        | some t ↦ elim t [ again r1 ↦ loop turn reason fuel max r1 | leave e r1 ↦ some (e, r1) ]
      ]
    ]

    abbrev pub start_run : ℕ → Cpu → Debug → Run
    start_run interval c d = record {
      cpu = c;
      debug = d;
      next_check = u64 (c.cycle + interval);
      ticks = 0;
    }

    -- The reason, the cycles spent, the machine and the flags.
    abbrev pub returned : Cpu → ExitReason × Run → ExitReason × ℕ × Cpu × Debug
    returned c r = (r.0, sub64 r.1.cpu.cycle c.cycle, r.1.cpu, r.1.debug)

    abbrev pub ended : Cpu → Option (ExitReason × Run) → Option (ExitReason × ℕ × Cpu × Debug)
    ended c o = elim o [ none ↦ none | some r ↦ some (returned c r) ]

    unfoldable pub rv64_run_jit :
        (Cpu → ℕ × Cpu) → ℕ → Cpu → Debug → ℕ → Option (ExitReason × ℕ × Cpu × Debug)
    rv64_run_jit jit_exec fuel c d n =
        ended c (
          loop (jit_turn jit_exec) jit_reason fuel (u64 (c.cycle + n)) (start_run jit_interval c d))

    unfoldable pub rv64_run :
        (Cpu → ℕ × Cpu) → ℕ → Cpu → Debug → ℕ → Option (ExitReason × ℕ × Cpu × Debug)
    rv64_run jit_exec fuel c d n =
        if d.jit_enabled
        then rv64_run_jit jit_exec fuel c d n
        else ended c
            (loop run_turn run_reason fuel (u64 (c.cycle + n)) (start_run run_interval c d))
