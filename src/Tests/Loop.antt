-- ===== src/Tests/Loop.antt =====
-- Runs of the theorems on the run loop.
use pglinux.Base.{ℕ, ◌≡◌, refl, false, some, none, arith}
use pglinux.Tests.Data.{no_net, no_poll, toy_host, stuck_cpu, waiting_cpu, still_clock}
use pglinux.Cpu.{Cpu}
use pglinux.Irq.{update_mip, check_interrupts, refresh}
use pglinux.Step.{step_word, fetch}
use pglinux.Trap.{trap, delegated, enter_m, handler}
use pglinux.Mem.{cpu_load, load_at, fast_load_ok, host_hit}
use pglinux.Mmu.{translate}
use pglinux.Bus.{bus_load, within, is_size}
use pglinux.Ram.{read_bytes}
use pglinux.Rvc.Expand.{expand, quadrant0}
use pglinux.Fpu.{fp_exec}
use pglinux.Exec.{FpResult}
use pglinux.Step.{rv64_step}
use pglinux.Run.{
  Debug, Run, wfi_timeout, rv64_run, wfi_loop, wait, set_mtime, check_run, due, halted_turn,
  run_turn, loop,
}
use pglinux.Run.Wfi.{WfiDone, wfi_loop_ends}
use pglinux.Run.Exits.{Exited, rv64_run_exits}
use pglinux.Run.Stuck.{rv64_run_stuck}

-- No breakpoint, and no JIT.
abbrev plain : Debug
plain = record {
  error = false;
  break_pc = 0;
  break_active = false;
  break_halt = false;
  debug_halt = false;
  jit_enabled = false;
}

abbrev no_jit : Cpu → ℕ × Cpu
no_jit c = (0, c)

abbrev waiting : Run
waiting = record { cpu = waiting_cpu; debug = plain; next_check = 9974; ticks = 0 }

wfi_loop_ends_example : WfiDone 15000 (wfi_loop no_poll still_clock 0 3 9973 15000 waiting)
wfi_loop_ends_example =
    wfi_loop_ends no_poll still_clock 0 2 9973 15000 waiting (omega arith) (omega arith)

abbrev fp : Cpu → ℕ → FpResult × Cpu
fp = fp_exec toy_host no_net

-- After one turn of the wait.
abbrev waited : Cpu
waited = record waiting_cpu {
  clint = record waiting_cpu.clint { mtime = 10 };
  cycle = 9974;
  irq_checks = 1;
}

one_wait :
    rv64_run no_poll still_clock 0 no_net fp no_jit 3 waiting_cpu plain 5
    ≡ some (wfi_timeout, 9973, waited, plain)
unfolding rv64_run loop run_turn check_run due halted_turn wfi_loop wait set_mtime update_mip
    check_interrupts refresh
one_wait = refl

rv64_run_exits_example : Exited 6 wfi_timeout waited plain
rv64_run_exits_example =
    rv64_run_exits no_poll still_clock 0 no_net fp no_jit 3 waiting_cpu plain 5 wfi_timeout 9973
      waited plain one_wait

traps_again : rv64_step no_net fp stuck_cpu ≡ stuck_cpu
unfolding rv64_step step_word fetch trap cpu_load load_at translate bus_load fast_load_ok host_hit
    read_bytes within is_size expand delegated quadrant0 enter_m handler
traps_again = refl

rv64_run_stuck_example :
    rv64_run no_poll still_clock 0 no_net fp no_jit 1000000 stuck_cpu plain 1 ≡ none
rv64_run_stuck_example =
    rv64_run_stuck no_poll still_clock 0 no_net fp no_jit 1000000 stuck_cpu plain 1 refl traps_again
      refl refl refl refl refl (omega arith) (omega arith) (omega arith)
