-- ===== src/Run/Stuck.antt =====
-- extension/rv64_cpu.c: a trap that comes back to itself. It retires nothing, so the cycle counter,
-- which both the budget and the interrupt checks of `rv64_run` go by, stands still.
use pglinux.Base.{
  ℕ, zero, suc, ◌+◌, ◌^◌, ◌<◌, ◌≡◌, refl, sym, ap, ap₂, not, ◌&&◌, ◌==◌, ◌∙◌, subst, Bool, true,
  false, ◌||◌, none, some, ltb, leb, if_no, if◌then◌else◌, arith,
}
use pglinux.Word.{u64}
use pglinux.Ram.{Memory}
use pglinux.Virtio.{VirtioDev}
use pglinux.Cpu.{Cpu}
use pglinux.Exec.{FpResult}
use pglinux.Step.{rv64_step}
use pglinux.Run.{
  exit_debug_halt, Debug, Run, Turn, again, leave, run_interval, hit_break, check_run, halted_turn,
  stepped, step_turn, run_turn, run_reason, loop, start_run, ended, rv64_run,
}

module _ (net_poll : VirtioDev → Memory → VirtioDev × Memory) (now_ns : ℕ → ℕ) (boot : ℕ)
    (net_process : VirtioDev → ℕ → Memory → ℕ → VirtioDev × Memory)
    (fp_exec : Cpu → ℕ → FpResult × Cpu) where
  module _ (r : Run) (fixed : rv64_step net_process fp_exec r.cpu ≡ r.cpu)
      (running : r.cpu.halted ≡ false) (quiet : r.cpu.pending_irq_check ≡ false)
      (early : r.cpu.cycle < r.next_check) (no_break : r.debug.break_active ≡ false)
      (no_halt : r.debug.debug_halt ≡ false) (no_error : r.debug.error ≡ false) where
    no_check : check_run net_poll now_ns boot r ≡ (false, r)
    unfolding check_run
    no_check =
        if_no (r.cpu.pending_irq_check || leb r.next_check r.cpu.cycle) _ _
          (ground (arith, quiet, early))

    same_debug : hit_break r.cpu r.debug ≡ r.debug
    unfolding hit_break
    same_debug =
        if_no
          (not r.cpu.halted
            && r.debug.break_active
            && r.cpu.pc == r.debug.break_pc
            && r.debug.break_halt)
          _ _ (ground (arith, no_break))

    same_step : step_turn net_poll now_ns boot net_process fp_exec r ≡ again r
    unfolding step_turn stepped
    same_step =
        ap₂
          (λ (d : Cpu) (g : Debug).
            if g.debug_halt && g.break_halt
            then leave exit_debug_halt (record r { cpu = d; debug = g })
            else again (record r { cpu = d; debug = record g { debug_halt = false } }))
          fixed same_debug
        ∙ if_no (r.debug.debug_halt && r.debug.break_halt) _ _ (ground (arith, no_halt))
        ∙ ap (λ (b : Bool). again (record r { debug = record r.debug { debug_halt = b } }))
            (sym no_halt)

    same_turn :
        (fuel max : ℕ)
        → run_turn net_poll now_ns boot net_process fp_exec fuel max r ≡ some (again r)
    unfolding run_turn
    same_turn fuel max =
        subst
          (λ (t : Bool × Run).
            (if t.0
              then some (again t.1)
              else if t.1.cpu.halted
              then halted_turn net_poll now_ns boot fuel run_interval max t.1
              else some (step_turn net_poll now_ns boot net_process fp_exec t.1))
            ≡ some (again r))
          (sym no_check) (if_no r.cpu.halted _ _ running ∙ ap (λ (u : Turn). some u) same_step)

    loop-stuck :
        (fuel max : ℕ)
        → r.cpu.cycle < max
        → loop net_poll now_ns boot net_process fp_exec
            (run_turn net_poll now_ns boot net_process fp_exec)
            (run_reason net_poll now_ns boot net_process fp_exec)
            fuel
            max
            r
          ≡ none
    unfolding loop
    loop-stuck zero max h = refl
    loop-stuck (suc fuel) max h =
        let go : (ltb r.cpu.cycle max && not r.debug.error) ≡ true = ground (arith, h, no_error) in
        rw (loop, go, same_turn fuel max) (loop-stuck fuel max h)

  -- Without the JIT, a machine that a step leaves as it is, awake, with no check for interrupts asked
  -- for, no error, no breakpoint armed and no halt of the debugger, never leaves `rv64_run`: no number
  -- of turns spends its budget, however small, where the budget is not 0 and the counter wraps neither
  -- over the budget nor over one check interval.
  pub rv64_run_stuck :
      (jit_exec : Cpu → ℕ × Cpu) (fuel : ℕ) (c : Cpu) (d : Debug) (n : ℕ)
      → d.jit_enabled ≡ false
      → rv64_step net_process fp_exec c ≡ c
      → c.halted ≡ false
      → c.pending_irq_check ≡ false
      → d.error ≡ false
      → d.break_active ≡ false
      → d.debug_halt ≡ false
      → 0 < n
      → c.cycle + n < 2 ^ 64
      → c.cycle + run_interval < 2 ^ 64
      → rv64_run net_poll now_ns boot net_process fp_exec jit_exec fuel c d n ≡ none
  unfolding rv64_run
  rv64_run_stuck jit_exec fuel c d n off fixed running quiet no_error no_break no_halt some_budget h
        g =
      let r = start_run net_poll now_ns boot net_process fp_exec run_interval c d in
      if_no d.jit_enabled _ _ off
      ∙ ap (ended net_poll now_ns boot net_process fp_exec c) (
          loop-stuck r fixed running quiet (omega (arith, g)) no_break no_halt no_error fuel
            (u64 (c.cycle + n)) (omega (arith, some_budget, h)))
