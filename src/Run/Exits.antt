-- ===== src/Run/Exits.antt =====
-- extension/rv64_cpu.c: the reasons that the run loops return.
use pglinux.Base.{
  ℕ, zero, suc, ◌+◌, ◌≤◌, ◌≡◌, subst, true, false, not, ◌&&◌, Option, none, some, ◌==◌,
  if◌then◌else◌, ltb, inl, inr, Bool-cases, if_both, if_split, arith,
}
use pglinux.Word.{u64, nonzero, ◌&&&◌}
use pglinux.Ram.{Memory}
use pglinux.Virtio.{VirtioDev}
use pglinux.Cpu.{Cpu}
use pglinux.Exec.{FpResult}
use pglinux.Run.{
  ExitReason, budget, exit_error, exit_debug_halt, wfi_timeout, Debug, hit_break, stepped,
  step_turn, run_reason, jit_reason, ended, Run, Turn, again, leave, run_interval, jit_interval,
  check_run, check_jit, wait, wfi_loop, halted_turn, run_turn, jit_turn, loop, start_run, rv64_run,
  rv64_run_jit,
}
use Prim.{Unit, tt}

-- The state at an exit: the budget `max` is spent with no error, a timeout leaves the hart waiting
-- with the budget spent, and the other reasons leave their flag.
unfoldable pub Exited : ℕ → ExitReason → Cpu → Debug → Type 0
Exited max budget c d = (max ≤ c.cycle) × (d.error ≡ false)
Exited max exit_error c d = d.error ≡ true
Exited max exit_debug_halt c d = d.debug_halt ≡ true
Exited max wfi_timeout c d = (max ≤ c.cycle) × (c.halted ≡ true)

-- A wait that returned, a turn that left the loop, a loop that returned.
Waited : ℕ → Option Run → Type 0
Waited max none = Unit
Waited max (some r) = r.cpu.halted ≡ true → max ≤ r.cpu.cycle

Left : ℕ → Option Turn → Type 0
Left max none = Unit
Left max (some (again r)) = Unit
Left max (some (leave e r)) = Exited max e r.cpu r.debug

Ended : ℕ → Option (ExitReason × Run) → Type 0
Ended max none = Unit
Ended max (some (e, r)) = Exited max e r.cpu r.debug

module _ (net_poll : VirtioDev → Memory → VirtioDev × Memory) (now_ns : ℕ → ℕ) (boot : ℕ) where
  wfi_loop-Waited :
      (fuel interval max : ℕ) (r : Run)
      → Waited max (wfi_loop net_poll now_ns boot fuel interval max r)
  unfolding wfi_loop Waited
  wfi_loop-Waited zero interval max r = tt
  wfi_loop-Waited (suc fuel) interval max r =
      elim (Bool-cases (r.cpu.halted && ltb r.cpu.cycle max)) [
        | inr stop ↦ rw (wfi_loop, stop) (λ (up : r.cpu.halted ≡ true). ground (arith, stop, up))
        | inl go ↦
            rw (wfi_loop, go)
              (after (r1.cpu.mip &&& r1.cpu.mie) (wfi_loop-Waited fuel interval max r1))
      ]
    where
      r1 : Run
      r1 = wait net_poll now_ns boot interval r

      after :
          (k : ℕ)
          → Waited max (wfi_loop net_poll now_ns boot fuel interval max r1)
          → Waited max (elim k [
            | zero ↦ wfi_loop net_poll now_ns boot fuel interval max r1
            | suc _ ↦ some (record r1 { cpu = record r1.cpu { halted = false } })
          ])
      after zero h = h
      after (suc k) h = λ up. absurd (ground (arith, up))

  halted_turn-Left :
      (fuel interval max : ℕ) (r : Run)
      → Left max (halted_turn net_poll now_ns boot fuel interval max r)
  unfolding halted_turn Left Waited Exited
  halted_turn-Left fuel interval max r = if_both (Left max) (r.cpu.mie == 0) tt (
      after (wfi_loop net_poll now_ns boot fuel interval max r)
        (wfi_loop-Waited fuel interval max r))
    where
      after :
          (o : Option Run)
          → Waited max o
          → Left max (elim o [
            | none ↦ none
            | some r1 ↦ if r1.cpu.halted then some (leave wfi_timeout r1) else some (again r1)
          ])
      after none h = tt
      after (some r1) h = if_split (Left max) r1.cpu.halted (λ up. (h up, up)) λ down. tt

  module _ (net_process : VirtioDev → ℕ → Memory → ℕ → VirtioDev × Memory)
      (fp_exec : Cpu → ℕ → FpResult × Cpu) where
    step_turn-Left :
        (max : ℕ) (r : Run) → Left max (some (step_turn net_poll now_ns boot net_process fp_exec r))
    unfolding step_turn stepped Left Exited
    step_turn-Left max r =
        let d = hit_break r.cpu r.debug in
        if_split (λ (u : Turn). Left max (some u)) (d.debug_halt && d.break_halt)
          (λ both. ground (arith, both)) λ none. tt

    run_turn-Left :
        (fuel max : ℕ) (r : Run)
        → Left max (run_turn net_poll now_ns boot net_process fp_exec fuel max r)
    unfolding run_turn Left
    run_turn-Left fuel max r =
        let got = check_run net_poll now_ns boot r in
        if_both (Left max) got.0 tt (
          if_both (Left max) got.1.cpu.halted (halted_turn-Left fuel run_interval max got.1)
            (step_turn-Left max got.1))

    jit_turn-Left :
        (jit_exec : Cpu → ℕ × Cpu) (fuel max : ℕ) (r : Run)
        → Left max (jit_turn net_poll now_ns boot net_process fp_exec jit_exec fuel max r)
    unfolding jit_turn Left
    jit_turn-Left jit_exec fuel max r =
        let got = check_jit net_poll now_ns boot r in
        let ran =
          if nonzero (got.1.cpu.mip &&& got.1.cpu.mie)
          then (0, got.1.cpu)
          else jit_exec got.1.cpu in
        if_both (Left max) got.0 tt (
          if_both (Left max) got.1.cpu.halted (halted_turn-Left fuel jit_interval max got.1) (
            if_both (Left max) (ran.0 == 0) (step_turn-Left max (record got.1 { cpu = ran.1 })) tt))

    -- The reasons of a loop that was not left by a `break`.
    abbrev Fair : (Debug → ExitReason) → Type 0
    Fair reason =
        (max : ℕ) (c : Cpu) (d : Debug)
        → (ltb c.cycle max && not d.error) ≡ false
        → Exited max (reason d) c d

    run_reason-Exited : Fair (run_reason net_poll now_ns boot net_process fp_exec)
    unfolding run_reason Exited
    run_reason-Exited max c d stop =
        let P = λ (e : ExitReason). Exited max e c d in
        if_split P d.debug_halt (λ halt. halt)
          λ on. if_split P d.error (λ error. error) λ fine. (ground (arith, stop, fine), fine)

    jit_reason-Exited : Fair (jit_reason net_poll now_ns boot net_process fp_exec)
    unfolding jit_reason Exited
    jit_reason-Exited max c d stop =
        if_split (λ (e : ExitReason). Exited max e c d) d.error (λ error. error)
          λ fine. (ground (arith, stop, fine), fine)

    module _ (turn : ℕ → ℕ → Run → Option Turn) (reason : Debug → ExitReason)
        (fair : (fuel max : ℕ) (r : Run) → Left max (turn fuel max r)) (known : Fair reason) where
      loop-Ended :
          (fuel max : ℕ) (r : Run)
          → Ended max (loop net_poll now_ns boot net_process fp_exec turn reason fuel max r)
      unfolding loop Ended Left
      loop-Ended zero max r = tt
      loop-Ended (suc fuel) max r = elim (Bool-cases (ltb r.cpu.cycle max && not r.debug.error)) [
        | inr stop ↦ rw (loop, stop) (known max r.cpu r.debug stop)
        | inl go ↦
            rw (loop, go) (after (turn fuel max r) (fair fuel max r) λ r1. loop-Ended fuel max r1)
      ]
        where
          after :
              (o : Option Turn)
              → Left max o
              → ((r1 : Run)
                  → Ended max
                      (loop net_poll now_ns boot net_process fp_exec turn reason fuel max r1))
              → Ended max (elim o [
                | none ↦ none
                | some t ↦ elim t [
                  | again r1 ↦ loop net_poll now_ns boot net_process fp_exec turn reason fuel max r1
                  | leave e r1 ↦ some (e, r1)
                ]
              ])
          after none h more = tt
          after (some (again r1)) h more = more r1
          after (some (leave e r1)) h more = h

    -- A return of a run loop, as `Exited` states it.
    Returned : ℕ → Option (ExitReason × ℕ × Cpu × Debug) → Type 0
    Returned max none = Unit
    Returned max (some (e, spent, c, d)) = Exited max e c d

    close :
        (c : Cpu) (max : ℕ) (o : Option (ExitReason × Run))
        → Ended max o
        → Returned max (ended net_poll now_ns boot net_process fp_exec c o)
    unfolding Returned Ended
    close c max none h = tt
    close c max (some (e, r)) h = h

    -- `rv64_run`, on the JIT's loop where it is on, returns for four reasons: the budget, the sum of the
    -- cycle counter and `n` on 64 bits, is spent and there is no error; there is an error; the debugger
    -- asked for a halt; or the hart waits with the budget spent.
    pub rv64_run_exits :
        (jit_exec : Cpu → ℕ × Cpu) (fuel : ℕ) (c : Cpu) (d : Debug) (n : ℕ) (e : ExitReason)
        (spent : ℕ) (c' : Cpu) (d' : Debug)
        → rv64_run net_poll now_ns boot net_process fp_exec jit_exec fuel c d n
          ≡ some (e, spent, c', d')
        → Exited (u64 (c.cycle + n)) e c' d'
    unfolding rv64_run rv64_run_jit Returned
    rv64_run_exits jit_exec fuel c d n e spent c' d' h =
        let max = u64 (c.cycle + n) in
        subst (Returned max) h (
          if_both (Returned max) d.jit_enabled
            (close c max _ (
              loop-Ended (jit_turn net_poll now_ns boot net_process fp_exec jit_exec)
                (jit_reason net_poll now_ns boot net_process fp_exec) (jit_turn-Left jit_exec)
                jit_reason-Exited fuel max
                (start_run net_poll now_ns boot net_process fp_exec jit_interval c d)))
            (close c max _ (
              loop-Ended (run_turn net_poll now_ns boot net_process fp_exec)
                (run_reason net_poll now_ns boot net_process fp_exec) run_turn-Left
                run_reason-Exited fuel max
                (start_run net_poll now_ns boot net_process fp_exec run_interval c d))))
