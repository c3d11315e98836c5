-- ===== src/Run/Wfi.antt =====
-- extension/rv64_cpu.c: the wait of a halted hart ends.
use native.Mathlib.Nat.{suc-mul}
use pglinux.Irq.Cycle.{cycle-check_interrupts}
use pglinux.Base.{
  ℕ, zero, suc, ◌+◌, ◌*◌, ◌^◌, ◌≤◌, ◌<◌, ◌≡◌, refl, true, false, ◌&&◌, Option, none, some, ltb, ◌⊎◌,
  inl, inr, Bool-cases, arith,
}
use pglinux.Word.{u64, ◌&&&◌}
use pglinux.Ram.{Memory}
use pglinux.Virtio.{VirtioDev}
use pglinux.Run.{Run, set_mtime, wait, wfi_loop}

-- The wait ended, with the hart awake or the budget spent.
unfoldable pub WfiDone : ℕ → Option Run → Type 0
WfiDone max none = ⊥
WfiDone max (some r) = (r.cpu.halted ≡ false) ⊎ (max ≤ r.cpu.cycle)

module _ (net_poll : VirtioDev → Memory → VirtioDev × Memory) (now_ns : ℕ → ℕ) (boot : ℕ) where
  cycle-wait :
      (interval : ℕ) (r : Run)
      → (wait net_poll now_ns boot interval r).cpu.cycle ≡ u64 (r.cpu.cycle + interval)
  unfolding wait set_mtime
  cycle-wait interval r = cycle-check_interrupts net_poll _

  stops :
      (max : ℕ) (r : Run) (h : (r.cpu.halted && ltb r.cpu.cycle max) ≡ false) → WfiDone max (some r)
  unfolding WfiDone
  stops max r h = elim (Bool-cases r.cpu.halted) [
    | inl up ↦ inr (ground (arith, h, up))
    | inr down ↦ inl down
  ]

  woken :
      (max : ℕ) (r : Run) → WfiDone max (some (record r { cpu = record r.cpu { halted = false } }))
  unfolding WfiDone
  woken max r = inl refl

  -- Fuel for one turn more than the intervals that fit into what is left of the budget is enough:
  -- the wait ends, with the hart awake or the budget spent, where the end of the budget and one
  -- interval more are at most 2 ^ 64.
  pub wfi_loop_ends :
      (fuel interval max : ℕ) (r : Run)
      → max + interval ≤ 2 ^ 64
      → max ≤ r.cpu.cycle + fuel * interval
      → WfiDone max (wfi_loop net_poll now_ns boot (suc fuel) interval max r)
  unfolding wfi_loop
  wfi_loop_ends zero interval max r fits enough = rw (wfi_loop, spent) (stops max r spent)
    where
      spent : (r.cpu.halted && ltb r.cpu.cycle max) ≡ false
      spent = ground (arith, enough)
  wfi_loop_ends (suc fuel) interval max r fits enough =
      elim (Bool-cases (r.cpu.halted && ltb r.cpu.cycle max)) [
        | inr stop ↦ rw (wfi_loop, stop) (stops max r stop)
        | inl go ↦
            rw (wfi_loop, go)
              (after (r1.cpu.mip &&& r1.cpu.mie)
                (wfi_loop_ends fuel interval max r1 fits (more go)))
      ]
    where
      r1 : Run
      r1 = wait net_poll now_ns boot interval r

      more : (r.cpu.halted && ltb r.cpu.cycle max) ≡ true → max ≤ r1.cpu.cycle + fuel * interval
      more go =
          let below : r.cpu.cycle < max = ground (arith, go) in
          omega (arith, cycle-wait interval r, suc-mul fuel interval, enough, fits, below)

      after :
          (k : ℕ)
          → WfiDone max (wfi_loop net_poll now_ns boot (suc fuel) interval max r1)
          → WfiDone max (elim k [
            | zero ↦ wfi_loop net_poll now_ns boot (suc fuel) interval max r1
            | suc _ ↦ some (record r1 { cpu = record r1.cpu { halted = false } })
          ])
      after zero h = h
      after (suc k) h = woken max r1
