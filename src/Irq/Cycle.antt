-- ===== src/Irq/Cycle.antt =====
-- extension/rv64_cpu.c: the check for interrupts keeps the cycle counter.
use pglinux.Base.{ℕ, ◌%◌, ◌≡◌, refl, ◌∙◌, Bool, ◌&&◌, ◌==◌, if_both, List, [], ◌∷◌}
use pglinux.Word.{nonzero, ◌&&&◌}
use pglinux.Ram.{Memory}
use pglinux.Virtio.{VirtioDev}
use pglinux.Cpu.{Cpu}
use pglinux.Irq.{IrqLine, irqs, mask, cause, takes, deliver, refresh, check_interrupts}
use pglinux.Trap.{trap, delegated}

cycle-trap : (c : Cpu) (cause tval : ℕ) → (trap c cause tval).cycle ≡ c.cycle
unfolding trap
cycle-trap c cause tval = if_both (λ (d : Cpu). d.cycle ≡ c.cycle) (delegated c cause) refl refl

cycle-deliver :
    (c : Cpu) (pending : ℕ) (ls : List IrqLine) → (deliver c pending ls).1.cycle ≡ c.cycle
unfolding deliver
cycle-deliver c pending [] = refl
cycle-deliver c pending (l ∷ ls) =
    if_both (λ (r : Bool × Cpu). r.1.cycle ≡ c.cycle) (nonzero (pending &&& mask l) && takes c l)
      (cycle-trap c (cause l) 0) (cycle-deliver c pending ls)

module _ (net_poll : VirtioDev → Memory → VirtioDev × Memory) where
  pub cycle-check_interrupts : (c : Cpu) → (check_interrupts net_poll c).1.cycle ≡ c.cycle
  unfolding check_interrupts refresh
  cycle-check_interrupts c =
      let c1 = refresh net_poll c in
      let same : c1.cycle ≡ c.cycle =
        if_both (λ (d : Cpu). d.cycle ≡ c.cycle) (c.cycle % 100000 == 0) refl refl in
      if_both (λ (r : Bool × Cpu). r.1.cycle ≡ c.cycle) ((c1.mip &&& c1.mie) == 0) same
        (cycle-deliver c1 (c1.mip &&& c1.mie) irqs ∙ same)
