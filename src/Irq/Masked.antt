-- ===== src/Irq/Masked.antt =====
-- extension/rv64_cpu.c: interrupts with MIE clear in machine mode.
use pglinux.Base.{ℕ, ◌≡◌, refl, ◌∙◌, if_both, Bool, true, false, ◌&&◌, ◌||◌, not, ◌==◌, ap, ◌%◌}
use pglinux.Word.{nonzero, ◌&&&◌, ◌>>>◌}
use pglinux.Ram.{Memory}
use pglinux.Virtio.{VirtioDev}
use pglinux.Cpu.{Cpu}
use pglinux.Base.{List, [], ◌∷◌}
use pglinux.Irq.{IrqLine, irqs, mask, takes, deliver, refresh, check_interrupts}

takes_masked :
    (c : Cpu) (l : IrqLine)
    → c.priv ≡ 3
    → nonzero (c.mstatus >>> 3 &&& 1) ≡ false
    → takes c l ≡ false
unfolding takes
takes_masked c l p m = rw (p, m) (finish l.to_m (nonzero (c.mideleg &&& mask l)))
  where
    finish : (a b : Bool) → ((a && not b && false) || (b && false)) ≡ false
    finish true true = refl
    finish true false = refl
    finish false true = refl
    finish false false = refl

and_false : (a b : Bool) → b ≡ false → (a && b) ≡ false
and_false true b h = h
and_false false b h = refl

deliver_masked :
    (c : Cpu) (pending : ℕ) (ls : List IrqLine)
    → c.priv ≡ 3
    → nonzero (c.mstatus >>> 3 &&& 1) ≡ false
    → deliver c pending ls ≡ (false, c)
unfolding deliver
deliver_masked c pending [] p m = refl
deliver_masked c pending (l ∷ ls) p m =
    rw (and_false (nonzero (pending &&& mask l)) (takes c l) (takes_masked c l p m))
      (deliver_masked c pending ls p m)

-- The updates keep the registers that decide.
pub hart-refresh :
    (net_poll : VirtioDev → Memory → VirtioDev × Memory) (c : Cpu)
    → ((refresh net_poll c).priv ≡ c.priv) × ((refresh net_poll c).mstatus ≡ c.mstatus)
unfolding refresh
hart-refresh net_poll c = (
  if_both (λ (d : Cpu). d.priv ≡ c.priv) (c.cycle % 100000 == 0) refl refl,
  if_both (λ (d : Cpu). d.mstatus ≡ c.mstatus) (c.cycle % 100000 == 0) refl refl,
)

-- In machine mode with MIE clear no interrupt is taken, whatever is pending, enabled or delegated.
pub check_interrupts_masked :
    (net_poll : VirtioDev → Memory → VirtioDev × Memory) (c : Cpu)
    → c.priv ≡ 3
    → nonzero (c.mstatus >>> 3 &&& 1) ≡ false
    → check_interrupts net_poll c ≡ (false, refresh net_poll c)
unfolding check_interrupts
check_interrupts_masked net_poll c p m =
    let d = refresh net_poll c in
    let (same_priv, same_status) = hart-refresh net_poll c in
    if_both (λ (r : Bool × Cpu). r ≡ (false, d)) ((d.mip &&& d.mie) == 0) refl
      (deliver_masked d (d.mip &&& d.mie) irqs (same_priv ∙ p)
        (ap (λ (s : ℕ). nonzero (s >>> 3 &&& 1)) same_status ∙ m))
