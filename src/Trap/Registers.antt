-- ===== src/Trap/Registers.antt =====
-- extension/rv64_cpu.c: traps and returns keep the integer registers.
use pglinux.Base.{ℕ, ◌≡◌, refl, if_both}
use pglinux.Cpu.{Cpu}
use pglinux.Trap.{trap, mret, sret, delegated}

pub x-trap : (c : Cpu) (cause tval : ℕ) → (trap c cause tval).x ≡ c.x
unfolding trap
x-trap c cause tval = if_both (λ (d : Cpu). d.x ≡ c.x) (delegated c cause) refl refl

pub x-mret : (c : Cpu) → (mret c).0.x ≡ c.x
unfolding mret
x-mret c = refl

pub x-sret : (c : Cpu) → (sret c).0.x ≡ c.x
unfolding sret
x-sret c = refl

-- And the floating-point registers.
pub f-trap : (c : Cpu) (cause tval : ℕ) → (trap c cause tval).f ≡ c.f
unfolding trap
f-trap c cause tval = if_both (λ (d : Cpu). d.f ≡ c.f) (delegated c cause) refl refl
