-- ===== src/Cpu/Zero.antt =====
-- extension/rv64_cpu.c, the macro WR: x0 is zero.
use pglinux.Base.{ℕ, ◌≡◌, refl, ◌∙◌, ap}
use pglinux.Cpu.{Cpu, set_reg}

-- x0 reads as zero.
unfoldable pub ZeroX0 : Cpu → Type 0
ZeroX0 c = c.x 0 ≡ 0

pub set_reg-ZeroX0 : (c : Cpu) (rd val : ℕ) → ZeroX0 (set_reg c rd val)
unfolding ZeroX0 set_reg
set_reg-ZeroX0 c rd val = refl

pub same_x : (c d : Cpu) → d.x ≡ c.x → ZeroX0 c → ZeroX0 d
unfolding ZeroX0
same_x c d h z = ap (λ (x : ℕ → ℕ). x 0) h ∙ z
