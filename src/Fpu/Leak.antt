-- ===== src/Fpu/Leak.antt =====
-- extension/rv64_fpu.c: the instructions that write an integer register do it without WR. With the
-- register number 0 they leave their result in x0.
use pglinux.Base.{ℕ, ◌≡◌, ap, sym, ◌∙◌, Bool, true, false, ◌&&◌, ◌==◌, ==→ne, update_ne}
use pglinux.Ram.{Memory}
use pglinux.Virtio.{VirtioDev}
use pglinux.Cpu.{Cpu}
use pglinux.Cpu.Zero.{ZeroX0}
use pglinux.Decode.{rd}
use pglinux.Exec.{FpResult, fp_ok, fp_unimplemented, fp_trapped}
use pglinux.Fpu.{Host, fp_exec}
use pglinux.Fpu.Frame.{Frame, int_insn, fp_exec-Frame}

-- An integer result for x0.
unfoldable pub leaks : Host → ℕ → Bool
leaks host insn = int_insn host insn && rd insn == 0

module _ (host : Host) (insn : ℕ) where
  Z : Bool → FpResult × Cpu → Type 0
  Z b r = (b && rd insn == 0) ≡ false → ZeroX0 r.1

  -- The frame leaves x0 alone where there is no integer result for it.
  spares_x0 : (c : Cpu) (b : Bool) (r : FpResult × Cpu) → ZeroX0 c → Frame c (rd insn) b r → Z b r
  unfolding Frame Z ZeroX0
  spares_x0 c true (fp_ok, d) z k h =
      ap (λ (g : ℕ → ℕ). g 0) k.x
      ∙ update_ne c.x (rd insn) (d.x (rd insn)) 0 (λ e. ==→ne (rd insn) 0 h (sym e))
      ∙ z
  spares_x0 c false (fp_ok, d) z k h = ap (λ (g : ℕ → ℕ). g 0) k.x ∙ z
  spares_x0 c b (fp_unimplemented, d) z k h = ap (λ (e : Cpu). e.x 0) k ∙ z
  spares_x0 c b (fp_trapped, d) z k h = ap (λ (g : ℕ → ℕ). g 0) k.1 ∙ z

  pub fp_exec-ZeroX0 :
      (net_process : VirtioDev → ℕ → Memory → ℕ → VirtioDev × Memory) (c : Cpu)
      → leaks host insn ≡ false
      → ZeroX0 c
      → ZeroX0 (fp_exec host net_process c insn).1
  unfolding leaks Z
  fp_exec-ZeroX0 net_process c h z =
      spares_x0 c (int_insn host insn) (fp_exec host net_process c insn) z
        (fp_exec-Frame host net_process c insn) h
