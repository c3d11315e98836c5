-- ===== src/Fpu/Moves.antt =====
-- extension/rv64_fpu.c: moves between the two register files.
use pglinux.Base.{if_yes, if_no, ◌||◌, ℕ, ◌≡◌, refl, ap, ◌∙◌, ◌==◌, update_self}
use pglinux.Base.Int.{signed, pattern_of}
use pglinux.Ram.{Memory}
use pglinux.Virtio.{VirtioDev}
use pglinux.Cpu.{Cpu}
use pglinux.Decode.{opcode, rd, funct3, funct7, rs1}
use pglinux.Exec.{FpResult, fp_ok}
use pglinux.Fpu.{
  Host, mark_fs_dirty, put_f, put_x, box, extend32, writes_int, int_result, writes_single,
  single_result, fp_arith, fp_exec,
}
use pglinux.Fpu.Boxed.{u32-box}

module _ (host : Host) (net_process : VirtioDev → ℕ → Memory → ℕ → VirtioDev × Memory) where
  -- The state after an instruction.
  abbrev pub after : Cpu → ℕ → Cpu
  after c insn = (fp_exec host net_process c insn).1

  module _ (c : Cpu) (i : ℕ) (o : opcode i ≡ 0x53) where
    arith_case : fp_exec host net_process c i ≡ fp_arith host (mark_fs_dirty c) i
    unfolding fp_exec
    arith_case =
        if_no (opcode i == 0x07) _ _ (ap (λ n. n == 0x07) o)
        ∙ if_no (opcode i == 0x27) _ _ (ap (λ n. n == 0x27) o)
        ∙ if_no (opcode i == 0x43 || opcode i == 0x47 || opcode i == 0x4B || opcode i == 0x4F) _ _
            (ap (λ n. n == 0x43 || n == 0x47 || n == 0x4B || n == 0x4F) o)
        ∙ if_yes (opcode i == 0x53) _ _ (ap (λ n. n == 0x53) o)

    -- FMV.W.X and FMV.X.W.
    fmv-w-x : funct7 i ≡ 0x78 → (after c i).f (rd i) ≡ box (c.x (rs1 i))
    unfolding fp_arith writes_int writes_single single_result
    fmv-w-x f =
        ap (λ (r : FpResult × Cpu). r.1.f (rd i)) (arith_case ∙ opened)
        ∙ update_self c.f (rd i) (box (c.x (rs1 i)))
      where
        opened :
            fp_arith host (mark_fs_dirty c) i
            ≡ (fp_ok, put_f (mark_fs_dirty c) (rd i) (box (c.x (rs1 i))))
        opened = rw (f) refl

    fmv-x-w : funct7 i ≡ 0x70 → funct3 i ≡ 0 → (after c i).x (rd i) ≡ extend32 (c.f (rs1 i))
    unfolding fp_arith writes_int int_result
    fmv-x-w f t =
        ap (λ (r : FpResult × Cpu). r.1.x (rd i)) (arith_case ∙ opened)
        ∙ update_self c.x (rd i) (extend32 (c.f (rs1 i)))
      where
        opened :
            fp_arith host (mark_fs_dirty c) i
            ≡ (fp_ok, put_x (mark_fs_dirty c) (rd i) (extend32 (c.f (rs1 i))))
        opened = rw (f, t) refl

  -- FMV.W.X into a register followed by FMV.X.W from it gives the low 32 bits of the source with
  -- their sign extended, in every register, x0 included.
  pub fmv_single :
      (c : Cpu) (i j : ℕ)
      → opcode i ≡ 0x53
      → funct7 i ≡ 0x78
      → opcode j ≡ 0x53
      → funct7 j ≡ 0x70
      → funct3 j ≡ 0
      → rs1 j ≡ rd i
      → (after (after c i) j).x (rd j) ≡ extend32 (c.x (rs1 i))
  fmv_single c i j o f o' f' t e =
      fmv-x-w (after c i) j o' f' t
      ∙ ap (λ r. extend32 ((after c i).f r)) e
      ∙ ap (λ r. extend32 r) (fmv-w-x c i o f)
      ∙ ap (λ (n : ℕ). pattern_of 64 (signed 32 n)) (u32-box (c.x (rs1 i)))
