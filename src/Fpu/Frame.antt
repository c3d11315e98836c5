-- ===== src/Fpu/Frame.antt =====
-- extension/rv64_fpu.c: what a floating-point instruction leaves alone.
use pglinux.Base.{
  ℕ, ◌+◌, ◌≡◌, refl, sym, ap, ◌∙◌, subst, Bool, true, false, Bool-cases, inl, inr, ◌==◌, ==→eq,
  ◌||◌, if◌then◌else◌, if_both, if_both₂, if_same, match_option, update, update_self, fun_ext,
}
use pglinux.Word.{u64, ◌&&&◌, ◌|||◌, ◌<<<◌, ◌>>>◌}
use pglinux.Ram.{Memory}
use pglinux.Virtio.{VirtioDev}
use pglinux.Cpu.{Cpu, Access}
use pglinux.Cpu.Hart.{Hart, hart}
use pglinux.Mem.{cpu_load, cpu_store}
use pglinux.Mem.Keeps.{match_Loaded, hart-cpu_load, hart-cpu_store}
use pglinux.Trap.{trap}
use pglinux.Trap.Registers.{x-trap, f-trap}
use pglinux.Decode.{opcode, rd, funct3, rs1, funct7, imm_i, imm_s}
use pglinux.Exec.{FpResult, fp_ok, fp_unimplemented, fp_trapped}
use pglinux.Fpu.{
  Host, mark_fs_dirty, put_f, put_x, box, writes_int, int_result, writes_single, write_s, write_x,
  write_f, single_result, double_result, fp_arith, fp_fused, fp_load, fp_store, fp_exec,
}

-- Writing a value once more, and writing back what is there.
update_again : (f : ℕ → ℕ) (i v : ℕ) → update f i v ≡ update f i (update f i v i)
update_again f i v = ap (update f i) (sym (update_self f i v))

update_back : (f : ℕ → ℕ) (i : ℕ) → f ≡ update f i (f i)
update_back f i = fun_ext λ j. elim (Bool-cases (j == i)) [
  | inl e ↦ ap f (==→eq j i e) ∙ sym (ap (λ (b : Bool). if b then f i else f j) e)
  | inr e ↦ sym (ap (λ (b : Bool). if b then f i else f j) e)
]

-- The registers after a write to a file that had those of `g`.
update_over : (f g : ℕ → ℕ) (i v : ℕ) → f ≡ g → update f i v ≡ update g i (update f i v i)
update_over f g i v e = update_again f i v ∙ ap (λ (h : ℕ → ℕ). update h i (update f i v i)) e

unchanged : (f g : ℕ → ℕ) (i : ℕ) → f ≡ g → f ≡ update g i (f i)
unchanged f g i e = update_back f i ∙ ap (λ (h : ℕ → ℕ). update h i (f i)) e

-- The instructions with an integer result.
unfoldable pub int_insn : Host → ℕ → Bool
int_insn host insn =
    let op = opcode insn in
    if op == 0x07
    then false
    else if op == 0x27
    then false
    else if op == 0x43 || op == 0x47 || op == 0x4B || op == 0x4F
    then false
    else if op == 0x53
    then writes_int host (funct7 insn)
    else false

-- A finished instruction moved only register `rd` of one of the two files, the integers' if `int`:
-- the pc and the privilege are those of `c`, and mstatus is that of `c` with FS dirty.
pub record Finished (c : Cpu) (rd : ℕ) (int : Bool) (d : Cpu) : Type 0 where
  pub pc : d.pc ≡ c.pc
  pub priv : d.priv ≡ c.priv
  pub mstatus : d.mstatus ≡ c.mstatus ||| (3 <<< 13)
  pub f : d.f ≡ (if int then c.f else update c.f rd (d.f rd))
  pub x : d.x ≡ (if int then update c.x rd (d.x rd) else c.x)

-- An instruction that is not implemented left everything but the dirty mark, and a fault left both
-- register files.
unfoldable pub Frame : Cpu → ℕ → Bool → FpResult × Cpu → Type 0
Frame c rd int (fp_ok, d) = Finished c rd int d
Frame c rd int (fp_unimplemented, d) = d ≡ mark_fs_dirty c
Frame c rd int (fp_trapped, d) = (d.f ≡ c.f) × (d.x ≡ c.x)

module _ (c : Cpu) (insn : ℕ) where
  P : Bool → FpResult × Cpu → Type 0
  P = Frame c (rd insn)

  not_implemented : (int : Bool) → P int (fp_unimplemented, mark_fs_dirty c)
  unfolding P Frame
  not_implemented int = refl

  wrote_f : (v : ℕ) → P false (fp_ok, put_f (mark_fs_dirty c) (rd insn) v)
  unfolding P Frame
  wrote_f v = record {
    pc = refl;
    priv = refl;
    mstatus = refl;
    f = update_again c.f (rd insn) v;
    x = refl;
  }

  wrote_x : (v : ℕ) → P true (fp_ok, put_x (mark_fs_dirty c) (rd insn) v)
  unfolding P Frame
  wrote_x v = record {
    pc = refl;
    priv = refl;
    mstatus = refl;
    f = refl;
    x = update_again c.x (rd insn) v;
  }

  -- After a memory access, which keeps the registers of the hart.
  module _ (d : Cpu) (same : hart d ≡ hart (mark_fs_dirty c)) where
    faulted : (e addr : ℕ) → P false (fp_trapped, trap d e addr)
    unfolding P Frame
    faulted e addr = (
      f-trap d e addr ∙ ap (λ (h : Hart). h.f) same,
      x-trap d e addr ∙ ap (λ (h : Hart). h.x) same,
    )

    loaded_f : (v : ℕ) → P false (fp_ok, put_f d (rd insn) v)
    unfolding P Frame
    loaded_f v = record {
      pc = ap (λ (h : Hart). h.pc) same;
      priv = ap (λ (h : Hart). h.priv) same;
      mstatus = ap (λ (h : Hart). h.mstatus) same;
      f = update_over d.f c.f (rd insn) v (ap (λ (h : Hart). h.f) same);
      x = ap (λ (h : Hart). h.x) same;
    }

    stored : P false (fp_ok, d)
    unfolding P Frame
    stored = record {
      pc = ap (λ (h : Hart). h.pc) same;
      priv = ap (λ (h : Hart). h.priv) same;
      mstatus = ap (λ (h : Hart). h.mstatus) same;
      f = unchanged d.f c.f (rd insn) (ap (λ (h : Hart). h.f) same);
      x = ap (λ (h : Hart). h.x) same;
    }

  module _ (host : Host) where
    arith-Frame : P (writes_int host (funct7 insn)) (fp_arith host (mark_fs_dirty c) insn)
    unfolding fp_arith
    arith-Frame =
        let c1 = mark_fs_dirty c in
        subst
          (λ b. P b (
            if writes_int host (funct7 insn)
            then write_x c1 (rd insn) (int_result host c1 insn)
            else if writes_single host (funct7 insn)
            then write_s host c1 (rd insn) (single_result host c1 insn)
            else write_f c1 (rd insn) (double_result host c1 insn)))
          (if_same (writes_int host (funct7 insn)))
          (if_both₂ P (writes_int host (funct7 insn))
            (match_option (P true) (int_result host c1 insn) (not_implemented true) wrote_x)
            (if_both (P false) (writes_single host (funct7 insn))
              (match_option (P false) (single_result host c1 insn) (not_implemented false)
                λ v. wrote_f (box v))
              (match_option (P false) (double_result host c1 insn) (not_implemented false)
                wrote_f)))

    fused-Frame : P false (fp_fused host (mark_fs_dirty c) insn)
    unfolding fp_fused
    fused-Frame =
        let fmt = insn >>> 25 &&& 0x3 in
        if_both (P false) (fmt == 0) (wrote_f _)
          (if_both (P false) (fmt == 1) (wrote_f _) (not_implemented false))

    module _ (net_process : VirtioDev → ℕ → Memory → ℕ → VirtioDev × Memory) where
      load-Frame : P false (fp_load host net_process (mark_fs_dirty c) insn)
      unfolding fp_load
      load-Frame =
          let c1 = mark_fs_dirty c in
          let addr = u64 (c.x (rs1 insn) + imm_i insn) in
          let loaded = λ (size : ℕ) (k : ℕ → ℕ).
            let got = cpu_load net_process c1 addr size Access.read in
            let same = hart-cpu_load net_process c1 addr size Access.read in
            match_Loaded (P false) got.0 {f = λ e. (fp_trapped, trap got.1 e addr)}
              {g = λ v. (fp_ok, put_f got.1 (rd insn) (k v))} (λ e. faulted got.1 same e addr)
              λ v. loaded_f got.1 same (k v) in
          if_both (P false) (funct3 insn == 2) (loaded 4 box)
            (if_both (P false) (funct3 insn == 3) (loaded 8 λ v. v) (not_implemented false))

      store-Frame : P false (fp_store host net_process (mark_fs_dirty c) insn)
      unfolding fp_store
      store-Frame =
          let c1 = mark_fs_dirty c in
          let addr = u64 (c.x (rs1 insn) + imm_s insn) in
          let done = λ (size v : ℕ).
            let put = cpu_store net_process c1 addr size v in
            let same = hart-cpu_store net_process c1 addr size v in
            match_option (P false) put.0 {n = (fp_ok, put.1)}
              {s = λ e. (fp_trapped, trap put.1 e addr)} (stored put.1 same)
              λ e. faulted put.1 same e addr in
          if_both (P false) (funct3 insn == 2) (done 4 _)
            (if_both (P false) (funct3 insn == 3) (done 8 _) (not_implemented false))

      exec-P : P (int_insn host insn) (fp_exec host net_process c insn)
      unfolding fp_exec int_insn
      exec-P =
          let op = opcode insn in
          if_both₂ P (op == 0x07) load-Frame (
            if_both₂ P (op == 0x27) store-Frame (
              if_both₂ P (op == 0x43 || op == 0x47 || op == 0x4B || op == 0x4F) fused-Frame
                (if_both₂ P (op == 0x53) arith-Frame (not_implemented false))))

module _ (host : Host) (net_process : VirtioDev → ℕ → Memory → ℕ → VirtioDev × Memory) where
  -- A floating-point instruction that finishes changes register rd of one file and no other: the
  -- integers' if it has an integer result. It keeps the pc and the privilege and marks FS dirty. One
  -- that is not implemented changes nothing but that mark; one that faults keeps both files.
  pub fp_exec-Frame :
      (c : Cpu) (insn : ℕ)
      → Frame c (rd insn) (int_insn host insn) (fp_exec host net_process c insn)
  unfolding P
  fp_exec-Frame c insn = exec-P c insn host net_process
