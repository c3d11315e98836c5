-- ===== src/Exec/Zero.antt =====
-- extension/rv64_cpu.c: x0 is zero after every instruction.
use pglinux.Base.{
  ℕ, ◌+◌, refl, if_both, match_option, false, ◌&&◌, ◌||◌, Option, ◌==◌, ltb, none, some,
  if◌then◌else◌, ◌^◌, ◌%◌,
}
use pglinux.Word.{nonzero, ◌&&&◌, u64, ◌>>>◌}
use pglinux.Ram.{Memory}
use pglinux.Virtio.{VirtioDev}
use pglinux.Cpu.{Cpu, Access, priv_u, priv_s, priv_m, set_reg}
use pglinux.Base.Int.{signed, pattern_of}
use pglinux.Csr.{csr_read}
use pglinux.Mmu.Keeps.{x-tlb_flush}
use pglinux.Mem.{cpu_load, cpu_store}
use pglinux.Mem.Keeps.{x-cpu_load, x-cpu_store, match_Loaded}
use pglinux.Trap.{trap}
use pglinux.Trap.Registers.{x-trap, x-mret, x-sret}
use pglinux.Cpu.Zero.{ZeroX0, set_reg-ZeroX0, same_x}
use pglinux.Alu.{amo, branch_taken}
use pglinux.Decode.{opcode, rd, funct3, rs1, rs2, funct7, imm_i}
use pglinux.Exec.{
  then_stored, Flow, done, left, FpResult, fp_ok, fp_unimplemented, fp_trapped, illegal,
  write_or_illegal, exec_jalr, exec_branch, load_size, store_size, exec_csr, exec_mret, exec_sret,
  exec_ecall, exec_system, exec_plain, exec_load, exec_store, exec_sc, exec_atomic, exec_fp, exec,
}

-- It does in the state of a result.
pub Zero : Flow × Cpu → Type 0
Zero r = ZeroX0 r.1

Zero-state : (f : Flow) (c : Cpu) → ZeroX0 c → Zero (f, c)
unfolding Zero
Zero-state f c h = h

pub trap-ZeroX0 : (c : Cpu) (cause tval : ℕ) → ZeroX0 c → ZeroX0 (trap c cause tval)
trap-ZeroX0 c cause tval z = same_x c _ (x-trap c cause tval) z

pub Zero-result : (r : Flow × Cpu) → Zero r → ZeroX0 r.1
unfolding Zero
Zero-result r h = h

illegal-Zero : (c : Cpu) (insn : ℕ) → ZeroX0 c → Zero (illegal c insn)
illegal-Zero c insn z = Zero-state left _ (trap-ZeroX0 c 2 insn z)

write_or_illegal-Zero :
    (c : Cpu) (insn next_pc : ℕ) (v : Option ℕ)
    → ZeroX0 c
    → Zero (write_or_illegal c insn next_pc v)
unfolding write_or_illegal
write_or_illegal-Zero c insn next_pc none z = illegal-Zero c insn z
write_or_illegal-Zero c insn next_pc (some v) z = Zero-state _ _ (set_reg-ZeroX0 c _ v)

exec_branch-Zero : (c : Cpu) (insn next_pc : ℕ) → ZeroX0 c → Zero (exec_branch c insn next_pc)
unfolding exec_branch
exec_branch-Zero c insn next_pc z =
    match_option Zero (branch_taken (funct3 insn) (c.x (rs1 insn)) (c.x (rs2 insn)))
      (illegal-Zero c insn z) λ t. Zero-state _ _ z

exec_csr-Zero : (c : Cpu) (insn next_pc : ℕ) → ZeroX0 c → Zero (exec_csr c insn next_pc)
unfolding exec_csr
exec_csr-Zero c insn next_pc z =
    match_option Zero (csr_read c (insn >>> 20 &&& 0xFFF)) (illegal-Zero c insn z)
      λ v. Zero-state _ _ (set_reg-ZeroX0 _ _ v)

exec_system-Zero : (c : Cpu) (insn next_pc : ℕ) → ZeroX0 c → Zero (exec_system c insn next_pc)
unfolding exec_system exec_ecall exec_mret exec_sret
exec_system-Zero c insn next_pc z =
    let after_trap = λ (e t : ℕ). Zero-state left (trap c e t) (trap-ZeroX0 c e t z) in
    if_both Zero (nonzero (funct3 insn)) (exec_csr-Zero c insn next_pc z) (
      if_both Zero (insn == 0x00000073)
        (if_both Zero (c.priv == priv_u) (after_trap 8 0) (
          if_both Zero (c.priv == priv_s) (after_trap 9 0)
            (if_both Zero (c.priv == priv_m) (after_trap 11 0) (Zero-state _ _ z))))
        (if_both Zero (insn == 0x00100073) (after_trap 3 c.pc) (
          if_both Zero (insn == 0x30200073)
            (if_both Zero (ltb c.priv priv_m) (illegal-Zero c insn z)
              (Zero-state _ _ (same_x c _ (x-mret c) z)))
            (if_both Zero (insn == 0x10200073)
              (if_both Zero (ltb c.priv priv_s) (illegal-Zero c insn z)
                (Zero-state _ _ (same_x c _ (x-sret c) z)))
              (if_both Zero (insn == 0x10500073) (Zero-state _ _ (same_x c _ refl z)) (
                if_both Zero (funct7 insn == 0x09) (Zero-state _ _ (same_x c _ (x-tlb_flush c) z))
                  (illegal-Zero c insn z)))))))

exec_plain-Zero : (c : Cpu) (insn next_pc : ℕ) → ZeroX0 c → Zero (exec_plain c insn next_pc)
unfolding exec_plain exec_jalr
exec_plain-Zero c insn next_pc z =
    let op = opcode insn in
    let wrote =
      λ (f : Flow) (v : ℕ). Zero-state f (set_reg c (rd insn) v) (set_reg-ZeroX0 c (rd insn) v) in
    if_both Zero (op == 0x37) (wrote _ _) (
      if_both Zero (op == 0x17) (wrote _ _) (
        if_both Zero (op == 0x6F) (wrote _ _) (
          if_both Zero (op == 0x67) (wrote _ _) (
            if_both Zero (op == 0x63) (exec_branch-Zero c insn next_pc z) (
              if_both Zero (op == 0x13) (wrote _ _) (
                if_both Zero (op == 0x33) (wrote _ _) (
                  if_both Zero (op == 0x1B) (write_or_illegal-Zero c insn next_pc _ z) (
                    if_both Zero (op == 0x3B) (write_or_illegal-Zero c insn next_pc _ z) (
                      if_both Zero (op == 0x0F) (Zero-state _ _ z) (
                        if_both Zero (op == 0x73) (exec_system-Zero c insn next_pc z)
                          (illegal-Zero c insn z)))))))))))

module _ (net_process : VirtioDev → ℕ → Memory → ℕ → VirtioDev × Memory) where
  exec_load-Zero :
      (c : Cpu) (insn next_pc : ℕ) → ZeroX0 c → Zero (exec_load net_process c insn next_pc)
  unfolding exec_load
  exec_load-Zero c insn next_pc z =
      let addr = u64 (c.x (rs1 insn) + imm_i insn) in
      match_option Zero (load_size (funct3 insn)) (illegal-Zero c insn z) λ size.
        let got = cpu_load net_process c addr size Access.read in
        match_Loaded Zero got.0
          (λ e.
            Zero-state _ _
              (trap-ZeroX0 _ _ _ (same_x c _ (x-cpu_load net_process c addr size Access.read) z)))
          λ v. Zero-state _ _ (set_reg-ZeroX0 _ _ _)

  -- A store, and what follows it.
  stored-Zero :
      (c : Cpu) (addr size val : ℕ) (k : Cpu → Flow × Cpu)
      → ZeroX0 c
      → ((d : Cpu) → ZeroX0 d → Zero (k d))
      → Zero (then_stored net_process (cpu_store net_process c addr size val) addr k)
  stored-Zero c addr size val k z next =
      let put = cpu_store net_process c addr size val in
      let z1 : ZeroX0 put.1 = same_x c _ (x-cpu_store net_process c addr size val) z in
      match_option Zero put.0 (next put.1 z1) λ e. Zero-state _ _ (trap-ZeroX0 _ _ _ z1)

  exec_store-Zero :
      (c : Cpu) (insn next_pc : ℕ) → ZeroX0 c → Zero (exec_store net_process c insn next_pc)
  unfolding exec_store
  exec_store-Zero c insn next_pc z =
      match_option Zero (store_size (funct3 insn)) (illegal-Zero c insn z)
        λ size. stored-Zero c _ size _ (λ d. (done next_pc, d)) z λ d zd. Zero-state _ _ zd

  exec_sc-Zero :
      (c : Cpu) (insn next_pc addr size : ℕ)
      → ZeroX0 c
      → Zero (exec_sc net_process c insn next_pc addr size)
  unfolding exec_sc
  exec_sc-Zero c insn next_pc addr size z =
      if_both Zero (c.reserved && c.reserved_addr == addr)
        (stored-Zero c addr size _
          (λ d. (done next_pc, record (set_reg d (rd insn) 0) { reserved = false })) z
          λ d zd.
            Zero-state _ _ (same_x (set_reg d (rd insn) 0) _ refl (set_reg-ZeroX0 d (rd insn) 0)))
        (Zero-state (done next_pc) (record (set_reg c (rd insn) 1) { reserved = false })
          (same_x (set_reg c (rd insn) 1) _ refl (set_reg-ZeroX0 c (rd insn) 1)))

  exec_atomic-Zero :
      (c : Cpu) (insn next_pc : ℕ) → ZeroX0 c → Zero (exec_atomic net_process c insn next_pc)
  unfolding exec_atomic
  exec_atomic-Zero c insn next_pc z =
      let addr = c.x (rs1 insn) in
      let size = if funct3 insn == 3 then 8 else 4 in
      let funct5 = funct7 insn >>> 2 in
      let got = cpu_load net_process c addr size Access.read in
      let z1 : ZeroX0 got.1 = same_x c _ (x-cpu_load net_process c addr size Access.read) z in
      match_Loaded Zero got.0 (λ e. Zero-state _ _ (trap-ZeroX0 _ _ _ z1))
        λ v. if_both Zero (funct5 == 0x02) (Zero-state _ _ (set_reg-ZeroX0 _ _ _)) (
          if_both Zero (funct5 == 0x03) (exec_sc-Zero got.1 insn next_pc addr size z1) (
            match_option Zero
              (amo funct5 (if funct3 insn == 3 then v else pattern_of 64 (signed 32 (v % 2 ^ 32)))
                (got.1.x (rs2 insn)))
              (illegal-Zero got.1 insn z1)
              λ result.
                let loaded =
                  if funct3 insn == 3 then v else pattern_of 64 (signed 32 (v % 2 ^ 32)) in
                stored-Zero got.1 addr size result (λ d. (done next_pc, set_reg d (rd insn) loaded))
                  z1 λ d zd. Zero-state _ _ (set_reg-ZeroX0 d _ _)))

  module _ (fp_exec : Cpu → ℕ → FpResult × Cpu) where
    -- The floating-point unit keeps x0 at zero on the instruction.
    abbrev pub FpKeepsZero : ℕ → Type 0
    FpKeepsZero insn = (c : Cpu) → ZeroX0 c → ZeroX0 (fp_exec c insn).1

    exec_fp-Zero :
        (c : Cpu) (insn next_pc : ℕ)
        → FpKeepsZero insn
        → ZeroX0 c
        → Zero (exec_fp net_process fp_exec c insn next_pc)
    unfolding exec_fp
    exec_fp-Zero c insn next_pc fp z = after (fp_exec c insn).0
      where
        after :
            (r : FpResult)
            → Zero (elim r [
              | fp_ok ↦ (done next_pc, (fp_exec c insn).1)
              | fp_unimplemented ↦ illegal (fp_exec c insn).1 insn
              | fp_trapped ↦ (left, (fp_exec c insn).1)
            ])
        after fp_ok = Zero-state _ _ (fp c z)
        after fp_unimplemented = illegal-Zero _ insn (fp c z)
        after fp_trapped = Zero-state _ _ (fp c z)

    pub exec-Zero :
        (c : Cpu) (insn next_pc : ℕ)
        → FpKeepsZero insn
        → ZeroX0 c
        → Zero (exec net_process fp_exec c insn next_pc)
    unfolding exec
    exec-Zero c insn next_pc fp z =
        let op = opcode insn in
        if_both Zero (op == 0x03) (exec_load-Zero c insn next_pc z) (
          if_both Zero (op == 0x23) (exec_store-Zero c insn next_pc z) (
            if_both Zero (op == 0x2F) (exec_atomic-Zero c insn next_pc z) (
              if_both Zero
                (op == 0x07
                  || op == 0x27
                  || op == 0x43
                  || op == 0x47
                  || op == 0x4B
                  || op == 0x4F
                  || op == 0x53)
                (exec_fp-Zero c insn next_pc fp z) (exec_plain-Zero c insn next_pc z))))
