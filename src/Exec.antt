-- ===== src/Exec.antt =====
-- extension/rv64_cpu.c: the cases of the opcode switch of `rv64_step`. `done` carries `next_pc`;
-- `left` is an early return, after a trap. `fp_exec` stands for `rv64_fp_exec`, and the JIT's flush
-- at FENCE.I is not part of the state.
pub mod Zero
use pglinux.Base.{
  ℕ, ◌+◌, ◌%◌, ◌^◌, true, false, not, ◌&&◌, ◌||◌, Option, none, some, ◌==◌, ltb, if◌then◌else◌,
}
use pglinux.Word.{u64, not64, nonzero, ◌&&&◌, ◌|||◌, ◌>>>◌}
use pglinux.Base.Int.{signed, pattern_of}
use pglinux.Ram.{Memory}
use pglinux.Virtio.{VirtioDev}
use pglinux.Cpu.{Cpu, Access, set_reg, priv_u, priv_s, priv_m}
use pglinux.Mmu.{tlb_flush}
use pglinux.Mem.{Loaded, value, trapped, cpu_load, cpu_store}
use pglinux.Trap.{trap, mret, sret}
use pglinux.Csr.{csr_read, csr_write}
use pglinux.Alu.{alu_imm, alu_reg, alu_imm32, alu_reg32, branch_taken, amo}
use pglinux.Decode.{opcode, rd, funct3, rs1, rs2, funct7, imm_i, imm_s, imm_b, imm_u, imm_j}

pub data Flow : Type 0 where
  done : ℕ → Flow
  left : Flow

-- trap(cpu, EXC_ILLEGAL_INSN, insn); return 0;
abbrev pub illegal : Cpu → ℕ → Flow × Cpu
illegal c insn = (left, trap c 2 insn)

-- The result of `rv64_fp_exec`: 0, -1, or positive after a trap.
pub data FpResult : Type 0 where
  fp_ok fp_unimplemented fp_trapped : FpResult

-- A value to write, or an illegal instruction.
unfoldable pub write_or_illegal : Cpu → ℕ → ℕ → Option ℕ → Flow × Cpu
write_or_illegal c insn next_pc none = illegal c insn
write_or_illegal c insn next_pc (some v) = (done next_pc, set_reg c (rd insn) v)

unfoldable pub exec_jalr : Cpu → ℕ → ℕ → Flow × Cpu
exec_jalr c insn next_pc =
    (done (u64 (c.x (rs1 insn) + imm_i insn) &&& not64 1), set_reg c (rd insn) next_pc)

unfoldable pub exec_branch : Cpu → ℕ → ℕ → Flow × Cpu
exec_branch c insn next_pc = elim (branch_taken (funct3 insn) (c.x (rs1 insn)) (c.x (rs2 insn))) [
  | none ↦ illegal c insn
  | some take ↦ (done (if nonzero take then u64 (c.pc + imm_b insn) else next_pc), c)
]

unfoldable pub load_size : ℕ → Option ℕ
load_size f3 =
    if f3 == 0 || f3 == 4
    then some 1
    else if f3 == 1 || f3 == 5
    then some 2
    else if f3 == 2 || f3 == 6
    then some 4
    else if f3 == 3
    then some 8
    else none

-- LB, LH and LW extend the sign.
unfoldable pub load_value : ℕ → ℕ → ℕ
load_value f3 val =
    if f3 == 0
    then pattern_of 64 (signed 8 (val % 2 ^ 8))
    else if f3 == 1
    then pattern_of 64 (signed 16 (val % 2 ^ 16))
    else if f3 == 2
    then pattern_of 64 (signed 32 (val % 2 ^ 32))
    else val

unfoldable pub store_size : ℕ → Option ℕ
store_size f3 =
    if f3 == 0
    then some 1
    else if f3 == 1
    then some 2
    else if f3 == 2
    then some 4
    else if f3 == 3
    then some 8
    else none

-- The write of a CSR instruction, with the check that SIE was switched on.
pub write_csr : Cpu → ℕ → ℕ → Cpu
write_csr c csr val =
    let c1 : Cpu = elim (csr_write c csr val) [ none ↦ c | some c' ↦ c' ] in
    if (csr == 0x100 || csr == 0x300)
      && (not (nonzero (c.mstatus &&& 2)) && nonzero (c1.mstatus &&& 2))
    then record c1 { pending_irq_check = true }
    else c1

pub exec_csr : Cpu → ℕ → ℕ → Flow × Cpu
exec_csr c insn next_pc =
    let csr = insn >>> 20 &&& 0xFFF in
    elim (csr_read c csr) [
      | none ↦ illegal c insn
      | some old_val ↦
          let src = if nonzero (funct3 insn &&& 4) then rs1 insn else c.x (rs1 insn) in
          let op = funct3 insn &&& 3 in
          let new_val =
            if op == 1
            then src
            else if op == 2
            then old_val ||| src
            else if op == 3
            then old_val &&& not64 src
            else old_val in
          let c1 = if op == 1 || nonzero src then write_csr c csr new_val else c in
          (done next_pc, set_reg c1 (rd insn) old_val)
    ]

-- The return instructions, below their privilege illegal.
pub exec_mret : Cpu → ℕ → Flow × Cpu
exec_mret c insn =
    if ltb c.priv priv_m then illegal c insn else (let (c1, pc) = mret c in (done pc, c1))

pub exec_sret : Cpu → ℕ → Flow × Cpu
exec_sret c insn =
    if ltb c.priv priv_s then illegal c insn else (let (c1, pc) = sret c in (done pc, c1))

pub exec_ecall : Cpu → ℕ → Flow × Cpu
exec_ecall c next_pc =
    if c.priv == priv_u
    then (left, trap c 8 0)
    else if c.priv == priv_s
    then (left, trap c 9 0)
    else if c.priv == priv_m
    then (left, trap c 11 0)
    else (done next_pc, c)

pub exec_system : Cpu → ℕ → ℕ → Flow × Cpu
exec_system c insn next_pc =
    if nonzero (funct3 insn)
    then exec_csr c insn next_pc
    else if insn == 0x00000073
    then exec_ecall c next_pc
    else if insn == 0x00100073
    then (left, trap c 3 c.pc)
    else if insn == 0x30200073
    then exec_mret c insn
    else if insn == 0x10200073
    then exec_sret c insn
    else if insn == 0x10500073
    then (done next_pc, record c { halted = true })
    else if funct7 insn == 0x09
    then (done next_pc, tlb_flush c)
    else illegal c insn

-- The cases that do not touch memory.
unfoldable pub exec_plain : Cpu → ℕ → ℕ → Flow × Cpu
exec_plain c insn next_pc =
    let op = opcode insn in
    let a = c.x (rs1 insn) in
    let b = c.x (rs2 insn) in
    if op == 0x37
    then (done next_pc, set_reg c (rd insn) (imm_u insn))
    else if op == 0x17
    then (done next_pc, set_reg c (rd insn) (u64 (c.pc + imm_u insn)))
    else if op == 0x6F
    then (done (u64 (c.pc + imm_j insn)), set_reg c (rd insn) next_pc)
    else if op == 0x67
    then exec_jalr c insn next_pc
    else if op == 0x63
    then exec_branch c insn next_pc
    else if op == 0x13
    then (
      done next_pc,
      set_reg c (rd insn)
          (alu_imm (funct3 insn) (funct7 insn) (insn >>> 20 &&& 0x3F) a (imm_i insn)),
    )
    else if op == 0x33
    then (done next_pc, set_reg c (rd insn) (alu_reg (funct3 insn) (funct7 insn) a b))
    else if op == 0x1B
    then write_or_illegal c insn next_pc
        (alu_imm32 (funct3 insn) (funct7 insn) (insn >>> 20 &&& 0x1F) a (imm_i insn))
    else if op == 0x3B
    then write_or_illegal c insn next_pc (alu_reg32 (funct3 insn) (funct7 insn) a b)
    else if op == 0x0F
    then (done next_pc, c)
    else if op == 0x73
    then exec_system c insn next_pc
    else illegal c insn

module _ (net_process : VirtioDev → ℕ → Memory → ℕ → VirtioDev × Memory) where
  -- Runs `k` on a loaded value; a fault is trapped at the address.
  abbrev then_loaded : Loaded × Cpu → ℕ → (ℕ → Cpu → Flow × Cpu) → Flow × Cpu
  then_loaded r addr k = elim r.0 [ trapped e ↦ (left, trap r.1 e addr) | value v ↦ k v r.1 ]

  -- The same of a store.
  abbrev then_stored : Option ℕ × Cpu → ℕ → (Cpu → Flow × Cpu) → Flow × Cpu
  then_stored r addr k = elim r.0 [ some e ↦ (left, trap r.1 e addr) | none ↦ k r.1 ]

  unfoldable pub exec_load : Cpu → ℕ → ℕ → Flow × Cpu
  exec_load c insn next_pc =
      let addr = u64 (c.x (rs1 insn) + imm_i insn) in
      elim (load_size (funct3 insn)) [
        | none ↦ illegal c insn
        | some size ↦
            then_loaded (cpu_load net_process c addr size Access.read) addr
              λ v c1. (done next_pc, set_reg c1 (rd insn) (load_value (funct3 insn) v))
      ]

  unfoldable pub exec_store : Cpu → ℕ → ℕ → Flow × Cpu
  exec_store c insn next_pc =
      let addr = u64 (c.x (rs1 insn) + imm_s insn) in
      elim (store_size (funct3 insn)) [
        | none ↦ illegal c insn
        | some size ↦
            then_stored (cpu_store net_process c addr size (c.x (rs2 insn))) addr
              λ c1. (done next_pc, c1)
      ]

  -- SC: stores only under a reservation of the address, and drops the reservation.
  pub exec_sc : Cpu → ℕ → ℕ → ℕ → ℕ → Flow × Cpu
  exec_sc c insn next_pc addr size =
      if c.reserved && c.reserved_addr == addr
      then then_stored (cpu_store net_process c addr size (c.x (rs2 insn))) addr
          (λ c1. (done next_pc, record (set_reg c1 (rd insn) 0) { reserved = false }))
      else (done next_pc, record (set_reg c (rd insn) 1) { reserved = false })

  pub exec_atomic : Cpu → ℕ → ℕ → Flow × Cpu
  exec_atomic c insn next_pc =
      let addr = c.x (rs1 insn) in
      let size = if funct3 insn == 3 then 8 else 4 in
      let funct5 = funct7 insn >>> 2 in
      then_loaded (cpu_load net_process c addr size Access.read) addr λ v c1.
        let loaded = if funct3 insn == 3 then v else pattern_of 64 (signed 32 (v % 2 ^ 32)) in
        if funct5 == 0x02
        then (
          done next_pc,
          set_reg (record c1 { reserved = true; reserved_addr = addr }) (rd insn) loaded,
        )
        else if funct5 == 0x03
        then exec_sc c1 insn next_pc addr size
        else elim (amo funct5 loaded (c1.x (rs2 insn))) [
          | none ↦ illegal c1 insn
          | some result ↦
              then_stored (cpu_store net_process c1 addr size result) addr
                λ c2. (done next_pc, set_reg c2 (rd insn) loaded)
        ]

  module _ (fp_exec : Cpu → ℕ → FpResult × Cpu) where
    unfoldable pub exec_fp : Cpu → ℕ → ℕ → Flow × Cpu
    exec_fp c insn next_pc =
        let (r, c1) = fp_exec c insn in
        elim r [
          | fp_ok ↦ (done next_pc, c1)
          | fp_unimplemented ↦ illegal c1 insn
          | fp_trapped ↦ (left, c1)
        ]

    -- The whole switch.
    unfoldable pub exec : Cpu → ℕ → ℕ → Flow × Cpu
    exec c insn next_pc =
        let op = opcode insn in
        if op == 0x03
        then exec_load c insn next_pc
        else if op == 0x23
        then exec_store c insn next_pc
        else if op == 0x2F
        then exec_atomic c insn next_pc
        else if op == 0x07
            || op == 0x27
            || op == 0x43
            || op == 0x47
            || op == 0x4B
            || op == 0x4F
            || op == 0x53
        then exec_fp c insn next_pc
        else exec_plain c insn next_pc
