-- ===== src/Csr.antt =====
-- extension/rv64_cpu.c: `csr_read` and `csr_write`.
pub mod Keeps
pub mod Sstatus
use pglinux.Base.{
  ℕ, ◌+◌, ◌-◌, ◌*◌, ◌^◌, Bool, ◌&&◌, ◌||◌, Option, none, some, ◌==◌, leb, if◌then◌else◌, update,
}
use pglinux.Word.{u64, not64, not32, ◌&&&◌, ◌|||◌, ◌<<<◌, ◌>>>◌}
use pglinux.Cpu.{Cpu}
use pglinux.Mmu.{tlb_flush}

-- SSTATUS_MASK: SIE, SPIE, SPP, FS, SUM, MXR, UXL and SD.
abbrev pub sstatus_mask : ℕ
sstatus_mask = 2 ^ 1 + 2 ^ 5 + 2 ^ 8 + 3 * 2 ^ 13 + 2 ^ 18 + 2 ^ 19 + 3 * 2 ^ 32 + 2 ^ 63

abbrev pub pmpaddr_csr : ℕ → Bool
pmpaddr_csr csr = leb 0x3B0 csr && leb csr 0x3BF

-- `val` within the mask, `old` elsewhere.
abbrev pub merge64 : ℕ → ℕ → ℕ → ℕ
merge64 mask old val = old &&& not64 mask ||| (val &&& mask)

-- The machine-level registers, the entropy source and the PMP registers.
pub read_machine : Cpu → ℕ → Option ℕ
read_machine c csr =
    if csr == 0x300
    then some c.mstatus
    else if csr == 0x301
    then some c.misa
    else if csr == 0x302
    then some c.medeleg
    else if csr == 0x303
    then some c.mideleg
    else if csr == 0x304
    then some c.mie
    else if csr == 0x305
    then some c.mtvec
    else if csr == 0x306
    then some c.mcounteren
    else if csr == 0x340
    then some c.mscratch
    else if csr == 0x341
    then some c.mepc
    else if csr == 0x342
    then some c.mcause
    else if csr == 0x343
    then some c.mtval
    else if csr == 0x344
    then some c.mip
    else if csr == 0xF14 || csr == 0xF11 || csr == 0xF12 || csr == 0xF13
    then some 0
    else if csr == 0x30A
    then some c.menvcfg
    else if csr == 0x015
    then some
        (3 <<< 30 ||| (u64 (c.instret * 6364136223846793005 + 1442695040888963407) &&& 0xFFFF))
    else if csr == 0x3A0
    then some (c.pmpcfg 0)
    else if csr == 0x3A2
    then some (c.pmpcfg 1)
    else if pmpaddr_csr csr
    then some (c.pmpaddr (csr - 0x3B0))
    else none

-- The supervisor views, the FP registers and the counters.
pub read_supervisor : Cpu → ℕ → Option ℕ
read_supervisor c csr =
    if csr == 0x100
    then some (c.mstatus &&& sstatus_mask)
    else if csr == 0x104
    then some (c.mie &&& c.mideleg)
    else if csr == 0x105
    then some c.stvec
    else if csr == 0x106
    then some c.scounteren
    else if csr == 0x140
    then some c.sscratch
    else if csr == 0x141
    then some c.sepc
    else if csr == 0x142
    then some c.scause
    else if csr == 0x143
    then some c.stval
    else if csr == 0x144
    then some (c.mip &&& c.mideleg)
    else if csr == 0x180
    then some c.satp
    else if csr == 0x14D
    then some c.stimecmp
    else if csr == 0x001
    then some (c.fcsr &&& 0x1F)
    else if csr == 0x002
    then some (c.fcsr >>> 5 &&& 0x7)
    else if csr == 0x003
    then some (c.fcsr &&& 0xFF)
    else if csr == 0xC00 || csr == 0xC02
    then some c.instret
    else if csr == 0xC01
    then some c.clint.mtime
    else none

-- `none` is the result -1. No number stands in both parts of the switch.
pub csr_read : Cpu → ℕ → Option ℕ
csr_read c csr = elim (read_machine c csr) [ some v ↦ some v | none ↦ read_supervisor c csr ]

-- satp takes Bare and Sv39 alone, and every write flushes the TLB.
pub write_satp : Cpu → ℕ → Cpu
write_satp c val =
    let mode = val >>> 60 in
    tlb_flush (record c { satp = if mode == 0 || mode == 8 then val else 0 })

pub write_machine : Cpu → ℕ → ℕ → Option Cpu
write_machine c csr val =
    if csr == 0x300
    then some (record c { mstatus = val })
    else if csr == 0x301
    then some c
    else if csr == 0x302
    then some (record c { medeleg = val })
    else if csr == 0x303
    then some (record c { mideleg = val })
    else if csr == 0x304
    then some (record c { mie = val })
    else if csr == 0x305
    then some (record c { mtvec = val })
    else if csr == 0x306
    then some (record c { mcounteren = val })
    else if csr == 0x340
    then some (record c { mscratch = val })
    else if csr == 0x341
    then some (record c { mepc = val })
    else if csr == 0x342
    then some (record c { mcause = val })
    else if csr == 0x343
    then some (record c { mtval = val })
    else if csr == 0x344
    then some (record c { mip = val })
    else if csr == 0x3A0
    then some (record c { pmpcfg = update c.pmpcfg 0 val })
    else if csr == 0x3A2
    then some (record c { pmpcfg = update c.pmpcfg 1 val })
    else if pmpaddr_csr csr
    then some (record c { pmpaddr = update c.pmpaddr (csr - 0x3B0) val })
    else none

pub write_supervisor : Cpu → ℕ → ℕ → Option Cpu
write_supervisor c csr val =
    if csr == 0x100
    then some (record c { mstatus = merge64 sstatus_mask c.mstatus val })
    else if csr == 0x104
    then some (record c { mie = merge64 c.mideleg c.mie val })
    else if csr == 0x105
    then some (record c { stvec = val })
    else if csr == 0x106
    then some (record c { scounteren = val })
    else if csr == 0x140
    then some (record c { sscratch = val })
    else if csr == 0x141
    then some (record c { sepc = val })
    else if csr == 0x142
    then some (record c { scause = val })
    else if csr == 0x143
    then some (record c { stval = val })
    else if csr == 0x144
    then some (record c { mip = merge64 c.mideleg c.mip val })
    else if csr == 0x14D
    then some (record c { stimecmp = val; mip = c.mip &&& not64 (2 ^ 5) })
    else if csr == 0x30A
    then some (record c { menvcfg = val })
    else if csr == 0x31A
    then some c
    else if csr == 0x180
    then some (write_satp c val)
    else if csr == 0x001
    then some (record c { fcsr = c.fcsr &&& not32 0x1F ||| (val &&& 0x1F) })
    else if csr == 0x002
    then some (record c { fcsr = c.fcsr &&& not32 0xE0 ||| (val &&& 0x7) <<< 5 })
    else if csr == 0x003
    then some (record c { fcsr = val &&& 0xFF })
    else none

pub csr_write : Cpu → ℕ → ℕ → Option Cpu
csr_write c csr val = elim (write_machine c csr val) [
  | some c' ↦ some c'
  | none ↦ write_supervisor c csr val
]
