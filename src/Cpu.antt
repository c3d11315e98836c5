-- ===== src/Cpu.antt =====
-- extension/rv64_cpu.h: the machine state. C arrays are functions of the index. The RAM is the memory
-- behind `get_guest_ram_ptr()`, and `ram_mapped` says that the pointer is not null. The run-loop's
-- clock, the debug logs, the counters that no field below holds and the JIT state are not part of it.
-- `attached i` says that `virtio_devs[i]` is not null.
pub mod Hart
pub mod Zero
use pglinux.Base.{ℕ, ◌+◌, ◌-◌, ◌*◌, ◌^◌, Bool, false, true, ◌==◌, if◌then◌else◌, update}
use pglinux.Word.{u64, ◌&&&◌, ◌|||◌, ◌^^^◌, ◌<<<◌}
use pglinux.Ram.{Memory}
use pglinux.Uart.{Uart}
use pglinux.Clint.{Clint}
use pglinux.Plic.{Plic}
use pglinux.Virtio.{VirtioDev}

abbrev pub priv_u : ℕ
priv_u = 0

abbrev pub priv_s : ℕ
priv_s = 1

abbrev pub priv_m : ℕ
priv_m = 3

-- ACCESS_READ, ACCESS_WRITE, ACCESS_EXEC
pub data Access : Type 0 where
  read write exec : Access

-- struct tlb_entry. `host` is `host_base` as the offset from the RAM pointer; `has_host` says that
-- it is not null.
pub record TlbEntry : Type 0 where
  pub vpn : ℕ
  pub ppn : ℕ
  pub has_host : Bool
  pub host : ℕ
  pub perm : ℕ
  pub level : ℕ
  pub dirty : Bool
  pub valid : Bool

abbrev pub no_entry : TlbEntry
no_entry = record {
  vpn = 0;
  ppn = 0;
  has_host = false;
  host = 0;
  perm = 0;
  level = 0;
  dirty = false;
  valid = false;
}

-- struct rv64_cpu
pub record Cpu : Type 0 where
  pub x : ℕ → ℕ
  pub f : ℕ → ℕ
  pub pc : ℕ
  pub fcsr : ℕ
  pub priv : ℕ
  pub mstatus : ℕ
  pub misa : ℕ
  pub medeleg : ℕ
  pub mideleg : ℕ
  pub mie : ℕ
  pub mtvec : ℕ
  pub mcounteren : ℕ
  pub mscratch : ℕ
  pub mepc : ℕ
  pub mcause : ℕ
  pub mtval : ℕ
  pub mip : ℕ
  pub satp : ℕ
  pub sscratch : ℕ
  pub sepc : ℕ
  pub scause : ℕ
  pub stval : ℕ
  pub stvec : ℕ
  pub scounteren : ℕ
  pub stimecmp : ℕ
  pub menvcfg : ℕ
  pub cycle : ℕ
  pub instret : ℕ
  pub pmpcfg : ℕ → ℕ
  pub pmpaddr : ℕ → ℕ
  pub reserved : Bool
  pub reserved_addr : ℕ
  pub tlb : ℕ → TlbEntry
  pub uart : Uart
  pub clint : Clint
  pub plic : Plic
  pub virtio_blk : VirtioDev
  pub virtio_net : VirtioDev
  pub attached : ℕ → Bool
  pub ram_size : ℕ
  pub ram_mapped : Bool
  pub ram : Memory
  pub halted : Bool
  pub pending_irq_check : Bool
  pub tlb_hits : ℕ
  pub tlb_misses : ℕ
  pub irq_checks : ℕ
  pub irq_taken : ℕ

-- WR(rd, val): x0 is zero after every write.
unfoldable pub set_reg : Cpu → ℕ → ℕ → Cpu
set_reg c rd val = record c { x = update (update c.x rd val) 0 0 }

-- The low `w` bits of `val` sign-extended to 64 bits: (int64_t)((val ^ m) - m) with m = 1 << (w - 1).
unfoldable pub sign_extend : ℕ → ℕ → ℕ
sign_extend val w = u64 ((val ^^^ 1 <<< (w - 1)) + 2 ^ 64 - (1 <<< (w - 1)))
