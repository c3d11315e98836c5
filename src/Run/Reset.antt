-- ===== src/Run/Reset.antt =====
-- extension/rv64_cpu.c: `rv64_init`, less the start of the JIT. `ram` and `ram_mapped` are the memory
-- behind the RAM pointer, which the reset leaves alone.
use pglinux.Base.{ℕ, ◌-◌, ◌^◌, Bool, false, []}
use pglinux.Word.{◌|||◌, ◌<<<◌}
use pglinux.Ram.{Memory}
use pglinux.Uart.{Uart}
use pglinux.Plic.{Plic}
use pglinux.Virtio.{VirtioDev, no_queue, ram_base}
use pglinux.Cpu.{Cpu, no_entry, priv_m}

-- The devices after memset(cpu, 0, sizeof(*cpu)), and lsr = 0x60.
abbrev pub reset_uart : Uart
reset_uart = record {
  rbr = 0;
  thr = 0;
  ier = 0;
  iir = 0;
  lcr = 0;
  mcr = 0;
  lsr = 0x60;
  msr = 0;
  scr = 0;
  dll = 0;
  dlm = 0;
  rx_ready = false;
  thre_pending = false;
  has_tx = false;
  sent = [];
  rx_buf = (λ _. 0);
  rx_head = 0;
  rx_tail = 0;
}

abbrev pub reset_plic : Plic
reset_plic = record {
  priority = (λ _. 0);
  pending = (λ _. 0);
  enable = (λ _ _. 0);
  threshold = (λ _. 0);
  claim = (λ _. 0);
}

abbrev pub reset_dev : VirtioDev
reset_dev = record {
  device_id = 0;
  irq = 0;
  status = 0;
  int_status = 0;
  dev_features_sel = 0;
  drv_features_sel = 0;
  dev_features = 0;
  drv_features = 0;
  queue_sel = 0;
  config_gen = 0;
  queues = (λ _. no_queue);
  disk_data = (λ _. 0);
  disk_size = 0;
  slirp = false;
  ram_size = 0;
  rx_data = (λ _ _. 0);
  rx_sizes = (λ _. 0);
  rx_head = 0;
  rx_tail = 0;
  inputs = [];
  mark_dirty = false;
  marked = [];
  blk_reads = 0;
  blk_writes = 0;
  blk_bytes_read = 0;
  blk_bytes_written = 0;
}

abbrev pub uint64_max : ℕ
uint64_max = 2 ^ 64 - 1

unfoldable pub rv64_init : Memory → Bool → ℕ → Cpu
rv64_init ram ram_mapped ram_size = record {
  x = (λ _. 0);
  f = (λ _. 0);
  pc = ram_base;
  fcsr = 0;
  priv = priv_m;
  mstatus = (2 <<< 32) ||| (2 <<< 34) ||| (1 <<< 13);
  misa =
      (2 <<< 62)
      ||| (1 <<< 0)
      ||| (1 <<< 2)
      ||| (1 <<< 3)
      ||| (1 <<< 5)
      ||| (1 <<< 8)
      ||| (1 <<< 12)
      ||| (1 <<< 18)
      ||| (1 <<< 20);
  medeleg = 0;
  mideleg = 0;
  mie = 0;
  mtvec = 0;
  mcounteren = 0;
  mscratch = 0;
  mepc = 0;
  mcause = 0;
  mtval = 0;
  mip = 0;
  satp = 0;
  sscratch = 0;
  sepc = 0;
  scause = 0;
  stval = 0;
  stvec = 0;
  scounteren = 0;
  stimecmp = uint64_max;
  menvcfg = 0;
  cycle = 0;
  instret = 0;
  pmpcfg = (λ _. 0);
  pmpaddr = (λ _. 0);
  reserved = false;
  reserved_addr = 0;
  tlb = (λ _. no_entry);
  uart = reset_uart;
  clint = record { mtimecmp = uint64_max; mtime = 0 };
  plic = reset_plic;
  virtio_blk = reset_dev;
  virtio_net = reset_dev;
  attached = (λ _. false);
  ram_size = ram_size;
  ram_mapped = ram_mapped;
  ram = ram;
  halted = false;
  pending_irq_check = false;
  tlb_hits = 0;
  tlb_misses = 0;
  irq_checks = 0;
  irq_taken = 0;
}
