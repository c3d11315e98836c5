-- ===== src/Tests/Data.antt =====
-- A machine with 64 KB of RAM and the devices of the runs.
use pglinux.Base.{ℕ, ◌+◌, ◌-◌, ◌*◌, ◌%◌, ◌^◌, true, false, [], ◌∷◌, ◌==◌, if◌then◌else◌, ltb}
use pglinux.Uart.{Uart}
use pglinux.Clint.{Clint}
use pglinux.Plic.{Plic}
use pglinux.Ram.{Memory}
use pglinux.Virtio.{VirtioDev, VirtioQueue}
use pglinux.Cpu.{Cpu, no_entry}
use pglinux.Exec.{FpResult, fp_unimplemented}
use pglinux.Fpu.{Format, Host}

-- A UART with the bytes 104 and 105 in its ring, which wraps after them.
abbrev pub busy_uart : Uart
busy_uart = record {
  rbr = 7;
  thr = 0;
  ier = 0;
  iir = 0;
  lcr = 0;
  mcr = 0;
  lsr = 0;
  msr = 0;
  scr = 0;
  dll = 0;
  dlm = 0;
  rx_ready = true;
  thre_pending = false;
  has_tx = false;
  sent = [];
  rx_buf = (λ i. if i == 255 then 104 else 105);
  rx_head = 1;
  rx_tail = 255;
}

abbrev pub idle_clint : Clint
idle_clint = record { mtimecmp = 5; mtime = 0 }

-- Sources 3 and 10 are pending and enabled for context 1.
abbrev pub busy_plic : Plic
busy_plic = record {
  priority = (λ _. 0);
  pending = (λ i. if i == 0 then 2 ^ 3 + 2 ^ 10 else 0);
  enable = (λ _ i. if i == 0 then 2 ^ 3 + 2 ^ 10 else 0);
  threshold = (λ _. 0);
  claim = (λ _. 0);
}

abbrev pub idle_queue : VirtioQueue
idle_queue = record {
  num = 0;
  ready = 0;
  desc_addr = 0;
  avail_addr = 0;
  used_addr = 0;
  last_avail = 0;
}

abbrev pub idle_dev : VirtioDev
idle_dev = record {
  device_id = 0;
  irq = 0;
  status = 0;
  int_status = 0;
  dev_features_sel = 0;
  drv_features_sel = 0;
  dev_features = 0;
  drv_features = 0;
  queue_sel = 0;
  config_gen = 0;
  queues = (λ _. idle_queue);
  disk_data = (λ _. 0);
  disk_size = 0;
  slirp = false;
  ram_size = 0;
  rx_data = (λ _ _. 0);
  rx_sizes = (λ _. 0);
  rx_head = 0;
  rx_tail = 0;
  inputs = [];
  mark_dirty = false;
  marked = [];
  blk_reads = 0;
  blk_writes = 0;
  blk_bytes_read = 0;
  blk_bytes_written = 0;
}

-- The root table at offset 0x1000 maps the first gigabyte to 0x80000000 for user mode.
abbrev pub page_table : Memory
page_table i = if i == 0x1000 then 0x1F else if i == 0x1003 then 0x20 else 0

-- User mode under Sv39, with every exception delegated.
abbrev pub user_cpu : Cpu
user_cpu = record {
  x = (λ i. i);
  f = (λ i. i);
  pc = 0x1000;
  fcsr = 0;
  priv = 0;
  mstatus = 0x2AAAAAAAA;
  misa = 0;
  medeleg = 2 ^ 64 - 1;
  mideleg = 2 ^ 5;
  mie = 2 ^ 7;
  mtvec = 0;
  mcounteren = 0;
  mscratch = 0;
  mepc = 0;
  mcause = 0;
  mtval = 0;
  mip = 2 ^ 7;
  satp = 8 * 2 ^ 60 + 0x80001;
  sscratch = 0;
  sepc = 0;
  scause = 0;
  stval = 0;
  stvec = 0;
  scounteren = 0;
  stimecmp = 0;
  menvcfg = 0;
  cycle = 0;
  instret = 0;
  pmpcfg = (λ _. 0);
  pmpaddr = (λ _. 0);
  reserved = false;
  reserved_addr = 0;
  tlb = (λ _. no_entry);
  uart = busy_uart;
  clint = idle_clint;
  plic = busy_plic;
  virtio_blk = idle_dev;
  virtio_net = idle_dev;
  attached = (λ _. false);
  ram_size = 0x10000;
  ram_mapped = true;
  ram = page_table;
  halted = false;
  pending_irq_check = false;
  tlb_hits = 0;
  tlb_misses = 0;
  irq_checks = 0;
  irq_taken = 0;
}

-- Machine mode with MIE clear.
abbrev pub machine_cpu : Cpu
machine_cpu = record user_cpu { priv = 3; mstatus = 0x1880 }

-- The same before ADDI x5, x1, 1 at the start of the RAM.
abbrev pub adding_cpu : Cpu
adding_cpu = record machine_cpu {
  pc = 0x80000000;
  ram = (λ i. if i == 0 then 0x93 else if i == 1 then 0x82 else if i == 2 then 0x10 else 0);
}

-- Machine mode at a trap vector with an illegal instruction, which has trapped before.
abbrev pub stuck_cpu : Cpu
stuck_cpu = record machine_cpu {
  pc = 0x80000000;
  mtvec = 0x80000000;
  mepc = 0x80000000;
  mcause = 2;
  mtval = 0x8000;
  mstatus = 0x1800;
  ram = (λ i. if i == 1 then 0x80 else 0);
}

-- A hart that waits for the timer, which is far off.
abbrev pub waiting_cpu : Cpu
waiting_cpu = record machine_cpu {
  halted = true;
  clint = record { mtimecmp = 2 ^ 64 - 1; mtime = 0 };
  stimecmp = 2 ^ 64 - 1;
  plic = record busy_plic { pending = (λ _. 0) };
  mip = 0;
  cycle = 1;
}

-- A clock that stands at one microsecond.
abbrev pub still_clock : ℕ → ℕ
still_clock tick = 1000

-- The network device left alone, and no floating-point unit.
abbrev pub no_net : VirtioDev → ℕ → Memory → ℕ → VirtioDev × Memory
no_net dev q ram size = (dev, ram)

abbrev pub no_poll : VirtioDev → Memory → VirtioDev × Memory
no_poll dev ram = (dev, ram)

abbrev pub no_fp : Cpu → ℕ → FpResult × Cpu
no_fp c insn = (fp_unimplemented, c)

-- A queue of two requests, whose indices wrap.
abbrev pub small_queue : VirtioQueue
small_queue = record idle_queue { num = 4; ready = 1; avail_addr = 0x80000000 }

-- A disk with a tracker, which had marked a write.
abbrev pub tracked_disk : VirtioDev
tracked_disk = record idle_dev {
  device_id = 2;
  disk_size = 4096;
  mark_dirty = true;
  marked = (0, 512) ∷ [];
}

-- A format of `w` bits for runs: signed magnitudes with a saturating order, no NaN.
abbrev pub toy_format : ℕ → Format
toy_format w = record {
  add = (λ a b. a + b);
  sub = (λ a b. a - b);
  mul = (λ a b. a * b);
  div = (λ a b. a);
  mul_add = (λ a b c. a * b + c);
  mul_sub = (λ a b c. a * b - c);
  neg = (λ a. a + 2 ^ (w - 1));
  sqrt = (λ a. a);
  eq = (λ a b. a == b);
  lt = (λ a b. ltb a b);
  le = (λ a b. ltb a (b + 1));
  isnan = (λ a. false);
  isinf = (λ a. false);
  signbit = (λ a. ltb (2 ^ (w - 1) - 1) a);
  zero = 0;
  infinity = 2 ^ (w - 1) - 1;
  to_i32 = (λ a. a);
  to_u32 = (λ a. a);
  to_i64 = (λ a. a);
  to_u64 = (λ a. a);
  of_i32 = (λ a. a);
  of_u32 = (λ a. a);
  of_i64 = (λ a. a);
  of_u64 = (λ a. a);
}

abbrev pub toy_host : Host
toy_host = record {
  float = toy_format 32;
  double = toy_format 64;
  nan = 0x7FC00000;
  narrow = (λ a. a % 2 ^ 32);
  widen = (λ a. a);
}
