-- ===== src/Virtio.antt =====
-- extension/rv64_virtio.h and rv64_virtio.c: the device state, the accesses of guest memory and the
-- MMIO registers. The disk image is the memory behind `disk_data`. `mark_dirty` says that the
-- callback is set, and `marked` lists the ranges handed to it, the latest first.
pub mod Blk
pub mod Mmio
pub mod Net
use pglinux.Base.{
  ℕ, ◌+◌, ◌-◌, ◌*◌, ◌/◌, ◌%◌, ◌^◌, Bool, true, false, ◌&&◌, List, ◌∷◌, Option, none, some, ◌==◌,
  ltb, leb, if◌then◌else◌, update,
}
use pglinux.Word.{u32, u64, not32, nonzero, ◌&&&◌, ◌|||◌, ◌<<<◌, ◌>>>◌}
use pglinux.Ram.{Memory, read_bytes, write_bytes}

abbrev pub ram_base : ℕ
ram_base = 0x80000000

-- struct virtio_queue
pub record VirtioQueue : Type 0 where
  pub num : ℕ
  pub ready : ℕ
  pub desc_addr : ℕ
  pub avail_addr : ℕ
  pub used_addr : ℕ
  pub last_avail : ℕ

abbrev pub no_queue : VirtioQueue
no_queue = record {
  num = 0;
  ready = 0;
  desc_addr = 0;
  avail_addr = 0;
  used_addr = 0;
  last_avail = 0;
}

-- A network packet: its bytes below `size`.
pub record Packet : Type 0 where
  pub size : ℕ
  pub bytes : Memory

-- struct virtio_mmio_dev. `slirp` says that the pointer to the library's state is set, and `inputs`
-- lists the packets handed to the library, the latest first. `rx_data` and `rx_sizes` are
-- rx_ring_buffers and rx_ring_sizes. `ram` is the RAM of the machine wherever `slirp` is set. The two
-- ring counters are below 2 ^ 31.
pub record VirtioDev : Type 0 where
  pub device_id : ℕ
  pub irq : ℕ
  pub status : ℕ
  pub int_status : ℕ
  pub dev_features_sel : ℕ
  pub drv_features_sel : ℕ
  pub dev_features : ℕ
  pub drv_features : ℕ
  pub queue_sel : ℕ
  pub config_gen : ℕ
  pub queues : ℕ → VirtioQueue
  pub disk_data : Memory
  pub disk_size : ℕ
  pub slirp : Bool
  pub ram_size : ℕ
  pub rx_data : ℕ → Memory
  pub rx_sizes : ℕ → ℕ
  pub rx_head : ℕ
  pub rx_tail : ℕ
  pub inputs : List Packet
  pub mark_dirty : Bool
  pub marked : List (ℕ × ℕ)
  pub blk_reads : ℕ
  pub blk_writes : ℕ
  pub blk_bytes_read : ℕ
  pub blk_bytes_written : ℕ

-- memset(dev, 0, sizeof(*dev)), which leaves the image itself alone.
abbrev pub cleared : VirtioDev → VirtioDev
cleared dev = record dev {
  device_id = 0;
  irq = 0;
  status = 0;
  int_status = 0;
  dev_features_sel = 0;
  drv_features_sel = 0;
  dev_features = 0;
  drv_features = 0;
  queue_sel = 0;
  config_gen = 0;
  queues = λ _. no_queue;
  disk_size = 0;
  slirp = false;
  ram_size = 0;
  rx_data = λ _ _. 0;
  rx_sizes = λ _. 0;
  rx_head = 0;
  rx_tail = 0;
  mark_dirty = false;
  blk_reads = 0;
  blk_writes = 0;
  blk_bytes_read = 0;
  blk_bytes_written = 0;
}

abbrev pub virtio_dev_net : ℕ
virtio_dev_net = 1

abbrev pub virtio_dev_blk : ℕ
virtio_dev_blk = 2

-- `dev` is the memory that the caller hands over: its content is not read.
pub virtio_blk_init : VirtioDev → ℕ → Memory → ℕ → VirtioDev
virtio_blk_init dev irq disk disk_size = record (cleared dev) {
  device_id = virtio_dev_blk;
  irq = irq;
  disk_data = disk;
  disk_size = disk_size;
  dev_features = 1 <<< 32 ||| 1 <<< 6;
}

-- The test of `guest_read` and `guest_write`; the sums wrap.
unfoldable pub in_guest : ℕ → ℕ → ℕ → Bool
in_guest ram_size addr len = leb ram_base addr && leb (u64 (addr + len)) (u64 (ram_base + ram_size))

-- `guest_read` of an object of `n` bytes, as a number.
unfoldable pub guest_read : Memory → ℕ → ℕ → ℕ → Option ℕ
guest_read ram ram_size addr n =
    if in_guest ram_size addr n then some (read_bytes n ram (addr - ram_base)) else none

-- `guest_write` of an object of `n` bytes; `none` is the result -1.
pub guest_write : Memory → ℕ → ℕ → ℕ → ℕ → Option Memory
guest_write ram ram_size addr n val =
    if in_guest ram_size addr n then some (write_bytes n ram (addr - ram_base) val) else none

-- memcpy of `len` bytes.
unfoldable pub copy_bytes : Memory → ℕ → Memory → ℕ → ℕ → Memory
copy_bytes dst d src s len j = if leb d j && ltb j (d + len) then src (s + (j - d)) else dst j
