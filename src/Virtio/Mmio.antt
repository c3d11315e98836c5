-- ===== src/Virtio/Mmio.antt =====
-- extension/rv64_virtio.c: `virtio_mmio_load` and `virtio_mmio_store`.
-- `net_process` stands for `virtio_net_process_queue`. `queue_sel` is converted to an `int` before it is
-- compared with 4: `selects` is that test.
pub mod Registers
pub mod Reset
use pglinux.Base.{
  ℕ, ◌+◌, ◌-◌, ◌*◌, ◌/◌, ◌%◌, ◌^◌, Bool, ◌&&◌, ◌||◌, ◌==◌, ltb, leb, if◌then◌else◌, update,
}
use pglinux.Word.{u32, u64, not32, nonzero, ◌&&&◌, ◌|||◌, ◌<<<◌, ◌>>>◌}
use pglinux.Ram.{Memory}
use pglinux.Virtio.{VirtioDev, VirtioQueue, cleared, virtio_dev_blk, virtio_dev_net}
use pglinux.Virtio.Blk.{process_queue}

-- int qi = dev->queue_sel; qi < 4
pub selects : ℕ → Bool
selects queue_sel = leb (2 ^ 31) queue_sel || ltb queue_sel 4

-- The 24 bytes of `cfg_buf` as one number: capacity, and 512 at offset 20.
pub blk_config : VirtioDev → ℕ
blk_config dev = dev.disk_size / 512 + 512 * 2 ^ 160

pub load_config : VirtioDev → ℕ → ℕ → ℕ
load_config dev cfg_off size =
    if dev.device_id == virtio_dev_blk && leb (u64 (cfg_off + size)) 24
    then blk_config dev / 256 ^ cfg_off % 256 ^ size
    else 0

pub virtio_mmio_load : VirtioDev → ℕ → ℕ → ℕ
virtio_mmio_load dev offset size =
    if leb 0x100 offset
    then load_config dev (offset - 0x100) size
    else if offset == 0x000
    then 0x74726976
    else if offset == 0x004
    then 2
    else if offset == 0x008
    then dev.device_id
    else if offset == 0x00C
    then 0x554D4551
    else if offset == 0x010
    then (if dev.dev_features_sel == 0
        then u32 dev.dev_features
        else if dev.dev_features_sel == 1
        then u32 (dev.dev_features >>> 32)
        else 0)
    else if offset == 0x034
    then 256
    else if offset == 0x044
    then (if selects dev.queue_sel then (dev.queues dev.queue_sel).ready else 0)
    else if offset == 0x060
    then dev.int_status
    else if offset == 0x070
    then dev.status
    else if offset == 0x0FC
    then dev.config_gen
    else 0

-- A 64-bit register with its low or its high word replaced.
abbrev pub set_low : ℕ → ℕ → ℕ
set_low old val = old &&& 0xFFFFFFFF00000000 ||| (val &&& 0xFFFFFFFF)

abbrev pub set_high : ℕ → ℕ → ℕ
set_high old val = old &&& 0xFFFFFFFF ||| (val &&& 0xFFFFFFFF) <<< 32

-- A change of the selected queue, if the test lets it through.
abbrev pub on_queue : VirtioDev → (VirtioQueue → VirtioQueue) → VirtioDev
on_queue dev f =
    if selects dev.queue_sel
    then record dev { queues = update dev.queues dev.queue_sel (f (dev.queues dev.queue_sel)) }
    else dev

-- A write of the status register; 0 resets the device.
unfoldable pub store_status : VirtioDev → ℕ → VirtioDev
store_status dev val =
    let dev1 = record dev { status = u32 val } in
    if val == 0
    then record (cleared dev1) {
      device_id = dev1.device_id;
      irq = dev1.irq;
      disk_size = dev1.disk_size;
      dev_features = dev1.dev_features;
    }
    else dev1

-- The six words of the queue addresses.
pub store_address : VirtioDev → ℕ → ℕ → VirtioDev
store_address dev offset val =
    if offset == 0x080
    then on_queue dev (λ q. record q { desc_addr = set_low q.desc_addr val })
    else if offset == 0x084
    then on_queue dev (λ q. record q { desc_addr = set_high q.desc_addr val })
    else if offset == 0x090
    then on_queue dev (λ q. record q { avail_addr = set_low q.avail_addr val })
    else if offset == 0x094
    then on_queue dev (λ q. record q { avail_addr = set_high q.avail_addr val })
    else if offset == 0x0A0
    then on_queue dev (λ q. record q { used_addr = set_low q.used_addr val })
    else if offset == 0x0A4
    then on_queue dev (λ q. record q { used_addr = set_high q.used_addr val })
    else dev

-- The registers that change only the device.
pub store_register : VirtioDev → ℕ → ℕ → VirtioDev
store_register dev offset val =
    if offset == 0x014
    then record dev { dev_features_sel = u32 val }
    else if offset == 0x020
    then (if dev.drv_features_sel == 0
        then record dev { drv_features = set_low dev.drv_features val }
        else if dev.drv_features_sel == 1
        then record dev { drv_features = set_high dev.drv_features val }
        else dev)
    else if offset == 0x024
    then record dev { drv_features_sel = u32 val }
    else if offset == 0x030
    then record dev { queue_sel = u32 val }
    else if offset == 0x038
    then on_queue dev (λ q. record q { num = u32 val })
    else if offset == 0x044
    then on_queue dev (λ q. record q { ready = u32 val })
    else if offset == 0x064
    then record dev { int_status = dev.int_status &&& not32 (u32 val) }
    else if offset == 0x070
    then store_status dev val
    else store_address dev offset val

module _ (net_process : VirtioDev → ℕ → Memory → ℕ → VirtioDev × Memory) where
  -- A notification of queue `val`.
  unfoldable pub notify : VirtioDev → ℕ → Memory → ℕ → VirtioDev × Memory
  notify dev val ram ram_size =
      if ltb val 4 && nonzero (dev.queues val).ready
      then (if dev.device_id == virtio_dev_blk
          then process_queue dev val ram ram_size
          else if dev.device_id == virtio_dev_net
          then net_process dev val ram ram_size
          else (dev, ram))
      else (dev, ram)

  unfoldable pub virtio_mmio_store : VirtioDev → ℕ → ℕ → Memory → ℕ → VirtioDev × Memory
  virtio_mmio_store dev offset val ram ram_size =
      if offset == 0x050 then notify dev val ram ram_size else (store_register dev offset val, ram)
