-- ===== src/Virtio/Blk.antt =====
-- extension/rv64_virtio.c: `virtio_blk_process_queue`, the block request queue.
pub mod Terminates
pub mod Untracked
use pglinux.Base.{
  ℕ, zero, suc, ◌+◌, ◌-◌, ◌*◌, ◌/◌, ◌%◌, ◌^◌, Bool, true, false, not, ◌&&◌, ◌||◌, ◌∷◌, Option, none,
  some, ◌==◌, ltb, if◌then◌else◌, update,
}
use pglinux.Word.{u16, u32, u64, nonzero, ◌&&&◌, ◌|||◌}
use pglinux.Ram.{Memory}
use pglinux.Virtio.{VirtioDev, VirtioQueue, ram_base, in_guest, guest_read, guest_write, copy_bytes}

-- struct vring_desc
pub record VringDesc : Type 0 where
  pub addr : ℕ
  pub len : ℕ
  pub flags : ℕ
  pub next : ℕ

-- The descriptor in 16 bytes.
unfoldable pub desc_of : ℕ → VringDesc
desc_of v = record {
  addr = u64 v;
  len = u32 (v / 2 ^ 64);
  flags = u16 (v / 2 ^ 96);
  next = u16 (v / 2 ^ 112);
}

unfoldable pub has_next : VringDesc → Bool
has_next d = nonzero (d.flags &&& 1)

-- struct virtio_blk_req_hdr, 16 bytes: type, reserved, sector.
pub record BlkReqHdr : Type 0 where
  pub type : ℕ
  pub sector : ℕ

pub hdr_of : ℕ → BlkReqHdr
hdr_of v = record { type = u32 v; sector = u64 (v / 2 ^ 64) }

-- The variables of the chain walk; `past_header` is phase ≥ 1, after which the code never asks
-- for the phase. The header is read before it is used; until then it is all zero here.
pub record Request : Type 0 where
  pub dev : VirtioDev
  pub ram : Memory
  pub hdr : BlkReqHdr
  pub status : ℕ
  pub past_header : Bool
  pub total_bytes : ℕ

-- VIRTIO_BLK_T_IN: from the disk to the guest.
pub read_data : ℕ → Request → VringDesc → Request
read_data ram_size r d =
    let disk_offset = u64 (r.hdr.sector * 512) in
    if ltb r.dev.disk_size (u64 (disk_offset + d.len))
    then record r { status = 1 }
    else if in_guest ram_size d.addr d.len
    then record r {
      ram = copy_bytes r.ram (d.addr - ram_base) r.dev.disk_data disk_offset d.len;
      total_bytes = u32 (r.total_bytes + d.len);
      dev = record r.dev {
        blk_reads = u64 (r.dev.blk_reads + 1);
        blk_bytes_read = u64 (r.dev.blk_bytes_read + d.len);
      };
    }
    else record r { status = 1 }

-- VIRTIO_BLK_T_OUT: from the guest to the disk, with the call of the dirty tracker.
pub write_data : ℕ → Request → VringDesc → Request
write_data ram_size r d =
    let disk_offset = u64 (r.hdr.sector * 512) in
    if ltb r.dev.disk_size (u64 (disk_offset + d.len))
    then record r { status = 1 }
    else if in_guest ram_size d.addr d.len
    then record r {
      total_bytes = u32 (r.total_bytes + d.len);
      dev = record r.dev {
        disk_data = copy_bytes r.dev.disk_data disk_offset r.ram (d.addr - ram_base) d.len;
        blk_writes = u64 (r.dev.blk_writes + 1);
        blk_bytes_written = u64 (r.dev.blk_bytes_written + d.len);
        marked = if r.dev.mark_dirty then (disk_offset, d.len) ∷ r.dev.marked else r.dev.marked;
      };
    }
    else record r { status = 1 }

-- hdr.sector += desc.len / 512
pub advance : Request → VringDesc → Request
advance r d = record r { hdr = record r.hdr { sector = u64 (r.hdr.sector + d.len / 512) } }

-- A data descriptor.
pub data_desc : ℕ → Request → VringDesc → Request
data_desc ram_size r d =
    if r.hdr.type == 0
    then advance (read_data ram_size r d) d
    else if r.hdr.type == 1
    then advance (write_data ram_size r d) d
    else if r.hdr.type == 4
    then record r { status = 0 }
    else record r { status = 2 }

-- Is this the status descriptor? The last one, or a writable one of one byte.
pub is_status : VringDesc → Bool
is_status d = not (has_next d) || (nonzero (d.flags &&& 2) && d.len == 1)

module _ (vq : VirtioQueue) (ram_size : ℕ) where
  read_desc : Memory → ℕ → Option ℕ
  read_desc ram idx = guest_read ram ram_size (u64 (vq.desc_addr + idx * 16)) 16

  -- The walk over the chain from descriptor `idx`, with `left` rounds of the safety limit to go.
  pub walk_chain : ℕ → ℕ → Request → Request
  walk_chain zero idx r = r
  walk_chain (suc left) idx r = elim (read_desc r.ram idx) [
    | none ↦ record r { status = 1 }
    | some v ↦
        let d = desc_of v in
        if r.past_header
        then (let r' = if is_status d then r else data_desc ram_size r d in
            let rest = walk_chain left d.next r' in if has_next d then rest else r')
        else if ltb d.len 16
        then record r { status = 1 }
        else elim (guest_read r.ram ram_size d.addr 16) [
          | none ↦ record r { status = 1 }
          | some h ↦
              let r' = record r { hdr = hdr_of h; past_header = true } in
              let rest = walk_chain left d.next r' in if has_next d then rest else r'
        ]
  ]

  -- The second walk: the last descriptor that was read.
  pub find_last : ℕ → ℕ → Memory → VringDesc → VringDesc
  find_last zero idx ram d = d
  find_last (suc left) idx ram d =
      let d' : VringDesc = elim (read_desc ram idx) [ none ↦ d | some v ↦ desc_of v ] in
      let rest = find_last left d'.next ram d' in if has_next d' then rest else d'

  -- The status byte goes to the buffer of the last descriptor.
  pub put_status : ℕ → Request → Memory
  put_status head r =
      if r.past_header
      then (let d = find_last vq.num head r.ram (desc_of 0) in
          elim (guest_write r.ram ram_size d.addr 1 r.status) [ none ↦ r.ram | some m ↦ m ])
      else r.ram

  -- guest_write whose result is not looked at.
  try_write : Memory → ℕ → ℕ → ℕ → Memory
  try_write ram addr n val = elim (guest_write ram ram_size addr n val) [ none ↦ ram | some m ↦ m ]

  -- The element (id, len) goes to the used ring, and its index grows by one.
  pub put_used : ℕ → ℕ → Memory → Memory
  put_used head total ram =
      let used_idx : ℕ = elim (guest_read ram ram_size (u64 (vq.used_addr + 2)) 2) [
        | none ↦ 0
        | some v ↦ v
      ] in
      let slot = used_idx % vq.num in
      let ram' = try_write ram (u64 (vq.used_addr + 4 + slot * 8)) 8 (head + total * 2 ^ 32) in
      try_write ram' (u64 (vq.used_addr + 2)) 2 (u16 (used_idx + 1))

  -- One request: its chain, its status byte and its used element.
  pub serve : ℕ → VirtioDev → Memory → VirtioDev × Memory
  serve head dev ram =
      let r = walk_chain vq.num head (record {
        dev = dev;
        ram = ram;
        hdr = hdr_of 0;
        status = 0;
        past_header = false;
        total_bytes = 0;
      }) in
      (r.dev, put_used head r.total_bytes (put_status head r))

  -- The loop over the available ring. `none`: the fuel ran out. The last number is
  -- `vq->last_avail` at the end.
  pub serve_all : ℕ → ℕ → ℕ → VirtioDev → Memory → Option (ℕ × VirtioDev × Memory)
  serve_all zero last avail dev ram = none
  serve_all (suc fuel) last avail dev ram = elim (last == avail) [
    | true ↦ some (last, dev, ram)
    | false ↦ elim (guest_read ram ram_size (u64 (vq.avail_addr + 4 + u16 (last % vq.num) * 2)) 2) [
      | none ↦ some (last, dev, ram)
      | some head ↦
          let (dev', ram') = serve head dev ram in serve_all fuel (u16 (last + 1)) avail dev' ram'
    ]
  ]

-- `queue` is the index of the queue in the device. A queue of size 0, at which C divides by zero,
-- is taken at `n % 0 = n`.
pub process_queue : VirtioDev → ℕ → Memory → ℕ → VirtioDev × Memory
process_queue dev queue ram ram_size =
    let vq = dev.queues queue in
    if not (nonzero vq.ready) || not (nonzero vq.desc_addr)
    then (dev, ram)
    else elim (guest_read ram ram_size (u64 (vq.avail_addr + 2)) 2) [
      | none ↦ (dev, ram)
      | some avail ↦ elim (serve_all vq ram_size 65536 vq.last_avail avail dev ram) [
        | none ↦ (dev, ram)
        | some (last, dev', ram') ↦ (
          record dev' {
            queues = update dev'.queues queue (record (dev'.queues queue) { last_avail = last });
            int_status = if last == vq.last_avail then dev'.int_status else dev'.int_status ||| 1;
          },
          ram',
        )
      ]
    ]
