-- ===== src/Virtio/Net.antt =====
-- extension/rv64_virtio_net.c: the network device. The slirp library is a parameter: `replies` and
-- `arrivals` are the packets that `slirp_input` and `slirp_pollfds_poll` hand to the callback
-- `slirp_send_packet` before they return. `stale` and `stale_bytes` are the descriptor and the packet
-- buffer as the stack left them. Sizes and addresses wrap as the C types do; the copies into the
-- packet buffer are not cut at its end. The drain reads the
-- ring at a counter below 2 ^ 31; from there on rx_tail is negative and the read before the ring.
pub mod Ring
pub mod Cycle
pub mod Drain
pub mod Dead
use pglinux.Base.{
  ℕ, zero, suc, ◌+◌, ◌-◌, ◌*◌, ◌%◌, ◌^◌, Bool, true, false, not, ◌&&◌, List, [], ◌∷◌, Option, none,
  some, ◌==◌, ltb, leb, if◌then◌else◌, update,
}
use pglinux.Base.Int.{ℤ, pos, negsuc, signed, remainder}
use pglinux.Word.{u16, u32, u64, nonzero, ◌|||◌}
use pglinux.Ram.{Memory}
use pglinux.Virtio.{
  VirtioDev, VirtioQueue, Packet, cleared, virtio_dev_net, ram_base, in_guest, guest_read,
  copy_bytes,
}
use pglinux.Virtio.Blk.{VringDesc, desc_of, has_next, put_used}

-- rx_head and rx_tail are ints, as 32-bit patterns. rx_head - rx_tail >= 256
unfoldable pub ring_full : VirtioDev → Bool
ring_full dev =
    let waiting = u32 (dev.rx_head + 2 ^ 32 - dev.rx_tail) in
    leb 256 waiting && ltb waiting (2 ^ 31)

-- An array after a write at an index. One below 0 is before the array.
abbrev pub put_at {ℓ} : {A : Type ℓ} → (ℕ → A) → ℤ → A → ℕ → A
put_at f (pos i) v = update f i v
put_at f (negsuc i) v = f

-- rx_head % 256
unfoldable pub ring_index : ℕ → ℤ
ring_index head = remainder (signed 32 head) (pos 256)

-- `slirp_send_packet`: a full ring drops the packet, a long packet is cut.
unfoldable pub slirp_send_packet : VirtioDev → Packet → VirtioDev
slirp_send_packet dev p =
    if ring_full dev
    then dev
    else (let len = if ltb 2048 p.size then 2048 else p.size in
        let idx = ring_index dev.rx_head in
        let old = dev.rx_data (dev.rx_head % 256) in
        record dev {
          rx_sizes = put_at dev.rx_sizes idx len;
          rx_data = put_at dev.rx_data idx (copy_bytes old 0 p.bytes 0 len);
          rx_head = u32 (dev.rx_head + 1);
        })

unfoldable pub send_all : VirtioDev → List Packet → VirtioDev
send_all dev [] = dev
send_all dev (p ∷ ps) = send_all (slirp_send_packet dev p) ps

-- `virtio_net_init`; `slirp_new` and `slirp_add_hostfwd` are the library's.
pub virtio_net_init : VirtioDev → ℕ → ℕ → VirtioDev
virtio_net_init dev irq ram_size = record (cleared dev) {
  device_id = virtio_dev_net;
  irq = irq;
  ram_size = ram_size;
  slirp = true;
}

-- A 16-bit word that a failed read leaves at 0.
unfoldable pub word_or_zero : Memory → ℕ → ℕ → ℕ
word_or_zero ram ram_size addr = elim (guest_read ram ram_size addr 2) [ none ↦ 0 | some v ↦ v ]

-- A descriptor, that a failed read leaves as it was.
unfoldable pub desc_or : VirtioQueue → ℕ → Memory → ℕ → VringDesc → VringDesc
desc_or vq ram_size ram idx old =
    elim (guest_read ram ram_size (u64 (vq.desc_addr + idx * 16)) 16) [
      | none ↦ old
      | some v ↦ desc_of v
    ]

-- guest_read of `len` bytes to offset `at` of a buffer, and guest_write of a buffer, whose results
-- are not looked at.
unfoldable pub read_into : Memory → ℕ → ℕ → Memory → ℕ → ℕ → Memory
read_into ram ram_size addr buf at len =
    if in_guest ram_size addr len then copy_bytes buf at ram (addr - ram_base) len else buf

unfoldable pub write_from : Memory → ℕ → ℕ → Memory → ℕ → Memory
write_from ram ram_size addr buf len =
    if in_guest ram_size addr len then copy_bytes ram (addr - ram_base) buf 0 len else ram

module _ (vq : VirtioQueue) (ram_size : ℕ) where
  -- The walk `while (1)` over the chain. `none`: the fuel ran out.
  unfoldable pub gather : ℕ → ℕ → VringDesc → Memory → Packet → Option Packet
  gather zero cur desc ram p = none
  gather (suc fuel) cur desc ram p =
      let d = desc_or vq ram_size ram cur desc in
      let len = u32 (p.size + d.len) in
      let p' : Packet =
        if leb len 65536
        then record { size = len; bytes = read_into ram ram_size d.addr p.bytes p.size d.len }
        else p in
      elim (has_next d) [ false ↦ some p' | true ↦ gather fuel d.next d ram p' ]

  -- The head of the chain at `last` in the available ring.
  unfoldable pub avail_head : Memory → ℕ → ℕ
  avail_head ram last =
      word_or_zero ram ram_size (u64 (vq.avail_addr + 4 + u16 (last % vq.num) * 2))

module _ (replies : VirtioDev → Packet → List Packet) where
  -- The call of `slirp_input`, without the 10 bytes of the header.
  unfoldable pub hand_over : VirtioDev → Packet → VirtioDev
  hand_over dev p =
      if ltb 10 p.size && dev.slirp
      then (let q : Packet = record { size = p.size - 10; bytes = λ i. p.bytes (i + 10) } in
          let dev1 = record dev { inputs = q ∷ dev.inputs } in send_all dev1 (replies dev1 q))
      else dev

  module _ (stale : VringDesc) (stale_bytes : Memory) where
    -- The loop over the available ring, with `chain` of fuel for each walk.
    unfoldable pub transmit_all :
        VirtioQueue → ℕ → ℕ → ℕ → ℕ → ℕ → VirtioDev → Memory → Option (ℕ × VirtioDev × Memory)
    transmit_all vq ram_size chain zero last avail dev ram = none
    transmit_all vq ram_size chain (suc fuel) last avail dev ram = elim (last == avail) [
      | true ↦ some (last, dev, ram)
      | false ↦
          let head = avail_head vq ram_size ram last in
          elim (gather vq ram_size chain head stale ram
            (record { size = 0; bytes = stale_bytes })) [
              | none ↦ none
              | some p ↦
                  transmit_all vq ram_size chain fuel (u16 (last + 1)) avail (hand_over dev p)
                    (put_used vq ram_size head 0 ram)
            ]
    ]

    -- `virtio_net_process_queue`. `none`: it has not returned.
    unfoldable pub virtio_net_process_queue :
        ℕ → VirtioDev → ℕ → Memory → ℕ → Option (VirtioDev × Memory)
    virtio_net_process_queue chain dev qid ram ram_size =
        if qid == 1
        then (let vq = dev.queues 1 in
            let avail = word_or_zero ram ram_size (u64 (vq.avail_addr + 2)) in
            elim (transmit_all vq ram_size chain 65536 vq.last_avail avail dev ram) [
              | none ↦ none
              | some (last, dev', ram') ↦ some (
                record dev' {
                  queues = update dev'.queues 1 (record (dev'.queues 1) { last_avail = last });
                  int_status =
                      if last == vq.last_avail then dev'.int_status else dev'.int_status ||| 1;
                },
                ram',
              )
            ])
        else some (dev, ram)

module _ (stale : VringDesc) where
  -- One turn of the drain: the oldest packet goes to the next descriptor, or is dropped if the header
  -- does not fit there. The flag is `pushed`.
  unfoldable pub deliver_one : Bool → VirtioDev → Memory → Bool × VirtioDev × Memory
  deliver_one pushed dev ram =
      let vq = dev.queues 0 in
      let r_idx = dev.rx_tail % 256 in
      let curlen = dev.rx_sizes r_idx in
      let head = avail_head vq dev.ram_size ram vq.last_avail in
      let d = desc_or vq dev.ram_size ram head stale in
      let popped = record dev { rx_tail = u32 (dev.rx_tail + 1) } in
      if leb 10 d.len
      then (let to_copy = if ltb (d.len - 10) curlen then d.len - 10 else curlen in
          let ram1 = write_from ram dev.ram_size d.addr (λ _. 0) 10 in
          let ram2 = write_from ram1 dev.ram_size (u64 (d.addr + 10)) (dev.rx_data r_idx) to_copy in
          (
            true,
            record popped {
              queues = update dev.queues 0 (record vq { last_avail = u16 (vq.last_avail + 1) });
            },
            put_used vq dev.ram_size head (10 + to_copy) ram2,
          ))
      else (pushed, popped, ram)

  unfoldable pub drain : ℕ → ℕ → Bool → VirtioDev → Memory → Option (Bool × VirtioDev × Memory)
  drain zero avail pushed dev ram = none
  drain (suc fuel) avail pushed dev ram =
      elim (not (dev.rx_head == dev.rx_tail) && not ((dev.queues 0).last_avail == avail)) [
        | false ↦ some (pushed, dev, ram)
        | true ↦ let (p, d, m) = deliver_one pushed dev ram in drain fuel avail p d m
      ]

  -- `virtio_net_poll`. The fuel is one turn for each packet in the ring and one for the end.
  unfoldable pub virtio_net_poll :
      (VirtioDev → List Packet) → VirtioDev → Memory → VirtioDev × Memory
  virtio_net_poll arrivals dev ram =
      if dev.slirp
      then (let dev1 = send_all dev (arrivals dev) in
          let vq = dev1.queues 0 in
          if nonzero vq.ready && not (dev1.rx_head == dev1.rx_tail)
          then (let avail = word_or_zero ram dev1.ram_size (u64 (vq.avail_addr + 2)) in
              elim (drain (suc (u32 (dev1.rx_head + 2 ^ 32 - dev1.rx_tail))) avail false dev1 ram) [
                | none ↦ (dev1, ram)
                | some (pushed, d, m) ↦
                    ((if pushed then record d { int_status = d.int_status ||| 1 } else d), m)
              ])
          else (dev1, ram))
      else (dev, ram)
