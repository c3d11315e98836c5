-- ===== src/Virtio/Net/Cycle.antt =====
-- extension/rv64_virtio_net.c: a chain of descriptors that comes back to itself. The walk of the
-- network device has no limit, unlike that of the block device.
use pglinux.Base.{
  ℕ, zero, suc, ◌+◌, ◌*◌, ◌≡◌, refl, ap, ◌∙◌, true, false, Option, none, some, ◌==◌, leb,
  if◌then◌else◌, case_true, case_false, List,
}
use pglinux.Word.{u32, u64, u16}
use pglinux.Ram.{Memory}
use pglinux.Virtio.{VirtioDev, VirtioQueue, Packet, guest_read}
use pglinux.Virtio.Blk.{VringDesc, desc_of, has_next, put_used}
use pglinux.Virtio.Net.{
  desc_or, read_into, gather, avail_head, word_or_zero, hand_over, transmit_all,
  virtio_net_process_queue,
}

-- Descriptor `cur` of the queue is readable and has itself as the next one.
pub record IsCycle (vq : VirtioQueue) (ram_size : ℕ) (ram : Memory) (cur : ℕ) : Type 0 where
  pub raw : ℕ
  pub readable : guest_read ram ram_size (u64 (vq.desc_addr + cur * 16)) 16 ≡ some raw
  pub more : has_next (desc_of raw) ≡ true
  pub back : (desc_of raw).next ≡ cur

module _ (vq : VirtioQueue) (ram_size : ℕ) (ram : Memory) (cur : ℕ)
    (cycle : IsCycle vq ram_size ram cur) where
  gather_cycle :
      (fuel : ℕ) (desc : VringDesc) (p : Packet) → gather vq ram_size fuel cur desc ram p ≡ none
  unfolding gather desc_or
  gather_cycle zero desc p = refl
  gather_cycle (suc fuel) desc p =
      ap turn (ap (λ (o : Option ℕ). elim o [ none ↦ desc | some v ↦ desc_of v ]) cycle.readable)
      ∙ case_true (has_next (desc_of cycle.raw)) _ _ cycle.more
      ∙ ap (λ i. gather vq ram_size fuel i (desc_of cycle.raw) ram (with (desc_of cycle.raw)))
          cycle.back
      ∙ gather_cycle fuel (desc_of cycle.raw) (with (desc_of cycle.raw))
    where
      with : VringDesc → Packet
      with d =
          if leb (u32 (p.size + d.len)) 65536
          then record {
            size = u32 (p.size + d.len);
            bytes = read_into ram ram_size d.addr p.bytes p.size d.len;
          }
          else p

      turn : VringDesc → Option Packet
      turn d = elim (has_next d) [
        | false ↦ some (with d)
        | true ↦ gather vq ram_size fuel d.next d ram (with d)
      ]

module _ (replies : VirtioDev → Packet → List Packet) (stale : VringDesc)
    (stale_bytes : Memory) where
  transmit_hangs :
      (vq : VirtioQueue) (ram_size chain fuel last avail cur : ℕ) (dev : VirtioDev) (ram : Memory)
      → (last == avail) ≡ false
      → avail_head vq ram_size ram last ≡ cur
      → IsCycle vq ram_size ram cur
      → transmit_all replies stale stale_bytes vq ram_size chain (suc fuel) last avail dev ram
        ≡ none
  unfolding transmit_all
  transmit_hangs vq ram_size chain fuel last avail cur dev ram waiting first cycle =
      case_false (last == avail) _ _ waiting
      ∙ ap walked (
          ap
            (λ (i : ℕ).
              gather vq ram_size chain i stale ram (record { size = 0; bytes = stale_bytes }))
            first
          ∙ gather_cycle vq ram_size ram cur cycle chain stale _)
    where
      walked : Option Packet → Option (ℕ × VirtioDev × Memory)
      walked o = elim o [
        | none ↦ none
        | some p ↦
            transmit_all replies stale stale_bytes vq ram_size chain fuel (u16 (last + 1)) avail
              (hand_over replies dev p)
              (put_used vq ram_size (avail_head vq ram_size ram last) 0 ram)
      ]

  -- Where the next chain of the transmit queue begins at a descriptor that has itself as the next
  -- one, the processing of the queue does not return, whatever the number of turns of the walk.
  pub process_queue_hangs :
      (chain : ℕ) (dev : VirtioDev) (ram : Memory) (ram_size cur : ℕ)
      → ((dev.queues 1).last_avail
          == word_or_zero ram ram_size (u64 ((dev.queues 1).avail_addr + 2)))
        ≡ false
      → avail_head (dev.queues 1) ram_size ram (dev.queues 1).last_avail ≡ cur
      → IsCycle (dev.queues 1) ram_size ram cur
      → virtio_net_process_queue replies stale stale_bytes chain dev 1 ram ram_size ≡ none
  unfolding virtio_net_process_queue
  process_queue_hangs chain dev ram ram_size cur waiting first cycle =
      rw
        (transmit_hangs (dev.queues 1) ram_size chain 65535 (dev.queues 1).last_avail
          (word_or_zero ram ram_size (u64 ((dev.queues 1).avail_addr + 2))) cur dev ram waiting
          first cycle)
        refl
