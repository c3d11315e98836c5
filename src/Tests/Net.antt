-- ===== src/Tests/Net.antt =====
-- Runs of the theorems on the network device.
use pglinux.Base.{◌+◌, ◌^◌, ◌≡◌, refl, true, false, none, List, [], ◌∷◌, ◌==◌, if◌then◌else◌, arith}
use pglinux.Ram.{Memory, read_bytes}
use pglinux.Virtio.{VirtioDev, Packet, in_guest, guest_read}
use pglinux.Virtio.Blk.{VringDesc, desc_of, has_next}
use pglinux.Virtio.Mmio.{store_status}
use pglinux.Virtio.Mmio.Reset.{stores}
use pglinux.Virtio.Net.{
  slirp_send_packet, word_or_zero, avail_head, drain, virtio_net_process_queue, virtio_net_poll,
}
use pglinux.Virtio.Net.Ring.{IsRing, contents, push, packet, send_refines}
use pglinux.Virtio.Net.Cycle.{IsCycle, process_queue_hangs}
use pglinux.Virtio.Net.Drain.{DrainDone, drain_ends}
use pglinux.Virtio.Net.Dead.{process, reset_cuts}
use pglinux.Tests.Data.{idle_dev, idle_queue}

-- A device with two packets in its ring and one free buffer of the guest.
abbrev net_dev : VirtioDev
net_dev = record idle_dev {
  device_id = 1;
  slirp = true;
  ram_size = 0x10000;
  rx_sizes = (λ _. 60);
  rx_head = 259;
  rx_tail = 257;
  queues = λ _. record idle_queue {
    num = 4;
    ready = 1;
    desc_addr = 0x80000000;
    avail_addr = 0x80000100;
    used_addr = 0x80000200;
  };
}

abbrev long_packet : Packet
long_packet = record { size = 3000; bytes = (λ i. 7) }

net_dev-IsRing : IsRing net_dev
net_dev-IsRing = record { ordered = omega arith; within = omega arith }

send_refines_example :
    contents (slirp_send_packet net_dev long_packet) ≡ push (contents net_dev) (packet long_packet)
send_refines_example = send_refines net_dev long_packet net_dev-IsRing (omega arith)

-- Descriptor 0 has the flag NEXT and itself as the next one, and is the first available one.
abbrev looping_ram : Memory
looping_ram i = if i == 0x102 then 1 else if i == 12 then 1 else 0

abbrev junk : VringDesc
junk = record { addr = 1; len = 2; flags = 3; next = 4 }

looping : IsCycle (net_dev.queues 1) 0x10000 looping_ram 0
unfolding guest_read in_guest read_bytes desc_of has_next
looping = record { raw = 2 ^ 96; readable = refl; more = refl; back = refl }

one_waits :
    ((net_dev.queues 1).last_avail
      == word_or_zero looping_ram 0x10000 ((net_dev.queues 1).avail_addr + 2))
    ≡ false
unfolding word_or_zero guest_read in_guest read_bytes
one_waits = refl

first_head : avail_head (net_dev.queues 1) 0x10000 looping_ram 0 ≡ 0
unfolding avail_head word_or_zero guest_read in_guest read_bytes
first_head = refl

abbrev no_reply : VirtioDev → Packet → List Packet
no_reply dev p = []

process_queue_hangs_example :
    virtio_net_process_queue no_reply junk looping_ram 1000000 net_dev 1 looping_ram 0x10000 ≡ none
process_queue_hangs_example =
    process_queue_hangs no_reply junk looping_ram 1000000 net_dev looping_ram 0x10000 0 one_waits
      first_head looping

drain_ends_example : DrainDone net_dev 1 (drain junk 3 1 false net_dev looping_ram)
drain_ends_example =
    drain_ends junk 3 1 false net_dev looping_ram (omega arith) (omega arith) (omega arith)

reset_cuts_example :
    let r =
      stores
        (process no_reply junk looping_ram 5)
        0x10000
        ((0x030, 1) ∷ (0x044, 1) ∷ (0x050, 1) ∷ [])
        (store_status net_dev 0)
        looping_ram in
    (r.0.inputs ≡ []) × (virtio_net_poll junk (λ _. long_packet ∷ []) r.0 r.1 ≡ (r.0, r.1))
reset_cuts_example =
    reset_cuts no_reply junk looping_ram 5 0x10000 (λ _. long_packet ∷ []) net_dev
      ((0x030, 1) ∷ (0x044, 1) ∷ (0x050, 1) ∷ []) looping_ram refl
