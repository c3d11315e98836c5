-- ===== src/Virtio/Net/Dead.antt =====
-- extension/rv64_virtio.c and rv64_virtio_net.c: what a driver reset leaves of the network device.
use Prim.{Unit, tt}
use pglinux.Base.{
  ℕ, zero, suc, ◌+◌, ◌≡◌, refl, ◌∙◌, false, ◌&&◌, List, [], ◌∷◌, Option, none, some, ◌==◌, ltb,
  if_both, if_split, if_no, Bool-cases, inl, inr, if◌then◌else◌, update, arith,
}
use pglinux.Word.{u16, u64, nonzero, ◌|||◌}
use pglinux.Ram.{Memory}
use pglinux.Virtio.{VirtioDev, VirtioQueue, Packet}
use pglinux.Virtio.Blk.{VringDesc, put_used}
use pglinux.Virtio.Mmio.{store_status, notify, virtio_mmio_store}
use pglinux.Virtio.Mmio.Registers.{store_register-P}
use pglinux.Virtio.Mmio.Reset.{stores}
use pglinux.Virtio.Net.{
  gather, avail_head, word_or_zero, hand_over, transmit_all, virtio_net_process_queue,
  virtio_net_poll,
}

-- A network device without the library's state, which was handed the packets `ps`.
Cut : List Packet → VirtioDev → Type 0
Cut ps dev = (dev.device_id ≡ 1) × (dev.slirp ≡ false) × (dev.inputs ≡ ps)

same_fields :
    (ps : List Packet) (d e : VirtioDev)
    → e.device_id ≡ d.device_id
    → e.slirp ≡ d.slirp
    → e.inputs ≡ d.inputs
    → Cut ps d
    → Cut ps e
unfolding Cut
same_fields ps d e i l n (k, a, b) = (i ∙ k, l ∙ a, n ∙ b)

store_status-Cut :
    (ps : List Packet) (dev : VirtioDev) (val : ℕ) → Cut ps dev → Cut ps (store_status dev val)
unfolding store_status Cut
store_status-Cut ps dev val (k, a, b) = if_both (Cut ps) (val == 0) (k, refl, b) (k, a, b)

reset-Cut : (dev : VirtioDev) → dev.device_id ≡ 1 → Cut dev.inputs (store_status dev 0)
unfolding store_status Cut
reset-Cut dev h = (h, refl, refl)

-- A result, or what there was.
abbrev or_same : VirtioDev → Memory → Option (VirtioDev × Memory) → VirtioDev × Memory
or_same dev ram none = (dev, ram)
or_same dev ram (some r) = r

module _ (replies : VirtioDev → Packet → List Packet) (stale : VringDesc) (stale_bytes : Memory)
    (chain : ℕ) where
  hand_over-Cut :
      (ps : List Packet) (dev : VirtioDev) (p : Packet)
      → Cut ps dev
      → Cut ps (hand_over replies dev p)
  unfolding hand_over Cut
  hand_over-Cut ps dev p u =
      if_split (Cut ps) (ltb 10 p.size && dev.slirp) (λ on. absurd (ground (arith, on, u.1)))
        λ off. u

  CutOut : List Packet → Option (ℕ × VirtioDev × Memory) → Type 0
  CutOut ps none = Unit
  CutOut ps (some (last, dev, ram)) = Cut ps dev

  transmit_all-Cut :
      (vq : VirtioQueue) (ram_size fuel last avail : ℕ) (ps : List Packet) (dev : VirtioDev)
      (ram : Memory)
      → Cut ps dev
      → CutOut ps (transmit_all replies stale stale_bytes vq ram_size chain fuel last avail dev ram)
  unfolding transmit_all CutOut
  transmit_all-Cut vq ram_size zero last avail ps dev ram u = tt
  transmit_all-Cut vq ram_size (suc fuel) last avail ps dev ram u =
      elim (Bool-cases (last == avail)) [
        | inl same ↦ rw (transmit_all, same) u
        | inr other ↦
            rw (transmit_all, other)
              (after
                (gather vq ram_size chain (avail_head vq ram_size ram last) stale ram
                  (record { size = 0; bytes = stale_bytes }))
                λ p.
                  transmit_all-Cut vq ram_size fuel (u16 (last + 1)) avail ps
                    (hand_over replies dev p)
                    (put_used vq ram_size (avail_head vq ram_size ram last) 0 ram)
                    (hand_over-Cut ps dev p u))
      ]
    where
      next : Packet → Option (ℕ × VirtioDev × Memory)
      next p =
          transmit_all replies stale stale_bytes vq ram_size chain fuel (u16 (last + 1)) avail
            (hand_over replies dev p) (put_used vq ram_size (avail_head vq ram_size ram last) 0 ram)

      after :
          (o : Option Packet)
          → ((p : Packet) → CutOut ps (next p))
          → CutOut ps (elim o [ none ↦ none | some p ↦ next p ])
      after none more = tt
      after (some p) more = more p

  -- The processing of a queue as far as it has got: nothing, where it does not return.
  abbrev pub process : VirtioDev → ℕ → Memory → ℕ → VirtioDev × Memory
  process dev qid ram ram_size =
      or_same dev ram
        (virtio_net_process_queue replies stale stale_bytes chain dev qid ram ram_size)

  process-Cut :
      (ps : List Packet) (dev : VirtioDev) (qid : ℕ) (ram : Memory) (ram_size : ℕ)
      → Cut ps dev
      → Cut ps (process dev qid ram ram_size).0
  unfolding virtio_net_process_queue CutOut
  process-Cut ps dev qid ram ram_size u =
      if_both (λ (o : Option (VirtioDev × Memory)). Cut ps (or_same dev ram o).0) (qid == 1)
        (after
          (transmit_all replies stale stale_bytes vq ram_size chain 65536 vq.last_avail avail dev
            ram)
          (transmit_all-Cut vq ram_size 65536 vq.last_avail avail ps dev ram u))
        u
    where
      vq : VirtioQueue
      vq = dev.queues 1

      avail : ℕ
      avail = word_or_zero ram ram_size (u64 (vq.avail_addr + 2))

      after :
          (o : Option (ℕ × VirtioDev × Memory))
          → CutOut ps o
          → Cut ps
              (or_same dev ram (elim o [
                | none ↦ none
                | some (last, dev', ram') ↦ some (
                  record dev' {
                    queues = update dev'.queues 1 (record (dev'.queues 1) { last_avail = last });
                    int_status =
                        if last == vq.last_avail then dev'.int_status else dev'.int_status ||| 1;
                  },
                  ram',
                )
              ])).0
      after none h = u
      after (some (last, dev', ram')) h = same_fields ps dev' _ refl refl refl h

  module _ (ram_size : ℕ) where
    virtio_mmio_store-Cut :
        (ps : List Packet) (dev : VirtioDev) (offset val : ℕ) (ram : Memory)
        → Cut ps dev
        → Cut ps (virtio_mmio_store process dev offset val ram ram_size).0
    unfolding virtio_mmio_store notify Cut
    virtio_mmio_store-Cut ps dev offset val ram u =
        let P : VirtioDev × Memory → Type 0 = λ r. Cut ps r.0 in
        if_both P (offset == 0x050)
          (if_both P (ltb val 4 && nonzero (dev.queues val).ready)
            (if_split P (dev.device_id == 2) (λ blk. absurd (ground (arith, blk, u.0)))
              (λ other. if_both P (dev.device_id == 1) (process-Cut ps dev val ram ram_size u) u))
            u)
          (store_register-P (Cut ps) (λ d e i l t k n. same_fields ps d e i l n)
            (λ d v. store_status-Cut ps d v) dev offset val u)

    stores-Cut :
        (ps : List Packet) (ws : List (ℕ × ℕ)) (dev : VirtioDev) (ram : Memory)
        → Cut ps dev
        → Cut ps (stores process ram_size ws dev ram).0
    stores-Cut ps [] dev ram u = u
    stores-Cut ps ((offset, val) ∷ rest) dev ram u =
        stores-Cut ps rest _ _ (virtio_mmio_store-Cut ps dev offset val ram u)

    -- After the driver reset a network device, whatever it then stores to its registers, no packet is
    -- handed to the library and the poll of the device does nothing: the reset drops the library's
    -- state.
    pub reset_cuts :
        (arrivals : VirtioDev → List Packet) (dev : VirtioDev) (ws : List (ℕ × ℕ)) (ram : Memory)
        → dev.device_id ≡ 1
        → let r = stores process ram_size ws (store_status dev 0) ram in
          (r.0.inputs ≡ dev.inputs) × (virtio_net_poll stale arrivals r.0 r.1 ≡ (r.0, r.1))
    unfolding virtio_net_poll Cut
    reset_cuts arrivals dev ws ram h =
        let r = stores process ram_size ws (store_status dev 0) ram in
        let u = stores-Cut dev.inputs ws (store_status dev 0) ram (reset-Cut dev h) in
        (u.2, if_no r.0.slirp _ _ u.1)
