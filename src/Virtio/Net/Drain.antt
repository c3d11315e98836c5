-- ===== src/Virtio/Net/Drain.antt =====
-- extension/rv64_virtio_net.c: the drain of the receive ring ends.
use pglinux.Base.{
  ℕ, zero, suc, ◌+◌, ◌-◌, ◌<◌, ◌≤◌, ◌≡◌, ◌^◌, refl, ◌∙◌, Bool, true, false, not, ◌&&◌, Option, none,
  some, ◌==◌, leb, ◌⊎◌, inl, inr, Bool-cases, if_both, arith,
}
use pglinux.Word.{u32}
use pglinux.Ram.{Memory}
use pglinux.Virtio.{VirtioDev}
use pglinux.Virtio.Blk.{VringDesc}
use pglinux.Virtio.Net.{avail_head, desc_or, deliver_one, drain}

-- The ring of `d` is that of `dev` with its oldest packets taken, all of them or as many as the
-- available ring had room for.
pub record Drained (dev : VirtioDev) (avail : ℕ) (d : VirtioDev) : Type 0 where
  pub head : d.rx_head ≡ dev.rx_head
  pub sizes : d.rx_sizes ≡ dev.rx_sizes
  pub bytes : d.rx_data ≡ dev.rx_data
  pub from : dev.rx_tail ≤ d.rx_tail
  pub upto : d.rx_tail ≤ d.rx_head
  pub stop : (d.rx_tail ≡ d.rx_head) ⊎ ((d.queues 0).last_avail ≡ avail)

unfoldable pub DrainDone : VirtioDev → ℕ → Option (Bool × VirtioDev × Memory) → Type 0
DrainDone dev avail none = ⊥
DrainDone dev avail (some (pushed, d, ram)) = Drained dev avail d

-- One packet was taken.
record Taken (dev d : VirtioDev) : Type 0 where
  head : d.rx_head ≡ dev.rx_head
  sizes : d.rx_sizes ≡ dev.rx_sizes
  bytes : d.rx_data ≡ dev.rx_data
  tail : d.rx_tail ≡ u32 (dev.rx_tail + 1)

module _ (stale : VringDesc) where
  deliver_one-Taken :
      (pushed : Bool) (dev : VirtioDev) (ram : Memory)
      → Taken dev (deliver_one stale pushed dev ram).1
  unfolding deliver_one
  deliver_one-Taken pushed dev ram =
      let vq = dev.queues 0 in
      let taken = λ (d : VirtioDev). d in
      if_both (λ (r : Bool × VirtioDev × Memory). Taken dev r.1)
        (leb 10
          (desc_or vq dev.ram_size ram (avail_head vq dev.ram_size ram vq.last_avail) stale).len)
        (record { head = refl; sizes = refl; bytes = refl; tail = refl })
        (record { head = refl; sizes = refl; bytes = refl; tail = refl })

  drained_later :
      (dev d : VirtioDev) (avail : ℕ) (o : Option (Bool × VirtioDev × Memory))
      → Taken dev d
      → dev.rx_tail ≤ d.rx_tail
      → DrainDone d avail o
      → DrainDone dev avail o
  unfolding DrainDone
  drained_later dev d avail none t le h = h
  drained_later dev d avail (some (pushed, e, ram)) t le h = record {
    head = h.head ∙ t.head;
    sizes = h.sizes ∙ t.sizes;
    bytes = h.bytes ∙ t.bytes;
    from = omega (arith, h.from, le);
    upto = h.upto;
    stop = h.stop;
  }

  -- The drain of the receive ring ends within one turn for each packet in it and one more. It takes
  -- the oldest packets, and it stops where the ring is empty or the available ring used up, as long
  -- as its counters are below 2 ^ 31.
  pub drain_ends :
      (fuel avail : ℕ) (pushed : Bool) (dev : VirtioDev) (ram : Memory)
      → dev.rx_tail ≤ dev.rx_head
      → dev.rx_head - dev.rx_tail < fuel
      → dev.rx_head < 2 ^ 31
      → DrainDone dev avail (drain stale fuel avail pushed dev ram)
  unfolding drain DrainDone
  drain_ends zero avail pushed dev ram ordered enough small = absurd (omega (arith, enough))
  drain_ends (suc fuel) avail pushed dev ram ordered enough small =
      elim (Bool-cases
        (not (dev.rx_head == dev.rx_tail) && not ((dev.queues 0).last_avail == avail))) [
          | inr stop ↦
              rw (drain, stop)
                (record {
                  head = refl;
                  sizes = refl;
                  bytes = refl;
                  from = omega arith;
                  upto = ordered;
                  stop = stopped (dev.rx_head == dev.rx_tail) refl stop;
                })
          | inl go ↦
              let t = deliver_one-Taken pushed dev ram in
              let r = deliver_one stale pushed dev ram in
              let left : dev.rx_tail < dev.rx_head = ground (arith, go, ordered) in
              let next : r.1.rx_tail ≡ dev.rx_tail + 1 = omega (arith, t.tail, small, left) in
              rw (drain, go)
                (drained_later dev r.1 avail _ t (omega (arith, next)) (
                  drain_ends fuel avail r.0 r.1 r.2 (omega (arith, next, t.head, left))
                    (omega (arith, next, t.head, enough, left)) (omega (arith, t.head, small))))
        ]
    where
      stopped :
          (b : Bool)
          → (dev.rx_head == dev.rx_tail) ≡ b
          → (not (dev.rx_head == dev.rx_tail) && not ((dev.queues 0).last_avail == avail)) ≡ false
          → (dev.rx_tail ≡ dev.rx_head) ⊎ ((dev.queues 0).last_avail ≡ avail)
      stopped true e h = inl (ground (arith, e))
      stopped false e h = inr (ground (arith, e, h))
