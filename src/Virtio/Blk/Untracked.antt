-- ===== src/Virtio/Blk/Untracked.antt =====
-- extension/rv64_virtio.c: requests on a device without a dirty tracker.
use pglinux.Base.{
  ℕ, zero, suc, ◌+◌, ◌*◌, ◌≡◌, refl, ◌∙◌, if_both, match_option, true, false, ◌||◌, Option, not,
  ◌==◌, ltb, none, some, if◌then◌else◌, inl, inr, update, ◌%◌,
}
use pglinux.Word.{nonzero, ◌|||◌, u64, u16}
use pglinux.Ram.{Memory}
use pglinux.Virtio.{VirtioDev}
use pglinux.Base.{List, ◌∷◌}
use pglinux.Virtio.{VirtioQueue, in_guest, guest_read}
use pglinux.Base.{Bool-cases}
use pglinux.Virtio.Blk.{
  process_queue, Request, VringDesc, desc_of, has_next, hdr_of, read_data, write_data, advance,
  data_desc, is_status, read_desc, walk_chain, serve, serve_all,
}

-- A block device without a tracker; `m` is what was marked.
unfoldable pub Untracked : List (ℕ × ℕ) → VirtioDev → Type 0
Untracked m dev = (dev.device_id ≡ 2) × (dev.mark_dirty ≡ false) × (dev.marked ≡ m)

pub same_fields :
    (m : List (ℕ × ℕ)) (d e : VirtioDev)
    → e.device_id ≡ d.device_id
    → e.mark_dirty ≡ d.mark_dirty
    → e.marked ≡ d.marked
    → Untracked m d
    → Untracked m e
unfolding Untracked
same_fields m d e i h g (k, a, b) = (i ∙ k, h ∙ a, g ∙ b)

Held : List (ℕ × ℕ) → Request → Type 0
Held m r = Untracked m r.dev

same_dev :
    (m : List (ℕ × ℕ)) (r q : Request)
    → q.dev.device_id ≡ r.dev.device_id
    → q.dev.mark_dirty ≡ r.dev.mark_dirty
    → q.dev.marked ≡ r.dev.marked
    → Held m r
    → Held m q
unfolding Held
same_dev m r q i h g u = same_fields m r.dev q.dev i h g u

marked_lem :
    (m : List (ℕ × ℕ)) (r : Request) (e : ℕ × ℕ)
    → Held m r
    → (if r.dev.mark_dirty then e ∷ r.dev.marked else r.dev.marked) ≡ r.dev.marked
unfolding Held Untracked
marked_lem m r e (k, a, b) = rw (a) refl

read_data-Held :
    (m : List (ℕ × ℕ)) (n : ℕ) (r : Request) (d : VringDesc) → Held m r → Held m (read_data n r d)
unfolding read_data
read_data-Held m n r d h =
    if_both (Held m) (ltb r.dev.disk_size (u64 (u64 (r.hdr.sector * 512) + d.len)))
      (same_dev m r _ refl refl refl h)
      (if_both (Held m) (in_guest n d.addr d.len) (same_dev m r _ refl refl refl h)
        (same_dev m r _ refl refl refl h))

write_data-Held :
    (m : List (ℕ × ℕ)) (n : ℕ) (r : Request) (d : VringDesc) → Held m r → Held m (write_data n r d)
unfolding write_data
write_data-Held m n r d h =
    if_both (Held m) (ltb r.dev.disk_size (u64 (u64 (r.hdr.sector * 512) + d.len)))
      (same_dev m r _ refl refl refl h)
      (if_both (Held m) (in_guest n d.addr d.len)
        (same_dev m r _ refl refl (marked_lem m r (u64 (r.hdr.sector * 512), d.len) h) h)
        (same_dev m r _ refl refl refl h))

data_desc-Held :
    (m : List (ℕ × ℕ)) (n : ℕ) (r : Request) (d : VringDesc) → Held m r → Held m (data_desc n r d)
unfolding data_desc advance
data_desc-Held m n r d h =
    if_both (Held m) (r.hdr.type == 0)
      (same_dev m (read_data n r d) _ refl refl refl (read_data-Held m n r d h))
      (if_both (Held m) (r.hdr.type == 1)
        (same_dev m (write_data n r d) _ refl refl refl (write_data-Held m n r d h))
        (if_both (Held m) (r.hdr.type == 4) (same_dev m r _ refl refl refl h)
          (same_dev m r _ refl refl refl h)))

module _ (vq : VirtioQueue) (ram_size : ℕ) (m : List (ℕ × ℕ)) where
  walk_chain-Held :
      (left idx : ℕ) (r : Request) → Held m r → Held m (walk_chain vq ram_size left idx r)
  unfolding walk_chain
  walk_chain-Held zero idx r h = h
  walk_chain-Held (suc left) idx r h =
      let failed = same_dev m r (record r { status = 1 }) refl refl refl h in
      match_option (Held m) (read_desc vq ram_size r.ram idx) failed λ v.
        let d = desc_of v in
        let next = if_both (Held m) (is_status d) h (data_desc-Held m ram_size r d h) in
        if_both (Held m) r.past_header
          (if_both (Held m) (has_next d) (walk_chain-Held left _ _ next) next)
          (if_both (Held m) (ltb d.len 16) failed (
            match_option (Held m) (guest_read r.ram ram_size d.addr 16) failed λ hd.
              let started =
                same_dev m r (record r { hdr = hdr_of hd; past_header = true }) refl refl refl h in
              if_both (Held m) (has_next d) (walk_chain-Held left _ _ started) started))

  serve-Untracked :
      (head : ℕ) (dev : VirtioDev) (ram : Memory)
      → Untracked m dev
      → Untracked m (serve vq ram_size head dev ram).0
  unfolding serve Held
  serve-Untracked head dev ram u = walk_chain-Held vq.num head _ u

  -- The loop stopped for want of fuel, or left such a device.
  pub Served : Option (ℕ × VirtioDev × Memory) → Type 0
  Served none = true ≡ true
  Served (some (last, dev, ram)) = Untracked m dev

  pub serve_all-Served :
      (fuel last avail : ℕ) (dev : VirtioDev) (ram : Memory)
      → Untracked m dev
      → Served (serve_all vq ram_size fuel last avail dev ram)
  unfolding serve_all Served
  serve_all-Served zero last avail dev ram u = refl
  serve_all-Served (suc fuel) last avail dev ram u = elim (Bool-cases (last == avail)) [
    | inl same ↦ rw (serve_all, same) u
    | inr other ↦
        rw (serve_all, other)
          (match_option Served
            (guest_read ram ram_size (u64 (vq.avail_addr + 4 + u16 (last % vq.num) * 2)) 2) u
            λ head.
              serve_all-Served fuel (u16 (last + 1)) avail (serve vq ram_size head dev ram).0
                (serve vq ram_size head dev ram).1 (serve-Untracked head dev ram u))
  ]

pub process_queue-Untracked :
    (m : List (ℕ × ℕ)) (dev : VirtioDev) (queue : ℕ) (ram : Memory) (ram_size : ℕ)
    → Untracked m dev
    → Untracked m (process_queue dev queue ram ram_size).0
unfolding process_queue Served
process_queue-Untracked m dev queue ram ram_size u =
    let vq = dev.queues queue in
    let P : VirtioDev × Memory → Type 0 = λ r. Untracked m r.0 in
    if_both P (not (nonzero vq.ready) || not (nonzero vq.desc_addr)) u (
      match_option P (guest_read ram ram_size (u64 (vq.avail_addr + 2)) 2) u λ avail.
        after avail (serve_all vq ram_size 65536 vq.last_avail avail dev ram)
          (serve_all-Served vq ram_size m 65536 vq.last_avail avail dev ram u))
  where
    after :
        (avail : ℕ) (o : Option (ℕ × VirtioDev × Memory))
        → Served (dev.queues queue) ram_size m o
        → Untracked m
            (elim o as (λ _. VirtioDev × Memory) [
              | none ↦ (dev, ram)
              | some (last, dev', ram') ↦ (
                record dev' {
                  queues =
                      update dev'.queues queue (record (dev'.queues queue) { last_avail = last });
                  int_status =
                      if last == (dev.queues queue).last_avail
                      then dev'.int_status
                      else dev'.int_status ||| 1;
                },
                ram',
              )
            ]).0
    after avail none h = u
    after avail (some (last, dev', ram')) h = same_fields m dev' _ refl refl refl h
