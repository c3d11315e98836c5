-- ===== src/Virtio/Blk/Terminates.antt =====
-- extension/rv64_virtio.c: the loop over the available ring ends.
use pglinux.Base.{
  ℕ, zero, suc, ◌+◌, ◌-◌, ◌*◌, match_option, Bool, true, false, Option, ◌==◌, none, some, ap, arith,
  inl, inr, ◌^◌, ◌<◌, ◌%◌,
}
use pglinux.Word.{u64, u16}
use pglinux.Ram.{Memory}
use mathlib.Core.Bool.{true≢false}
use pglinux.Virtio.{VirtioDev}
use pglinux.Base.{◌≢◌, Bool-cases, ==→ne}
use mathlib.Core.Bool.{true≢false}
use pglinux.Virtio.{VirtioQueue, guest_read}
use pglinux.Virtio.Blk.{serve, serve_all}

is_some {ℓ} : {A : Type ℓ} → Option A → Bool
is_some none = false
is_some (some v) = true

module _ (vq : VirtioQueue) (ram_size avail : ℕ) where
  Ends : Option (ℕ × VirtioDev × Memory) → Type 0
  Ends o = o ≢ none

  ends : (out : ℕ × VirtioDev × Memory) → Ends (some out)
  unfolding Ends is_some
  ends out e = true≢false (ap is_some e)

  -- Fuel above the distance between the two indices is enough.
  serve_all-Ends :
      (fuel last : ℕ) (dev : VirtioDev) (ram : Memory)
      → last < 2 ^ 16
      → avail < 2 ^ 16
      → (avail + 2 ^ 16 - last) % 2 ^ 16 < fuel
      → Ends (serve_all vq ram_size fuel last avail dev ram)
  unfolding serve_all
  serve_all-Ends zero last dev ram h g f = absurd (omega (arith, f))
  serve_all-Ends (suc fuel) last dev ram h g f = elim (Bool-cases (last == avail)) [
    | inl same ↦ rw (serve_all, same) (ends (last, dev, ram))
    | inr other ↦
        rw (serve_all, other)
          (match_option Ends
            (guest_read ram ram_size (u64 (vq.avail_addr + 4 + u16 (last % vq.num) * 2)) 2)
            (ends (last, dev, ram))
            λ head.
              serve_all-Ends fuel (u16 (last + 1)) (serve vq ram_size head dev ram).0
                (serve vq ram_size head dev ram).1 (omega arith) g
                (closer fuel last h g (==→ne last avail other) f))
  ]
    where
      closer :
          (fuel last : ℕ)
          → last < 2 ^ 16
          → avail < 2 ^ 16
          → last ≢ avail
          → (avail + 2 ^ 16 - last) % 2 ^ 16 < suc fuel
          → (avail + 2 ^ 16 - u16 (last + 1)) % 2 ^ 16 < fuel
      closer fuel last h g ne f = ground arith

  -- The fuel of `process_queue` is enough: the loop ends from every pair of 16-bit indices, whatever
  -- the guest wrote into the rings and the descriptors.
  pub serve_all_ends :
      (last : ℕ) (dev : VirtioDev) (ram : Memory)
      → last < 2 ^ 16
      → avail < 2 ^ 16
      → serve_all vq ram_size 65536 last avail dev ram ≢ none
  unfolding Ends
  serve_all_ends last dev ram h g = serve_all-Ends 65536 last dev ram h g (omega arith)
