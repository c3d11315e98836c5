-- ===== src/Virtio/Mmio/Reset.antt =====
-- extension/rv64_virtio.c: what a driver reset leaves of the dirty tracker.
use pglinux.Virtio.Mmio.Registers.{store_register-P}
use pglinux.Base.{ℕ, ◌≡◌, refl, if_both, if_split, ◌&&◌, ◌==◌, ltb}
use pglinux.Word.{nonzero}
use pglinux.Ram.{Memory}
use pglinux.Virtio.{VirtioDev}
use pglinux.Base.{List, [], ◌∷◌, ==→ne}
use pglinux.Virtio.Blk.Untracked.{Untracked, same_fields, process_queue-Untracked}
use pglinux.Virtio.Mmio.{store_status, store_register, notify, virtio_mmio_store}

-- A reset block device has no tracker.
reset-Untracked : (dev : VirtioDev) → dev.device_id ≡ 2 → Untracked dev.marked (store_status dev 0)
unfolding store_status Untracked
reset-Untracked dev h = (h, refl, refl)

store_status-Untracked :
    (dev : VirtioDev) (val : ℕ) (m : List (ℕ × ℕ))
    → Untracked m dev
    → Untracked m (store_status dev val)
unfolding store_status Untracked
store_status-Untracked dev val m (k, a, b) = if_both (Untracked m) (val == 0) (k, refl, b) (k, a, b)

store_register-Untracked :
    (m : List (ℕ × ℕ)) (dev : VirtioDev) (offset val : ℕ)
    → Untracked m dev
    → Untracked m (store_register dev offset val)
store_register-Untracked m =
    store_register-P (Untracked m) (λ d e i l t k n. same_fields m d e i t k)
      λ d val u. store_status-Untracked d val m u

module _ (net_process : VirtioDev → ℕ → Memory → ℕ → VirtioDev × Memory) (ram_size : ℕ) where
  virtio_mmio_store-Untracked :
      (m : List (ℕ × ℕ)) (dev : VirtioDev) (offset val : ℕ) (ram : Memory)
      → Untracked m dev
      → Untracked m (virtio_mmio_store net_process dev offset val ram ram_size).0
  unfolding virtio_mmio_store notify Untracked
  virtio_mmio_store-Untracked m dev offset val ram u =
      let P : VirtioDev × Memory → Type 0 = λ r. Untracked m r.0 in
      if_both P (offset == 0x050)
        (if_both P (ltb val 4 && nonzero (dev.queues val).ready)
          (if_split P (dev.device_id == 2)
            (λ same. process_queue-Untracked m dev val ram ram_size u)
            (λ other. absurd (==→ne dev.device_id 2 other u.0)))
          u)
        (store_register-Untracked m dev offset val u)

  -- A sequence of stores of (offset, value) by the driver.
  abbrev pub stores : List (ℕ × ℕ) → VirtioDev → Memory → VirtioDev × Memory
  stores [] dev ram = (dev, ram)
  stores ((offset, val) ∷ rest) dev ram =
      let (dev', ram') = virtio_mmio_store net_process dev offset val ram ram_size in
      stores rest dev' ram'

  stores-Untracked :
      (m ws : List (ℕ × ℕ)) (dev : VirtioDev) (ram : Memory)
      → Untracked m dev
      → Untracked m (stores ws dev ram).0
  stores-Untracked m [] dev ram u = u
  stores-Untracked m ((offset, val) ∷ rest) dev ram u =
      stores-Untracked m rest _ _ (virtio_mmio_store-Untracked m dev offset val ram u)

  -- After the driver reset a block device, no further store to its registers, and so no request that it
  -- makes, marks a block as dirty: the reset drops the tracker.
  pub reset-marked :
      (dev : VirtioDev) (ws : List (ℕ × ℕ)) (ram : Memory)
      → dev.device_id ≡ 2
      → (stores ws (store_status dev 0) ram).0.marked ≡ dev.marked
  unfolding Untracked
  reset-marked dev ws ram h =
      (stores-Untracked dev.marked ws (store_status dev 0) ram (reset-Untracked dev h)).2
