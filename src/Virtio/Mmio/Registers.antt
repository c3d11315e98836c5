-- ===== src/Virtio/Mmio/Registers.antt =====
-- extension/rv64_virtio.c: a property of a device that the register stores keep.
use pglinux.Base.{ℕ, ◌≡◌, refl, if_both, ◌==◌}
use pglinux.Word.{u32}
use pglinux.Virtio.{VirtioDev, VirtioQueue}
use pglinux.Virtio.Mmio.{
  selects, on_queue, set_low, set_high, store_status, store_address, store_register,
}

-- `P` depends on the kind of the device, the pointers to its library and its tracker and what was
-- handed to them, and the write of the status keeps it.
module _ (P : VirtioDev → Type 0)
    (same : (d e : VirtioDev)
      → e.device_id ≡ d.device_id
      → e.slirp ≡ d.slirp
      → e.mark_dirty ≡ d.mark_dirty
      → e.marked ≡ d.marked
      → e.inputs ≡ d.inputs
      → P d
      → P e)
    (status : (d : VirtioDev) (val : ℕ) → P d → P (store_status d val)) where
  on_queue-P : (dev : VirtioDev) (f : VirtioQueue → VirtioQueue) → P dev → P (on_queue dev f)
  on_queue-P dev f u = if_both P (selects dev.queue_sel) (same dev _ refl refl refl refl refl u) u

  store_address-P : (dev : VirtioDev) (offset val : ℕ) → P dev → P (store_address dev offset val)
  unfolding store_address
  store_address-P dev offset val u =
      let queue = λ (f : VirtioQueue → VirtioQueue). on_queue-P dev f u in
      if_both P (offset == 0x080) (queue (λ q. record q { desc_addr = set_low q.desc_addr val })) (
        if_both P (offset == 0x084) (queue (λ q. record q { desc_addr = set_high q.desc_addr val }))
          (if_both P (offset == 0x090)
            (queue (λ q. record q { avail_addr = set_low q.avail_addr val }))
            (if_both P (offset == 0x094)
              (queue (λ q. record q { avail_addr = set_high q.avail_addr val }))
              (if_both P (offset == 0x0A0)
                (queue (λ q. record q { used_addr = set_low q.used_addr val }))
                (if_both P (offset == 0x0A4)
                  (queue (λ q. record q { used_addr = set_high q.used_addr val })) u)))))

  pub store_register-P :
      (dev : VirtioDev) (offset val : ℕ) → P dev → P (store_register dev offset val)
  unfolding store_register
  store_register-P dev offset val u =
      let kept = λ (e : VirtioDev). same dev e in
      if_both P (offset == 0x014) (kept _ refl refl refl refl refl u) (
        if_both P (offset == 0x020)
          (if_both P (dev.drv_features_sel == 0) (kept _ refl refl refl refl refl u)
            (if_both P (dev.drv_features_sel == 1) (kept _ refl refl refl refl refl u) u))
          (if_both P (offset == 0x024) (kept _ refl refl refl refl refl u) (
            if_both P (offset == 0x030) (kept _ refl refl refl refl refl u) (
              if_both P (offset == 0x038) (on_queue-P dev (λ q. record q { num = u32 val }) u) (
                if_both P (offset == 0x044) (on_queue-P dev (λ q. record q { ready = u32 val }) u) (
                  if_both P (offset == 0x064) (kept _ refl refl refl refl refl u) (
                    if_both P (offset == 0x070) (status dev val u)
                      (store_address-P dev offset val u))))))))
