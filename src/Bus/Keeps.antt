-- ===== src/Bus/Keeps.antt =====
-- extension/rv64_bus.c: the bus does not touch the registers of the hart.
use pglinux.Base.{ℕ, ◌-◌, ◌≡◌, refl, if_both, Bool, ◌&&◌, ◌||◌, Option}
use pglinux.Word.{nonzero, ◌&&&◌}
use pglinux.Uart.{uart_store}
use pglinux.Ram.{Memory}
use pglinux.Virtio.{VirtioDev, ram_base}
use pglinux.Cpu.{Cpu}
use pglinux.Cpu.Hart.{hart, Kept, kept}
use pglinux.Bus.{bus_load, bus_store, bus_store_uart, raise_virtio, within, is_size}

pub bus_load-Kept : (c : Cpu) (addr size : ℕ) → Kept c (bus_load c addr size)
unfolding bus_load
bus_load-Kept c addr size =
    let P : Option ℕ × Cpu → Type 0 = Kept c in
    if_both P (within ram_base c.ram_size addr)
      (if_both P (c.ram_mapped && is_size size) (kept c _ _ refl) (kept c _ _ refl))
      (if_both P (within 0x10000000 0x1000 addr) (kept c _ _ refl) (
        if_both P (within 0x02000000 0x10000 addr) (kept c _ _ refl) (
          if_both P (within 0x0C000000 0x04000000 addr) (kept c _ _ refl) (
            if_both P (within 0x10001000 0x1000 addr && c.attached 0) (kept c _ _ refl) (
              if_both P (within 0x10002000 0x1000 addr && c.attached 1) (kept c _ _ refl)
                (kept c _ _ refl))))))

hart-raise : (c : Cpu) (dev : VirtioDev) → hart (raise_virtio c dev) ≡ hart c
unfolding raise_virtio
hart-raise c dev = if_both (λ (d : Cpu). hart d ≡ hart c) (nonzero dev.int_status) refl refl

hart-bus_store_uart : (c : Cpu) (offset val : ℕ) → hart (bus_store_uart c offset val) ≡ hart c
unfolding bus_store_uart
hart-bus_store_uart c offset val =
    let u = uart_store c.uart offset val in
    if_both (λ (d : Cpu). hart d ≡ hart c) (u.thre_pending || (u.rx_ready && nonzero (u.ier &&& 1)))
      refl refl

module _ (net_process : VirtioDev → ℕ → Memory → ℕ → VirtioDev × Memory) where
  pub bus_store-Kept :
      (c : Cpu) (addr size val : ℕ) → Kept c (bus_store net_process c addr size val)
  unfolding bus_store
  bus_store-Kept c addr size val =
      let P : Bool × Cpu → Type 0 = Kept c in
      if_both P (within ram_base c.ram_size addr)
        (if_both P (c.ram_mapped && is_size size) (kept c _ _ refl) (kept c _ _ refl))
        (if_both P (within 0x10000000 0x1000 addr)
          (kept c _ _ (hart-bus_store_uart c (addr - 0x10000000) val))
          (if_both P (within 0x02000000 0x10000 addr) (kept c _ _ refl) (
            if_both P (within 0x0C000000 0x04000000 addr) (kept c _ _ refl) (
              if_both P (within 0x10001000 0x1000 addr && c.attached 0)
                (kept c _ _ (hart-raise _ _))
                (if_both P (within 0x10002000 0x1000 addr && c.attached 1)
                  (kept c _ _ (hart-raise _ _)) (kept c _ _ refl))))))
