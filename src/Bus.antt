-- ===== src/Bus.antt =====
-- extension/rv64_bus.c: physical addresses routed to the RAM and the devices.
pub mod Keeps
pub mod RoundTrip
use pglinux.Base.{
  ℕ, ◌+◌, ◌-◌, Bool, true, false, ◌&&◌, ◌||◌, Option, none, some, ◌==◌, ltb, leb, if◌then◌else◌,
}
use pglinux.Word.{u64, nonzero, ◌&&&◌}
use pglinux.Ram.{Memory, read_bytes, write_bytes}
use pglinux.Uart.{uart_load, uart_store, uart_rx}
use pglinux.Clint.{clint_load, clint_store}
use pglinux.Plic.{plic_load, plic_store, raise}
use pglinux.Virtio.{VirtioDev, ram_base}
use pglinux.Virtio.Mmio.{virtio_mmio_load, virtio_mmio_store}
use pglinux.Cpu.{Cpu}

-- addr >= base && addr < base + size, as `uint64_t`
unfoldable pub within : ℕ → ℕ → ℕ → Bool
within base size addr = leb base addr && ltb addr (u64 (base + size))

-- The sizes that the RAM cases handle.
unfoldable pub is_size : ℕ → Bool
is_size size = size == 1 || size == 2 || size == 4 || size == 8

-- `bus_load`: `none` is the result -1.
unfoldable pub bus_load : Cpu → ℕ → ℕ → Option ℕ × Cpu
bus_load c addr size =
    if within ram_base c.ram_size addr
    then (if c.ram_mapped && is_size size
        then (some (read_bytes size c.ram (addr - ram_base)), c)
        else (none, c))
    else if within 0x10000000 0x1000 addr
    then (let (v, u) = uart_load c.uart (addr - 0x10000000) in (some v, record c { uart = u }))
    else if within 0x02000000 0x10000 addr
    then (some (clint_load c.clint (addr - 0x02000000)), c)
    else if within 0x0C000000 0x04000000 addr
    then (let (v, p) = plic_load c.plic (addr - 0x0C000000) in (some v, record c { plic = p }))
    else if within 0x10001000 0x1000 addr && c.attached 0
    then (some (virtio_mmio_load c.virtio_blk (addr - 0x10001000) size), c)
    else if within 0x10002000 0x1000 addr && c.attached 1
    then (some (virtio_mmio_load c.virtio_net (addr - 0x10002000) size), c)
    else (some 0, c)

-- A store to the UART, which raises its interrupt if it has a cause.
pub bus_store_uart : Cpu → ℕ → ℕ → Cpu
bus_store_uart c offset val =
    let u = uart_store c.uart offset val in
    if u.thre_pending || (u.rx_ready && nonzero (u.ier &&& 1))
    then record c { uart = u; plic = raise c.plic 10 }
    else record c { uart = u }

-- if (dev->int_status) cpu->plic.pending[dev->irq / 32] |= ...
pub raise_virtio : Cpu → VirtioDev → Cpu
raise_virtio c dev = if nonzero dev.int_status then record c { plic = raise c.plic dev.irq } else c

module _ (net_process : VirtioDev → ℕ → Memory → ℕ → VirtioDev × Memory) where
  -- `bus_store`: false is the result -1.
  pub bus_store : Cpu → ℕ → ℕ → ℕ → Bool × Cpu
  bus_store c addr size val =
      if within ram_base c.ram_size addr
      then (if c.ram_mapped && is_size size
          then (true, record c { ram = write_bytes size c.ram (addr - ram_base) val })
          else (false, c))
      else if within 0x10000000 0x1000 addr
      then (true, bus_store_uart c (addr - 0x10000000) val)
      else if within 0x02000000 0x10000 addr
      then (true, record c { clint = clint_store c.clint (addr - 0x02000000) val size })
      else if within 0x0C000000 0x04000000 addr
      then (true, record c { plic = plic_store c.plic (addr - 0x0C000000) val })
      else if within 0x10001000 0x1000 addr && c.attached 0
      then (let (dev, ram) =
            virtio_mmio_store net_process c.virtio_blk (addr - 0x10001000) val c.ram c.ram_size in
          (true, raise_virtio (record c { virtio_blk = dev; ram = ram }) dev))
      else if within 0x10002000 0x1000 addr && c.attached 1
      then (let (dev, ram) =
            virtio_mmio_store net_process c.virtio_net (addr - 0x10002000) val c.ram c.ram_size in
          (true, raise_virtio (record c { virtio_net = dev; ram = ram }) dev))
      else (true, c)

-- `rv64_uart_rx`
pub rv64_uart_rx : Cpu → ℕ → Cpu
rv64_uart_rx c ch = record c { uart = uart_rx c.uart ch; plic = raise c.plic 10 }
