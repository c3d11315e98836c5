-- ===== src/Bus/RoundTrip.antt =====
-- extension/rv64_bus.c: a store to the RAM followed by a load.
use pglinux.Base.{ℕ, ◌+◌, ◌-◌, ◌≡◌, refl, true, some, ap, ◌⊎◌, ◌^◌, ◌≤◌, ◌<◌, ◌%◌}
use pglinux.Ram.{Memory}
use pglinux.Virtio.{VirtioDev, ram_base}
use pglinux.Cpu.{Cpu}
use pglinux.Ram.Laws.{read_bytes-write_bytes, write_bytes_outside}
use pglinux.Bus.{bus_load, bus_store, within, is_size}

module _ (net_process : VirtioDev → ℕ → Memory → ℕ → VirtioDev × Memory) where
  -- A store to the RAM succeeds, a load of the same size at the same address returns the stored value
  -- cut to the size, and no byte outside the access changes.
  pub bus_load-bus_store :
      (c : Cpu) (addr size val j : ℕ)
      → within ram_base c.ram_size addr ≡ true
      → c.ram_mapped ≡ true
      → is_size size ≡ true
      → (j < addr - ram_base) ⊎ ((addr - ram_base) + size ≤ j)
      → ((bus_store net_process c addr size val).0 ≡ true)
        × ((bus_load (bus_store net_process c addr size val).1 addr size).0
            ≡ some (val % 256 ^ size))
        × ((bus_store net_process c addr size val).1.ram j ≡ c.ram j)
  unfolding bus_store bus_load
  bus_load-bus_store c addr size val j inside mapped ok other =
      rw (inside, mapped, ok)
        (
          refl,
          rw (inside) (ap some (read_bytes-write_bytes size c.ram (addr - ram_base) val)),
          write_bytes_outside size c.ram (addr - ram_base) val j other,
        )
