-- ===== src/Ram.antt =====
-- Little-endian accesses of the host memory that starts at the guest's RAM pointer: `*(uint64_t *)
-- (ram + offset)` and `memcpy` in extension/rv64_bus.c, rv64_mmu.c, rv64_cpu.c and rv64_virtio.c.
-- A memory gives the byte at each offset from that pointer, also behind the end of the RAM.
pub mod Laws
use pglinux.Base.{ℕ, zero, suc, ◌+◌, ◌*◌, ◌/◌, ◌%◌, List, [], ◌∷◌, update}

abbrev pub Memory : Type 0
Memory = ℕ → ℕ

-- The number in `n` bytes from `offset` on.
unfoldable pub read_bytes : ℕ → Memory → ℕ → ℕ
read_bytes zero m offset = 0
read_bytes (suc n) m offset = m offset + read_bytes n m (offset + 1) * 256

-- The low `n` bytes of `val` written from `offset` on.
pub write_bytes : ℕ → Memory → ℕ → ℕ → Memory
write_bytes zero m offset val = m
write_bytes (suc n) m offset val =
    write_bytes n (update m offset (val % 256)) (offset + 1) (val / 256)
