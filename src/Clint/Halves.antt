-- ===== src/Clint/Halves.antt =====
-- extension/rv64_bus.c: what the two halves of a CLINT register hold after a store.
use Prim.Native.Nat.{bit_and, bit_or}
use pglinux.Base.{ℕ, ◌+◌, ◌*◌, ◌/◌, ◌%◌, ◌^◌, ◌<◌, ◌≡◌, ◌∙◌, ap, ap₂, arith}
use pglinux.Word.Bits.{or_comm}
use pglinux.Word.Bits.Fields.{and_mask, and_not_mask, or_fields}
use pglinux.Clint.{Clint, clint_mtimecmp, clint_load, clint_store}

-- `(old & 0xFFFFFFFF00000000) | (val & 0xFFFFFFFF)`
pub put_low :
    (old val : ℕ)
    → old < 2 ^ 64
    → bit_or (bit_and old 0xFFFFFFFF00000000) (bit_and val 0xFFFFFFFF)
      ≡ old / 2 ^ 32 * 2 ^ 32 + val % 2 ^ 32
put_low old val h =
    ap (λ (t : ℕ). bit_or t (bit_and val 0xFFFFFFFF)) (and_not_mask 64 32 old h (omega arith))
    ∙ ap (bit_or (old / 2 ^ 32 * 2 ^ 32)) (and_mask 32 val)
    ∙ or_fields 32 (old / 2 ^ 32) (val % 2 ^ 32) (omega arith)

-- `(old & 0xFFFFFFFF) | ((val & 0xFFFFFFFF) << 32)`
pub put_high :
    (old val : ℕ)
    → bit_or (bit_and old 0xFFFFFFFF) (bit_and val 0xFFFFFFFF * 2 ^ 32)
      ≡ val % 2 ^ 32 * 2 ^ 32 + old % 2 ^ 32
put_high old val =
    or_comm (bit_and old 0xFFFFFFFF) (bit_and val 0xFFFFFFFF * 2 ^ 32)
    ∙ ap₂ (λ (s t : ℕ). bit_or (s * 2 ^ 32) t) (and_mask 32 val) (and_mask 32 old)
    ∙ or_fields 32 (val % 2 ^ 32) (old % 2 ^ 32) (omega arith)

-- Two 4-byte stores of 32-bit words set the whole compare register, and two loads read the words back; the time is
-- left alone.
pub mtimecmp_halves :
    (c : Clint) (lo hi : ℕ)
    → c.mtimecmp < 2 ^ 64
    → lo < 2 ^ 32
    → hi < 2 ^ 32
    → let c' = clint_store (clint_store c clint_mtimecmp lo 4) (clint_mtimecmp + 4) hi 4 in
      (c'.mtimecmp ≡ hi * 2 ^ 32 + lo)
      × (clint_load c' clint_mtimecmp ≡ lo)
      × (clint_load c' (clint_mtimecmp + 4) ≡ hi)
      × (c'.mtime ≡ c.mtime)
unfolding clint_store clint_load
mtimecmp_halves c lo hi h p q = ground (
  arith,
  put_low c.mtimecmp lo h,
  put_high (c.mtimecmp / 2 ^ 32 * 2 ^ 32 + lo % 2 ^ 32) hi,
  and_mask 32 (hi * 2 ^ 32 + lo),
)

-- Where both registers have 64 bits, a load returns at most 32 bits, also one of 8 bytes: the size is no argument of `clint_load`.
pub clint_load-lt :
    (c : Clint) (offset : ℕ) → c.mtimecmp < 2 ^ 64 → c.mtime < 2 ^ 64 → clint_load c offset < 2 ^ 32
unfolding clint_load
clint_load-lt c offset h g = ground (arith, and_mask 32 c.mtimecmp, and_mask 32 c.mtime)
