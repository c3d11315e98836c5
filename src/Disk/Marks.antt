-- ===== src/Disk/Marks.antt =====
-- extension/rv64_pgext.c: which blocks a write marks.
use pglinux.Base.{
  ℕ, zero, suc, ◌+◌, ◌-◌, ◌*◌, ◌/◌, ◌^◌, ◌<◌, ◌≡◌, ap, ◌∙◌, Bool, true, false, not, ◌&&◌, ◌||◌,
  ◌==◌, ltb, leb, if_split, arith,
}
use pglinux.Word.{u64}
use pglinux.Disk.{dirty_set, dirty_get, mark_blocks, vm_dirty_callback, disk_block_size}
use pglinux.Disk.Bitmap.{dirty_get-dirty_set}

mark_blocks_lem :
    (n : ℕ) (m : ℕ → ℕ) (s b : ℕ)
    → dirty_get (mark_blocks m s n) b ≡ ((leb s b && ltb b (s + n)) || dirty_get m b)
unfolding mark_blocks
mark_blocks_lem zero m s b = ap (λ (t : Bool). t || dirty_get m b) (nobody s b)
  where
    nobody : (s b : ℕ) → false ≡ (leb s b && ltb b (s + 0))
    nobody s b = ground arith
mark_blocks_lem (suc n) m s b =
    mark_blocks_lem n (dirty_set m s) (s + 1) b
    ∙ ap (λ (t : Bool). (leb (s + 1) b && ltb b (s + 1 + n)) || t) (dirty_get-dirty_set m s b)
    ∙ join (dirty_get m b)
  where
    join :
        (t : Bool)
        → ((leb (s + 1) b && ltb b (s + 1 + n)) || (b == s || t))
          ≡ ((leb s b && ltb b (s + suc n)) || t)
    join true = ground arith
    join false = ground arith

-- Does the range of `length` bytes from `offset` on have a byte of block `b`?
abbrev pub overlaps : ℕ → ℕ → ℕ → Bool
overlaps offset length b =
    not (length == 0)
    && ltb offset ((b + 1) * disk_block_size)
    && ltb (b * disk_block_size) (offset + length)

-- A write marks exactly the blocks that it has a byte of: after the call a block is dirty if it was or
-- if it overlaps the range, for ranges that end below 2 ^ 64 - 4095.
pub marks_overlaps :
    (m : ℕ → ℕ) (offset length b : ℕ)
    → offset + length + 4095 < 2 ^ 64
    → dirty_get (vm_dirty_callback m offset length) b ≡ (overlaps offset length b || dirty_get m b)
unfolding vm_dirty_callback
marks_overlaps m offset length b h =
    if_split (λ (k : ℕ → ℕ). dirty_get k b ≡ (overlaps offset length b || dirty_get m b))
      (length == 0) (λ none. ap (λ (t : Bool). t || dirty_get m b) (outside none))
      λ some.
        mark_blocks_lem
          (u64 (offset + length + disk_block_size - 1) / disk_block_size - offset / disk_block_size)
          m (offset / disk_block_size) b
        ∙ ap (λ (t : Bool). t || dirty_get m b) (inside some)
  where
    outside : (length == 0) ≡ true → false ≡ overlaps offset length b
    outside e = ground (arith, e)

    inside :
        (length == 0) ≡ false
        → (leb (offset / 4096) b
            && ltb b (offset / 4096 + (u64 (offset + length + 4096 - 1) / 4096 - offset / 4096)))
          ≡ overlaps offset length b
    inside e = ground (arith, e, h)
