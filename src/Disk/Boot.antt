-- ===== src/Disk/Boot.antt =====
-- extension/rv64_pgext.c: the boot puts the rows of the table over the base image.
use Prim.{Unit, tt}
use pglinux.Base.{
  ℕ, ◌+◌, ◌-◌, ◌*◌, ◌/◌, ◌%◌, ◌^◌, ◌<◌, ◌≡◌, refl, sym, ap, ◌∙◌, Bool, true, false, ◌&&◌, ◌==◌, ltb,
  leb, if_split, if_yes, if_no, Bool-cases, inl, inr, List, [], ◌∷◌, Option, subst, none, some,
  if◌then◌else◌, arith,
}
use pglinux.Word.{u64}
use pglinux.Ram.{Memory}
use pglinux.Virtio.{copy_bytes}
use pglinux.Disk.{
  dirty_get, disk_block_size, Block, BlockTable, DiskState, block_len, find_last, RowsOf,
  overlay_row, overlay, boot_overlay, worker_vm_id,
}
use pglinux.Disk.Saved.{IsSaved, Reach, byte_of, Reach-IsSaved, size-Reach}

module _ (db : BlockTable) (size : ℕ) (fits : size + 4095 < 2 ^ 64) (i : ℕ)
    (inside : i < size) where
  -- Byte `i` after one row of the right length.
  row_lem :
      (disk : Memory) (a : ℕ) (v : Block)
      → v.len ≡ block_len db size a
      → overlay_row size disk (a, v) i ≡ (if i / 4096 == a then v.bytes (i % 4096) else disk i)
  unfolding overlay_row copy_bytes
  row_lem disk a v len = elim (Bool-cases (i / 4096 == a)) [
    | inl e ↦
        if_split (λ (k : Memory). k i ≡ target) (leb (u64 (u64 (a * 4096) + v.len)) size)
          (λ fit.
            if_yes (leb (u64 (a * 4096)) i && ltb i (u64 (a * 4096) + v.len)) _ _ (covers e)
            ∙ ap v.bytes (place e)
            ∙ sym (if_yes (i / 4096 == a) (v.bytes (i % 4096)) (disk i) e))
          λ over. absurd (fits_in e over)
    | inr ne ↦
        if_split (λ (k : Memory). k i ≡ target) (leb (u64 (u64 (a * 4096) + v.len)) size)
          (λ fit.
            if_no (leb (u64 (a * 4096)) i && ltb i (u64 (a * 4096) + v.len)) _ _ (misses ne)
            ∙ sym (if_no (i / 4096 == a) (v.bytes (i % 4096)) (disk i) ne))
          λ over. sym (if_no (i / 4096 == a) (v.bytes (i % 4096)) (disk i) ne)
  ]
    where
      target : ℕ
      target = if i / 4096 == a then v.bytes (i % 4096) else disk i

      covers :
          (i / 4096 == a) ≡ true → (leb (u64 (a * 4096)) i && ltb i (u64 (a * 4096) + v.len)) ≡ true
      covers e = ground (arith, e, len, inside, fits)

      fits_in : (i / 4096 == a) ≡ true → leb (u64 (u64 (a * 4096) + v.len)) size ≡ false → ⊥
      fits_in e over = ground (arith, e, over, len, inside, fits)

      place : (i / 4096 == a) ≡ true → 0 + (i - u64 (a * 4096)) ≡ i % 4096
      place e = ground (arith, e, inside, fits)

      misses :
          (i / 4096 == a) ≡ false
          → (leb (u64 (a * 4096)) i && ltb i (u64 (a * 4096) + v.len)) ≡ false
      misses ne = ground (arith, ne, len, inside, fits)

  Lens : List (ℕ × Block) → Type 0
  Lens [] = Unit
  Lens ((a, v) ∷ rs) = (v.len ≡ block_len db size a) × Lens rs

  overlay_lem :
      (rs : List (ℕ × Block)) (disk : Memory)
      → Lens rs
      → overlay size disk rs i ≡ byte_of db disk i (find_last rs (i / 4096))
  unfolding overlay find_last Lens
  overlay_lem [] disk l = refl
  overlay_lem ((a, v) ∷ rs) disk (l, ls) =
      overlay_lem rs (overlay_row size disk (a, v)) ls ∙ after (find_last rs (i / 4096))
    where
      push :
          (t : Bool)
          → (if t then v.bytes (i % 4096) else disk i)
            ≡ byte_of db disk i (if t then some v else none)
      push true = refl
      push false = refl

      after :
          (o : Option Block)
          → byte_of db (overlay_row size disk (a, v)) i o
            ≡ byte_of db disk i
                (elim o [ some w ↦ some w | none ↦ if i / 4096 == a then some v else none ])
      after (some w) = refl
      after none = row_lem disk a v l ∙ push (i / 4096 == a)

  rows-Lens :
      (base : Memory) (d : DiskState db)
      → d.size ≡ size
      → IsSaved db base d
      → (rs : List (ℕ × Block)) → RowsOf (db.lookup d.rows worker_vm_id) rs
      → Lens rs
  unfolding RowsOf Lens
  rows-Lens base d same h [] r = tt
  rows-Lens base d same h ((a, v) ∷ rs) (look, r) =
      (h.lens a v look ∙ ap (λ (n : ℕ). block_len db n a) same, rows-Lens base d same h rs r)

module _ (db : BlockTable) (base : Memory) where
  -- Whatever requests wrote and marked and however often the worker flushed with INSERTs that work, a
  -- boot of the machine with vm_id 1 that puts its rows over the base image restores every byte of the
  -- blocks that are not dirty, for an image that ends below 2 ^ 64 - 4095, where at the start every
  -- byte of a clean block is that of its row or else of the base image, and the rows have the lengths
  -- of their blocks.
  pub boot_restores :
      (d e : DiskState db) (vm_id i : ℕ)
      → vm_id ≡ worker_vm_id
      → d.size + 4095 < 2 ^ 64
      → IsSaved db base d
      → Reach db d e
      → i < e.size
      → dirty_get e.bitmap (i / disk_block_size) ≡ false
      → boot_overlay db true vm_id e.size base e.rows i ≡ e.disk i
  unfolding boot_overlay
  boot_restores d e vm_id i mine fits h r lt quiet =
      let saved = Reach-IsSaved db base d e fits h r in
      let rows = db.select e.rows worker_vm_id in
      ap (λ (vm : ℕ). overlay e.size base (db.select e.rows vm) i) mine
      ∙ overlay_lem db e.size (size_fits d e fits r) i lt rows base (
          rows-Lens db e.size (size_fits d e fits r) i lt base e refl saved rows
            (db.select_only e.rows worker_vm_id))
      ∙ ap (byte_of db base i) (db.select_all e.rows worker_vm_id (i / 4096))
      ∙ sym (saved.clean i lt quiet)
    where
      size_fits :
          (d e : DiskState db) → d.size + 4095 < 2 ^ 64 → Reach db d e → e.size + 4095 < 2 ^ 64
      size_fits d e fits r = subst (λ n. n + 4095 < 2 ^ 64) (sym (size-Reach db d e r)) fits
