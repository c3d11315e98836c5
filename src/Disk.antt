-- ===== src/Disk.antt =====
-- extension/rv64_pgext.c: the blocks of the disk image that are written back to the table vm_blocks.
-- The bitmap `vm_disk_dirty` is allocated. The table is a parameter: `upsert` is the effect of INSERT
-- ... ON CONFLICT DO UPDATE for a vm_id, `lookup` reads a row and `select` is the result of SELECT
-- blk_idx, data ... WHERE vm_id. Whether SPI_connect and the statements work is a parameter too.
pub mod Bitmap
pub mod Marks
pub mod Saved
pub mod Flush
pub mod Boot
pub mod Lost
use Prim.{Unit}
use pglinux.Virtio.{copy_bytes}
use pglinux.Base.{
  List, [], ◌∷◌, ℕ, zero, suc, ◌+◌, ◌-◌, ◌*◌, ◌/◌, ◌%◌, ◌^◌, ◌≡◌, ◌≢◌, Bool, true, false, not,
  Option, none, some, ◌==◌, ltb, leb, if◌then◌else◌, update,
}
use pglinux.Word.{u64, nonzero, ◌&&&◌, ◌|||◌, ◌<<<◌, ◌>>>◌}
use pglinux.Ram.{Memory}

abbrev pub disk_block_size : ℕ
disk_block_size = 4096

-- DISK_DIRTY_SET, DISK_DIRTY_GET and DISK_DIRTY_CLR on the bytes of the bitmap. The shifted bit is
-- below 256.
unfoldable pub dirty_set : (ℕ → ℕ) → ℕ → ℕ → ℕ
dirty_set m idx = update m (idx >>> 3) (m (idx >>> 3) ||| (1 <<< (idx &&& 7)))

unfoldable pub dirty_get : (ℕ → ℕ) → ℕ → Bool
dirty_get m idx = nonzero (m (idx >>> 3) &&& (1 <<< (idx &&& 7)))

unfoldable pub dirty_clr : (ℕ → ℕ) → ℕ → ℕ → ℕ
dirty_clr m idx = update m (idx >>> 3) (m (idx >>> 3) &&& (2 ^ 8 - 1 - (1 <<< (idx &&& 7))))

-- The loop of `vm_dirty_callback`, over `n` blocks from `b` on.
unfoldable pub mark_blocks : (ℕ → ℕ) → ℕ → ℕ → ℕ → ℕ
mark_blocks m b zero = m
mark_blocks m b (suc n) = mark_blocks (dirty_set m b) (b + 1) n

unfoldable pub vm_dirty_callback : (ℕ → ℕ) → ℕ → ℕ → ℕ → ℕ
vm_dirty_callback m byte_offset length =
    if length == 0
    then m
    else (let blk_start = byte_offset / disk_block_size in
        let blk_end = u64 (byte_offset + length + disk_block_size - 1) / disk_block_size in
        mark_blocks m blk_start (blk_end - blk_start))

-- A BYTEA value: its bytes below `len`.
pub record Block : Type 0 where
  pub len : ℕ
  pub bytes : Memory

-- The last row for block `b` in a list of rows.
unfoldable pub find_last : List (ℕ × Block) → ℕ → Option Block
find_last [] b = none
find_last ((a, v) ∷ rs) b = elim (find_last rs b) [
  | some w ↦ some w
  | none ↦ if b == a then some v else none
]

-- Every row of a list is the one that `look` finds.
unfoldable pub RowsOf : (ℕ → Option Block) → List (ℕ × Block) → Type 0
RowsOf look [] = Unit
RowsOf look ((a, v) ∷ rs) = (look a ≡ some v) × RowsOf look rs

-- The table vm_blocks by vm_id and blk_idx, with the documented effect of the statements.
pub record BlockTable : Type 1 where
  pub Rows : Type 0
  pub upsert : Rows → ℕ → ℕ → Block → Rows
  pub lookup : Rows → ℕ → ℕ → Option Block
  pub lookup_new : (t : Rows) (vm b : ℕ) (v : Block) → lookup (upsert t vm b v) vm b ≡ some v
  pub lookup_old :
      (t : Rows) (vm b : ℕ) (v : Block) (a : ℕ)
      → a ≢ b
      → lookup (upsert t vm b v) vm a ≡ lookup t vm a
  pub lookup_other :
      (t : Rows) (vm b : ℕ) (v : Block) (other a : ℕ)
      → other ≢ vm
      → lookup (upsert t vm b v) other a ≡ lookup t other a
  pub select : Rows → ℕ → List (ℕ × Block)
  pub select_all : (t : Rows) (vm b : ℕ) → find_last (select t vm) b ≡ lookup t vm b
  pub select_only : (t : Rows) (vm : ℕ) → RowsOf (lookup t vm) (select t vm)

-- The vm_id in the INSERT of the worker.
abbrev pub worker_vm_id : ℕ
worker_vm_id = 1

module _ (db : BlockTable) where
  -- vm_disk, vm_disk_size, vm_disk_dirty and the table.
  pub record DiskState : Type 0 where
    pub disk : Memory
    pub size : ℕ
    pub bitmap : ℕ → ℕ
    pub rows : db.Rows

  -- The length of block `b`, which the end of the image cuts.
  abbrev pub block_len : ℕ → ℕ → ℕ
  block_len size b =
      if ltb size (b * disk_block_size + disk_block_size)
      then size - b * disk_block_size
      else disk_block_size

  abbrev pub block_count : ℕ → ℕ
  block_count size = u64 (size + disk_block_size - 1) / disk_block_size

  -- `works b` says that the INSERT of block `b` works, and else returns an error code, which is not
  -- looked at. An error that the server raises ends the worker.
  module _ (works : ℕ → Bool) where
    -- One dirty block: its bit is cleared, and it goes to the table.
    unfoldable pub flush_block : DiskState → ℕ → DiskState
    flush_block d b =
        let block : Block = record {
          len = block_len d.size b;
          bytes = λ i. d.disk (b * disk_block_size + i);
        } in
        record d {
          bitmap = dirty_clr d.bitmap b;
          rows = if works b then db.upsert d.rows worker_vm_id b block else d.rows;
        }

    -- The loop over the blocks from `b` on, `n` to go, which stops at 256 flushed ones.
    unfoldable pub flush_loop : ℕ → ℕ → ℕ → DiskState → DiskState
    flush_loop zero b flushed d = d
    flush_loop (suc n) b flushed d = elim (dirty_get d.bitmap b) [
      | false ↦ flush_loop n (b + 1) flushed d
      | true ↦ elim (leb 256 (flushed + 1)) [
        | true ↦ flush_block d b
        | false ↦ flush_loop n (b + 1) (flushed + 1) (flush_block d b)
      ]
    ]

    -- `connected`: SPI_connect() == SPI_OK_CONNECT
    unfoldable pub worker_flush_dirty_blocks : Bool → DiskState → DiskState
    worker_flush_dirty_blocks connected d =
        if d.size == 0
        then d
        else if not connected
        then d
        else flush_loop (block_count d.size) 0 0 d

-- One row over the image at boot, if it ends within the image.
unfoldable pub overlay_row : ℕ → Memory → ℕ × Block → Memory
overlay_row size disk (blk, v) =
    let off = u64 (blk * disk_block_size) in
    if leb (u64 (off + v.len)) size then copy_bytes disk off v.bytes 0 v.len else disk

-- The loop over the rows.
unfoldable pub overlay : ℕ → Memory → List (ℕ × Block) → Memory
overlay size disk [] = disk
overlay size disk (r ∷ rs) = overlay size (overlay_row size disk r) rs

-- The overlay of the rows of `vm_id` over the image that was loaded. Without the table, or with a
-- SELECT that fails, it stays as it is.
unfoldable pub boot_overlay : (db : BlockTable) → Bool → ℕ → ℕ → Memory → db.Rows → Memory
boot_overlay db works vm_id size disk rows =
    if works then overlay size disk (db.select rows vm_id) else disk
