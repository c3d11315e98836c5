-- ===== src/Disk/Lost.antt =====
-- extension/rv64_pgext.c: the worker writes every machine's blocks under one vm_id.
use pglinux.Base.{
  ℕ, zero, suc, ◌+◌, ◌<◌, ◌≤◌, ◌≡◌, ◌≢◌, refl, ◌∙◌, Bool, true, false, not, ◌==◌, leb, if_both,
  case_both,
}
use pglinux.Disk.{
  dirty_get, worker_vm_id, BlockTable, DiskState, flush_block, flush_loop, block_count,
  worker_flush_dirty_blocks,
}
use pglinux.Disk.Flush.{count_dirty, flush_cleans}

module _ (db : BlockTable) (works : ℕ → Bool) (vm : ℕ) (other : vm ≢ worker_vm_id) where
  -- The rows of `vm` in `e` are those in `d`.
  abbrev SameRows : DiskState db → DiskState db → Type 0
  SameRows d e = (a : ℕ) → db.lookup e.rows vm a ≡ db.lookup d.rows vm a

  flush_block-SameRows : (d : DiskState db) (b : ℕ) → SameRows d (flush_block db works d b)
  unfolding flush_block
  flush_block-SameRows d b a =
      if_both (λ (r : db.Rows). db.lookup r vm a ≡ db.lookup d.rows vm a) (works b)
        (db.lookup_other d.rows worker_vm_id b _ vm a other) refl

  flush_loop-SameRows :
      (n b flushed : ℕ) (d : DiskState db) → SameRows d (flush_loop db works n b flushed d)
  unfolding flush_loop
  flush_loop-SameRows zero b flushed d a = refl
  flush_loop-SameRows (suc n) b flushed d a =
      let P : DiskState db → Type 0 = λ e. db.lookup e.rows vm a ≡ db.lookup d.rows vm a in
      let e = flush_block db works d b in
      case_both P (dirty_get d.bitmap b) (flush_loop-SameRows n (b + 1) flushed d a) (
        case_both P (leb 256 (flushed + 1))
          (flush_loop-SameRows n (b + 1) (flushed + 1) e a ∙ flush_block-SameRows d b a)
          (flush_block-SameRows d b a))

  flush-SameRows :
      (connected : Bool) (d : DiskState db)
      → SameRows d (worker_flush_dirty_blocks db works connected d)
  unfolding worker_flush_dirty_blocks
  flush-SameRows connected d a =
      let P : DiskState db → Type 0 = λ e. db.lookup e.rows vm a ≡ db.lookup d.rows vm a in
      if_both P (d.size == 0) refl
        (if_both P (not connected) refl (flush_loop-SameRows (block_count db d.size) 0 0 d a))

  -- A flush with a connection to the server, of an image with at most 256 dirty blocks, loses the
  -- blocks of a machine whose vm_id is not 1: none of them is dirty any more, and none of the rows of
  -- that vm_id has changed.
  pub flush_loses :
      (d : DiskState db) (a : ℕ)
      → count_dirty d.bitmap 0 (block_count db d.size) ≤ 256
      → a < block_count db d.size
      → let e = worker_flush_dirty_blocks db works true d in
        (dirty_get e.bitmap a ≡ false) × (db.lookup e.rows vm a ≡ db.lookup d.rows vm a)
  flush_loses d a few inside = (flush_cleans db works d a few inside, flush-SameRows true d a)
