-- ===== src/Disk/Saved.antt =====
-- extension/rv64_pgext.c: the blocks that are not dirty are in the table.
use mathlib.Core.Bool.{true≢false}
use pglinux.Base.{
  case_both, subst, if_yes, ℕ, zero, suc, ◌+◌, ◌*◌, ◌/◌, ◌%◌, ◌^◌, ◌<◌, ◌≤◌, ◌≡◌, refl, sym, ap,
  ◌∙◌, Bool, true, false, not, ◌&&◌, ◌||◌, ◌==◌, ltb, leb, if_both, if_no, Bool-cases, inl, inr,
  ==→eq, ==→ne, Option, none, some, arith,
}
use pglinux.Ram.{Memory}
use pglinux.Virtio.{copy_bytes}
use pglinux.Disk.{
  dirty_get, dirty_clr, worker_vm_id, vm_dirty_callback, disk_block_size, Block, BlockTable,
  DiskState, flush_block, flush_loop, block_count, block_len, worker_flush_dirty_blocks,
}
use pglinux.Disk.Bitmap.{dirty_get-dirty_clr}
use pglinux.Disk.Marks.{overlaps, marks_overlaps}

or_left : (a b : Bool) → (a || b) ≡ false → a ≡ false
or_left true b h = h
or_left false b h = refl

or_right : (a b : Bool) → (a || b) ≡ false → b ≡ false
or_right true b h = absurd (true≢false h)
or_right false b h = h

module _ (db : BlockTable) where
  -- Byte `i` of the image that the next boot puts together from the base image and the table.
  abbrev pub byte_of : Memory → ℕ → Option Block → ℕ
  byte_of base i none = base i
  byte_of base i (some v) = v.bytes (i % disk_block_size)

  abbrev len_of : Option Block → ℕ
  len_of none = 0
  len_of (some v) = v.len

  abbrev pub restored : Memory → db.Rows → Memory
  restored base t i = byte_of base i (db.lookup t worker_vm_id (i / disk_block_size))

  -- Every byte of a block that is not dirty will be restored, and every row has its block's length.
  pub record IsSaved (base : Memory) (d : DiskState db) : Type 0 where
    pub clean :
        (i : ℕ)
        → i < d.size
        → dirty_get d.bitmap (i / disk_block_size) ≡ false
        → d.disk i ≡ restored base d.rows i
    pub lens :
        (b : ℕ) (v : Block)
        → db.lookup d.rows worker_vm_id b ≡ some v
        → v.len ≡ block_len db d.size b

  -- What happens to a disk: a request writes bytes within the image and marks them, or the worker
  -- flushes and the INSERTs work, if it gets a connection. Writes after a reset of the device by the
  -- driver, which drops the tracker, are no step.
  pub data Step (d : DiskState db) : DiskState db → Type 0 where
    wrote :
        (offset length : ℕ) (src : Memory) (s : ℕ)
        → offset + length ≤ d.size
        → Step d (record d {
          disk = copy_bytes d.disk offset src s length;
          bitmap = vm_dirty_callback d.bitmap offset length;
        })
    flush :
        (works : ℕ → Bool) (connected : Bool)
        → ((b : ℕ) → works b ≡ true)
        → Step d (worker_flush_dirty_blocks db works connected d)

  pub data Reach (d : DiskState db) : DiskState db → Type 0 where
    here : Reach d d
    later : (e f : DiskState db) → Reach d e → Step e f → Reach d f

  module _ (works : ℕ → Bool) where
    size-flush_loop :
        (n b flushed : ℕ) (d : DiskState db) → (flush_loop db works n b flushed d).size ≡ d.size
    unfolding flush_loop flush_block
    size-flush_loop zero b flushed d = refl
    size-flush_loop (suc n) b flushed d =
        let P : DiskState db → Type 0 = λ e. e.size ≡ d.size in
        case_both P (dirty_get d.bitmap b) (size-flush_loop n (b + 1) flushed d) (
          case_both P (leb 256 (flushed + 1))
            (size-flush_loop n (b + 1) (flushed + 1) (flush_block db works d b)) refl)

    size-flush :
        (connected : Bool) (d : DiskState db)
        → (worker_flush_dirty_blocks db works connected d).size ≡ d.size
    unfolding worker_flush_dirty_blocks
    size-flush connected d =
        let P : DiskState db → Type 0 = λ e. e.size ≡ d.size in
        if_both P (d.size == 0) refl
          (if_both P (not connected) refl (size-flush_loop (block_count db d.size) 0 0 d))

  size-Step : (d e : DiskState db) → Step d e → e.size ≡ d.size
  size-Step d _ (wrote offset length src s within) = refl
  size-Step d _ (flush works connected all) = size-flush works connected d

  pub size-Reach : (d e : DiskState db) → Reach d e → e.size ≡ d.size
  size-Reach d _ here = refl
  size-Reach d f (later e _ r t) = size-Step e f t ∙ size-Reach d e r

  module _ (base : Memory) where
    -- The block in the table.
    stored : DiskState db → ℕ → DiskState db
    stored d b = record d {
      bitmap = dirty_clr d.bitmap b;
      rows =
          db.upsert d.rows worker_vm_id b
            (record { len = block_len db d.size b; bytes = λ i. d.disk (b * disk_block_size + i) });
    }

    stored-IsSaved : (d : DiskState db) (b : ℕ) → IsSaved base d → IsSaved base (stored d b)
    unfolding stored
    stored-IsSaved d b h = record {
      clean = λ i lt quiet. elim (Bool-cases (i / 4096 == b)) [
        | inl e ↦ written i (==→eq (i / 4096) b e)
        | inr ne ↦ kept i lt ne (sym (dirty_get-dirty_clr d.bitmap b (i / 4096)) ∙ quiet)
      ];
      lens = λ a v e. elim (Bool-cases (a == b)) [
        | inl same ↦
            sym (
              ap len_of (
                sym (db.lookup_new d.rows worker_vm_id b block)
                ∙ ap (db.lookup (db.upsert d.rows worker_vm_id b block) worker_vm_id)
                    (sym (==→eq a b same))
                ∙ e))
            ∙ ap (block_len db d.size) (sym (==→eq a b same))
        | inr ne ↦ h.lens a v (sym (db.lookup_old d.rows worker_vm_id b block a (==→ne a b ne)) ∙ e)
      ];
    }
      where
        block : Block
        block = record {
          len = block_len db d.size b;
          bytes = λ i. d.disk (b * disk_block_size + i);
        }

        written :
            (i : ℕ)
            → i / 4096 ≡ b
            → d.disk i ≡ restored base (db.upsert d.rows worker_vm_id b block) i
        written i e =
            ap d.disk (let same : i ≡ b * 4096 + i % 4096 = omega (arith, e) in same)
            ∙ sym (
                ap (byte_of base i) (
                  ap (db.lookup (db.upsert d.rows worker_vm_id b block) worker_vm_id) e
                  ∙ db.lookup_new d.rows worker_vm_id b block))

        kept :
            (i : ℕ)
            → i < d.size
            → (i / 4096 == b) ≡ false
            → (not (i / 4096 == b) && dirty_get d.bitmap (i / 4096)) ≡ false
            → d.disk i ≡ restored base (db.upsert d.rows worker_vm_id b block) i
        kept i lt ne quiet =
            h.clean i lt (rw (sym (ap (λ t. not t && dirty_get d.bitmap (i / 4096)) ne)) quiet)
            ∙ sym (
                ap (byte_of base i)
                  (db.lookup_old d.rows worker_vm_id b block (i / 4096) (==→ne (i / 4096) b ne)))

    module _ (works : ℕ → Bool) (all : (b : ℕ) → works b ≡ true) where
      flush_block-IsSaved :
          (d : DiskState db) (b : ℕ) → IsSaved base d → IsSaved base (flush_block db works d b)
      unfolding flush_block stored
      flush_block-IsSaved d b h =
          subst (IsSaved base)
            (ap
              (λ (r : db.Rows).
                let e : DiskState db = record d { bitmap = dirty_clr d.bitmap b; rows = r } in e)
              (sym (if_yes (works b) _ _ (all b))))
            (stored-IsSaved d b h)

      flush_loop-IsSaved :
          (n b flushed : ℕ) (d : DiskState db)
          → IsSaved base d
          → IsSaved base (flush_loop db works n b flushed d)
      unfolding flush_loop
      flush_loop-IsSaved zero b flushed d h = h
      flush_loop-IsSaved (suc n) b flushed d h =
          case_both (IsSaved base) (dirty_get d.bitmap b) (flush_loop-IsSaved n (b + 1) flushed d h)
            (case_both (IsSaved base) (leb 256 (flushed + 1))
              (flush_loop-IsSaved n (b + 1) (flushed + 1) (flush_block db works d b)
                (flush_block-IsSaved d b h))
              (flush_block-IsSaved d b h))

      flush-IsSaved :
          (connected : Bool) (d : DiskState db)
          → IsSaved base d
          → IsSaved base (worker_flush_dirty_blocks db works connected d)
      unfolding worker_flush_dirty_blocks
      flush-IsSaved connected d h = if_both (IsSaved base) (d.size == 0) h (
          if_both (IsSaved base) (not connected) h
            (flush_loop-IsSaved (block_count db d.size) 0 0 d h))

    write-IsSaved :
        (d : DiskState db) (offset length : ℕ) (src : Memory) (s : ℕ)
        → offset + length + 4095 < 2 ^ 64
        → IsSaved base d
        → IsSaved base (record d {
          disk = copy_bytes d.disk offset src s length;
          bitmap = vm_dirty_callback d.bitmap offset length;
        })
    unfolding copy_bytes
    write-IsSaved d offset length src s fits h = record {
      clean = λ i lt quiet.
          let clear = sym (marks_overlaps d.bitmap offset length (i / 4096) fits) ∙ quiet in
          if_no (leb offset i && ltb i (offset + length)) _ _ (outside i (or_left _ _ clear))
          ∙ h.clean i lt (or_right _ _ clear);
      lens = h.lens;
    }
      where
        outside :
            (i : ℕ)
            → overlaps offset length (i / 4096) ≡ false
            → (leb offset i && ltb i (offset + length)) ≡ false
        outside i e = ground (arith, e)

    IsSaved-after :
        (d e : DiskState db) → d.size + 4095 < 2 ^ 64 → IsSaved base d → Step d e → IsSaved base e
    IsSaved-after d _ fits h (wrote offset length src s within) =
        write-IsSaved d offset length src s (omega (arith, fits, within)) h
    IsSaved-after d _ fits h (flush works connected all) = flush-IsSaved works all connected d h

    -- Whatever requests write and mark and however often the worker flushes with INSERTs that work, every
    -- byte of a block that is not dirty is the byte that the rows of vm_id 1 and the base image give, for
    -- an image that ends below 2 ^ 64 - 4095, where this holds at the start and the rows have the
    -- lengths of their blocks.
    pub Reach-IsSaved :
        (d e : DiskState db) → d.size + 4095 < 2 ^ 64 → IsSaved base d → Reach d e → IsSaved base e
    Reach-IsSaved d _ fits h here = h
    Reach-IsSaved d f fits h (later e _ r t) =
        IsSaved-after e f (omega (arith, fits, size-Reach d e r)) (Reach-IsSaved d e fits h r) t
