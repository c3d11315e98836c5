-- ===== src/Tests/Disks.antt =====
-- Runs of the theorems on the blocks of the disk image.
use mathlib.Core.Bool.{true≢false}
use pglinux.Tests.Table.{rows_fun}
use pglinux.Disk.{boot_overlay, worker_vm_id}
use pglinux.Base.{◌≢◌}
use pglinux.Disk.Lost.{flush_loses}
use pglinux.Disk.Boot.{boot_restores}
use pglinux.Base.{
  Bool, true, refl, ◌/◌, sym, ap, ◌∙◌, ltb, if_no, ℕ, ◌≤◌, ◌≡◌, false, ◌||◌, Option, none, some,
  ◌==◌, if◌then◌else◌, arith,
}
use pglinux.Virtio.{copy_bytes}
use pglinux.Disk.{
  Block, DiskState, dirty_get, vm_dirty_callback, worker_flush_dirty_blocks, block_count,
}
use pglinux.Disk.Marks.{overlaps, marks_overlaps}
use pglinux.Disk.Saved.{
  IsSaved, Reach, here, later, wrote, flush, Reach-IsSaved, byte_of, size-Reach,
}
use pglinux.Disk.Flush.{count_dirty, flush_cleans}

-- An image of three blocks, the last of one byte, of which the second is dirty.
abbrev small_disk : DiskState rows_fun
small_disk = record {
  disk = (λ i. 7);
  size = 8193;
  bitmap = (λ i. if i == 0 then 2 else 0);
  rows = (λ vm. ((λ b. none), 0));
}

abbrev all_work : ℕ → Bool
all_work b = true

is_none : Option Block → Bool
is_none none = true
is_none (some v) = false

marks_overlaps_example :
    dirty_get (vm_dirty_callback small_disk.bitmap 4095 2) 0
    ≡ (overlaps 4095 2 0 || dirty_get small_disk.bitmap 0)
marks_overlaps_example = marks_overlaps small_disk.bitmap 4095 2 0 (omega arith)

empty_table : (b : ℕ) → rows_fun.lookup small_disk.rows worker_vm_id b ≡ none
empty_table b = if_no (ltb b 0) none none (ground arith)

small-IsSaved : IsSaved rows_fun (λ i. 7) small_disk
unfolding is_none
small-IsSaved = record {
  clean = λ i lt quiet. sym (ap (byte_of rows_fun (λ i. 7) i) (empty_table (i / 4096)));
  lens = λ b v e. absurd (true≢false (ap is_none (sym (empty_table b) ∙ e)));
}

-- A write over the border of two blocks, and a flush.
written_then_flushed : Reach rows_fun small_disk (
    worker_flush_dirty_blocks rows_fun all_work true (record small_disk {
      disk = copy_bytes small_disk.disk 4095 (λ i. i) 0 2;
      bitmap = vm_dirty_callback small_disk.bitmap 4095 2;
    }))
written_then_flushed =
    later _ _ (later _ _ here (wrote 4095 2 (λ i. i) 0 (omega arith)))
      (flush all_work true (λ b. refl))

Reach-IsSaved_example :
    IsSaved rows_fun
      (λ i. 7)
      (worker_flush_dirty_blocks rows_fun all_work true (record small_disk {
        disk = copy_bytes small_disk.disk 4095 (λ i. i) 0 2;
        bitmap = vm_dirty_callback small_disk.bitmap 4095 2;
      }))
Reach-IsSaved_example =
    Reach-IsSaved rows_fun (λ i. 7) small_disk _ (omega arith) small-IsSaved written_then_flushed

one_dirty : count_dirty small_disk.bitmap 0 (block_count rows_fun small_disk.size) ≤ 256
unfolding count_dirty dirty_get
one_dirty = omega arith

flush_cleans_example :
    dirty_get (worker_flush_dirty_blocks rows_fun all_work true small_disk).bitmap 1 ≡ false
flush_cleans_example = flush_cleans rows_fun all_work small_disk 1 one_dirty (omega arith)

flushed_once :
    Reach rows_fun small_disk (worker_flush_dirty_blocks rows_fun all_work true small_disk)
flushed_once = later _ _ here (flush all_work true (λ b. refl))

boot_restores_example :
    let e = worker_flush_dirty_blocks rows_fun all_work true small_disk in
    boot_overlay rows_fun true 1 e.size (λ i. 7) e.rows 4096 ≡ e.disk 4096
boot_restores_example =
    boot_restores rows_fun (λ i. 7) small_disk
      (worker_flush_dirty_blocks rows_fun all_work true small_disk) 1 4096 refl (omega arith)
      small-IsSaved flushed_once (omega (arith, size-Reach rows_fun small_disk _ flushed_once))
      (flush_cleans rows_fun all_work small_disk 1 one_dirty (omega arith))

-- The machine has the vm_id 2.
two_is_other : 2 ≢ worker_vm_id
two_is_other e = absurd (omega (arith, e))

flush_loses_example :
    let e = worker_flush_dirty_blocks rows_fun all_work true small_disk in
    (dirty_get e.bitmap 1 ≡ false)
    × (rows_fun.lookup e.rows 2 1 ≡ rows_fun.lookup small_disk.rows 2 1)
flush_loses_example =
    flush_loses rows_fun all_work 2 two_is_other small_disk 1 one_dirty (omega arith)
