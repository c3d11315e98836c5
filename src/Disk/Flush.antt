-- ===== src/Disk/Flush.antt =====
-- extension/rv64_pgext.c: a flush of few dirty blocks leaves none.
use pglinux.Base.{
  ℕ, zero, suc, ◌+◌, ◌<◌, ◌≤◌, ◌≡◌, ◌≢◌, refl, ap, ◌∙◌, Bool, true, false, not, ◌&&◌, ◌⊎◌, ◌==◌,
  leb, if_split, Bool-cases, inl, inr, ==→eq, ==→ne, ne→==, if◌then◌else◌, arith,
}
use pglinux.Disk.{
  dirty_get, BlockTable, DiskState, flush_block, flush_loop, block_count, worker_flush_dirty_blocks,
}
use pglinux.Disk.Bitmap.{dirty_get-dirty_clr}

-- The number of dirty blocks among the `n` blocks from `b` on.
unfoldable pub count_dirty : (ℕ → ℕ) → ℕ → ℕ → ℕ
count_dirty m b zero = 0
count_dirty m b (suc n) = (if dirty_get m b then 1 else 0) + count_dirty m (b + 1) n

-- No block among them is dirty.
none_dirty :
    (n : ℕ) (m : ℕ → ℕ) (b a : ℕ)
    → count_dirty m b n ≡ 0
    → b ≤ a
    → a < b + n
    → dirty_get m a ≡ false
unfolding count_dirty
none_dirty zero m b a e le lt = absurd (omega (arith, le, lt))
none_dirty (suc n) m b a e le lt = elim (Bool-cases (a == b)) [
  | inl same ↦
      let clean : dirty_get m b ≡ false = ground (arith, e) in
      ap (dirty_get m) (==→eq a b same) ∙ clean
  | inr other ↦
      none_dirty n m (b + 1) a (omega (arith, e)) (ground (arith, le, other)) (omega (arith, lt))
]

-- A cleared block below the range does not count in it.
count_clr :
    (n : ℕ) (m k : ℕ → ℕ) (b : ℕ)
    → ((a : ℕ) → b ≤ a → dirty_get k a ≡ dirty_get m a)
    → count_dirty k b n ≡ count_dirty m b n
unfolding count_dirty
count_clr zero m k b h = refl
count_clr (suc n) m k b h =
    ap (λ (t : Bool). (if t then 1 else 0) + count_dirty k (b + 1) n) (h b (omega arith))
    ∙ ap (λ (t : ℕ). (if dirty_get m b then 1 else 0) + t)
        (count_clr n m k (b + 1) λ a le. h a (omega (arith, le)))

module _ (db : BlockTable) (works : ℕ → Bool) where
  cleared_only :
      (d : DiskState db) (b a : ℕ)
      → a ≢ b
      → dirty_get (flush_block db works d b).bitmap a ≡ dirty_get d.bitmap a
  unfolding flush_block
  cleared_only d b a ne =
      dirty_get-dirty_clr d.bitmap b a
      ∙ ap (λ (t : Bool). not t && dirty_get d.bitmap a) (ne→== a b ne)

  cleared : (d : DiskState db) (b : ℕ) → dirty_get (flush_block db works d b).bitmap b ≡ false
  unfolding flush_block
  cleared d b =
      dirty_get-dirty_clr d.bitmap b b
      ∙ ap (λ (t : Bool). not t && dirty_get d.bitmap b)
          (let e : (b == b) ≡ true = ground arith in e)

  -- The loop cleans its range, and leaves clean what is.
  loop_cleans :
      (n b done : ℕ) (d : DiskState db)
      → count_dirty d.bitmap b n + done ≤ 256
      → (a : ℕ) → ((b ≤ a) × (a < b + n)) ⊎ (dirty_get d.bitmap a ≡ false)
      → dirty_get (flush_loop db works n b done d).bitmap a ≡ false
  unfolding flush_loop count_dirty
  loop_cleans zero b done d few a (inl (le, lt)) = absurd (omega (arith, le, lt))
  loop_cleans zero b done d few a (inr e) = e
  loop_cleans (suc n) b done d few a w = elim (Bool-cases (dirty_get d.bitmap b)) [
    | inr clean ↦
        rw (flush_loop, clean)
          (loop_cleans n (b + 1) done d (ground (arith, few, clean)) a (next w clean))
    | inl dirty ↦
        let e = flush_block db works d b in
        let same : count_dirty e.bitmap (b + 1) n ≡ count_dirty d.bitmap (b + 1) n =
          count_clr n d.bitmap e.bitmap (b + 1) λ k le. cleared_only d b k (ground (arith, le)) in
        let fewer : count_dirty d.bitmap (b + 1) n + done + 1 ≤ 256 = ground (arith, few, dirty) in
        elim (Bool-cases (leb 256 (done + 1))) [
          | inr go ↦
              rw (flush_loop, dirty, go)
                (loop_cleans n (b + 1) (done + 1) e (omega (arith, fewer, same)) a flushed_next)
          | inl full ↦
              rw (flush_loop, dirty, full) (rest flushed_next (ground (arith, fewer, same, full)))
        ]
  ]
    where
      next :
          ((b ≤ a) × (a < b + suc n)) ⊎ (dirty_get d.bitmap a ≡ false)
          → dirty_get d.bitmap b ≡ false
          → ((b + 1 ≤ a) × (a < b + 1 + n)) ⊎ (dirty_get d.bitmap a ≡ false)
      next (inr e) clean = inr e
      next (inl (le, lt)) clean = elim (Bool-cases (a == b)) [
        | inl same ↦ inr (ap (dirty_get d.bitmap) (==→eq a b same) ∙ clean)
        | inr other ↦ inl (ground (arith, le, other), omega (arith, lt))
      ]

      split :
          ((b ≤ a) × (a < b + suc n)) ⊎ (dirty_get d.bitmap a ≡ false)
          → a ≢ b
          → ((b + 1 ≤ a) × (a < b + 1 + n))
            ⊎ (dirty_get (flush_block db works d b).bitmap a ≡ false)
      split (inl (le, lt)) ne = inl (ground (arith, le, ne), omega (arith, lt))
      split (inr e) ne = inr (cleared_only d b a ne ∙ e)

      flushed_next :
          ((b + 1 ≤ a) × (a < b + 1 + n)) ⊎ (dirty_get (flush_block db works d b).bitmap a ≡ false)
      flushed_next = elim (Bool-cases (a == b)) [
        | inl same ↦
            inr (ap (dirty_get (flush_block db works d b).bitmap) (==→eq a b same) ∙ cleared d b)
        | inr other ↦ split w (==→ne a b other)
      ]

      rest :
          ((b + 1 ≤ a) × (a < b + 1 + n)) ⊎ (dirty_get (flush_block db works d b).bitmap a ≡ false)
          → count_dirty (flush_block db works d b).bitmap (b + 1) n ≡ 0
          → dirty_get (flush_block db works d b).bitmap a ≡ false
      rest (inl (le, lt)) e = none_dirty n (flush_block db works d b).bitmap (b + 1) a e le lt
      rest (inr h) e = h

  -- A flush with a connection to the server, in which no statement raises an error, of an image with
  -- at most 256 dirty blocks leaves none of its blocks dirty, also where an INSERT returns an error code.
  pub flush_cleans :
      (d : DiskState db) (a : ℕ)
      → count_dirty d.bitmap 0 (block_count db d.size) ≤ 256
      → a < block_count db d.size
      → dirty_get (worker_flush_dirty_blocks db works true d).bitmap a ≡ false
  unfolding worker_flush_dirty_blocks
  flush_cleans d a few lt =
      if_split (λ (e : DiskState db). dirty_get e.bitmap a ≡ false) (d.size == 0)
        (λ empty. absurd (nothing empty))
        λ some.
          loop_cleans (block_count db d.size) 0 0 d (omega (arith, few)) a
            (inl (omega arith, omega (arith, lt)))
    where
      nothing : (d.size == 0) ≡ true → ⊥
      nothing e = ground (arith, e, lt)
