-- ===== src/Mmu/Keeps.antt =====
-- extension/rv64_mmu.c: a translation does not touch the registers of the hart.
use pglinux.Base.{
  ℕ, zero, suc, ◌+◌, ◌*◌, ◌≡◌, refl, if_both, match_option, ◌&&◌, ◌||◌, Option, not, ◌==◌, leb,
}
use pglinux.Word.{nonzero, ◌&&&◌, u64, ◌>>>◌}
use pglinux.Ram.{Memory}
use pglinux.Virtio.{VirtioDev, ram_base}
use pglinux.Cpu.{Cpu, Access, priv_m}
use pglinux.Cpu.Hart.{hart, Kept, kept, hart-Kept, Kept-trans}
use pglinux.Bus.Keeps.{bus_load-Kept, bus_store-Kept}
use pglinux.Mmu.{
  tlb_flush, Translated, read_pte, take_leaf, walk, translate, touched, vpn, leaf_ok, tlb_index,
  tlb_ok,
}

pub x-tlb_flush : (c : Cpu) → (tlb_flush c).x ≡ c.x
unfolding tlb_flush
x-tlb_flush c = refl

pub read_pte-Kept : (c : Cpu) (addr : ℕ) → Kept c (read_pte c addr)
unfolding read_pte
read_pte-Kept c addr =
    let P : Option ℕ × Cpu → Type 0 = Kept c in
    if_both P (leb ram_base addr && leb (u64 (addr + 8)) (u64 (ram_base + c.ram_size)))
      (if_both P c.ram_mapped (kept c _ _ refl) (kept c _ _ refl)) (bus_load-Kept c addr 8)

module _ (net_process : VirtioDev → ℕ → Memory → ℕ → VirtioDev × Memory) where
  take_leaf-Kept :
      (c : Cpu) (pte pte_addr level vaddr : ℕ) (access : Access)
      → Kept c (take_leaf net_process c pte pte_addr level vaddr access)
  unfolding take_leaf
  take_leaf-Kept c pte pte_addr level vaddr access = kept c _ _ (
      if_both (λ (d : Cpu). hart d ≡ hart c) (touched pte access == pte) refl
        (hart-Kept _ c (bus_store-Kept net_process c pte_addr 8 (touched pte access))))

  walk-Kept :
      (level : ℕ) (c : Cpu) (pt_addr vaddr : ℕ) (access : Access)
      → Kept c (walk net_process level c pt_addr vaddr access)
  unfolding walk
  walk-Kept zero c pt_addr vaddr access = kept c _ _ refl
  walk-Kept (suc level) c pt_addr vaddr access =
      let got = read_pte c (u64 (pt_addr + vpn level vaddr * 8)) in
      let same : hart got.1 ≡ hart c = hart-Kept got c (read_pte-Kept c _) in
      let c1 = got.1 in
      let P : Translated × Cpu → Type 0 = Kept c in
      match_option P got.0 (kept c _ _ same) λ pte.
        if_both P (not (nonzero (pte &&& 1)) || ((pte &&& 14) == 4 || (pte &&& 14) == 12))
          (kept c _ _ same)
          (if_both P ((pte &&& 14) == 0)
            (Kept-trans c c1 _ same (walk-Kept level c1 _ vaddr access))
            (if_both P (leaf_ok c1 pte access level)
              (Kept-trans c c1 _ same (take_leaf-Kept c1 pte _ level vaddr access))
              (kept c _ _ same)))

  pub translate-Kept :
      (c : Cpu) (vaddr : ℕ) (access : Access) → Kept c (translate net_process c vaddr access)
  unfolding translate
  translate-Kept c vaddr access =
      let P : Translated × Cpu → Type 0 = Kept c in
      if_both P (c.priv == priv_m) (kept c _ _ refl) (
        if_both P (c.satp >>> 60 == 0) (kept c _ _ refl) (
          if_both P (tlb_ok c (c.tlb (tlb_index vaddr)) vaddr access) (kept c _ _ refl) (
            Kept-trans c (record c { tlb_misses = u64 (c.tlb_misses + 1) }) _ refl
              (walk-Kept 3 _ _ vaddr access))))
