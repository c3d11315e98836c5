-- ===== src/Mmu/Again.antt =====
-- extension/rv64_mmu.c: a translation repeated is served by the TLB, with the address of the walk.
use pglinux.Base.{
  update_self, subst, ℕ, zero, suc, ◌+◌, ◌*◌, ◌≡◌, refl, ap, ◌∙◌, if_both, if_yes, match_option,
  true, false, ◌||◌, not, ◌==◌, if◌then◌else◌,
}
use pglinux.Word.{nonzero, ◌&&&◌, ◌|||◌, u64, ◌<<<◌, ◌>>>◌}
use pglinux.Ram.{Memory}
use pglinux.Virtio.{VirtioDev}
use pglinux.Cpu.{Cpu, Access, TlbEntry, priv_m}
use pglinux.Cpu.Hart.{Hart, hart, hart-Kept}
use pglinux.Bus.{bus_store}
use pglinux.Mmu.{
  Translated, phys, fault, tlb_ok, tlb_index, hit_offset, read_pte, leaf_ok, touched, leaf_address,
  new_entry, take_leaf, walk, translate, vpn, fault_code,
}
use pglinux.Mmu.Keeps.{translate-Kept}
use pglinux.Mmu.Hits.{translate-tlb_ok}
use pglinux.Mmu.Address.{leaf_address-again}

-- The address of a hit on the entry.
abbrev hit_address : TlbEntry → ℕ → ℕ
hit_address te vaddr = u64 (te.ppn <<< 12) ||| hit_offset te vaddr

-- The outcome is a fault, or the entry that the TLB has for the page gives the same address.
Gives : ℕ → Translated × Cpu → Type 0
Gives vaddr (fault e, c) = true ≡ true
Gives vaddr (phys pa, c) = hit_address (c.tlb (tlb_index vaddr)) vaddr ≡ pa

fault-Gives : (vaddr : ℕ) (e : ℕ) (c : Cpu) → Gives vaddr (fault e, c)
unfolding Gives
fault-Gives vaddr e c = refl

new_entry-again :
    (c : Cpu) (pte new_pte level vaddr : ℕ)
    → hit_address (new_entry c pte new_pte level vaddr (leaf_address pte level vaddr)) vaddr
      ≡ leaf_address pte level vaddr
unfolding new_entry hit_offset
new_entry-again c pte new_pte level vaddr = leaf_address-again pte level vaddr

module _ (net_process : VirtioDev → ℕ → Memory → ℕ → VirtioDev × Memory) where
  take_leaf-Gives :
      (c : Cpu) (pte pte_addr level vaddr : ℕ) (access : Access)
      → Gives vaddr (take_leaf net_process c pte pte_addr level vaddr access)
  unfolding Gives take_leaf
  take_leaf-Gives c pte pte_addr level vaddr access =
      let new_pte = touched pte access in
      let c1 = if new_pte == pte then c else (bus_store net_process c pte_addr 8 new_pte).1 in
      let te = new_entry c1 pte new_pte level vaddr (leaf_address pte level vaddr) in
      ap (λ (e : TlbEntry). hit_address e vaddr) (update_self c1.tlb (tlb_index vaddr) te)
      ∙ new_entry-again c1 pte new_pte level vaddr

  walk-Gives :
      (level : ℕ) (c : Cpu) (pt_addr vaddr : ℕ) (access : Access)
      → Gives vaddr (walk net_process level c pt_addr vaddr access)
  unfolding walk
  walk-Gives zero c pt_addr vaddr access = fault-Gives vaddr _ c
  walk-Gives (suc level) c pt_addr vaddr access =
      let got = read_pte c (u64 (pt_addr + vpn level vaddr * 8)) in
      let P : Translated × Cpu → Type 0 = Gives vaddr in
      let failed = fault-Gives vaddr (fault_code access) got.1 in
      match_option P got.0 failed λ pte.
        if_both P (not (nonzero (pte &&& 1)) || ((pte &&& 14) == 4 || (pte &&& 14) == 12)) failed (
          if_both P ((pte &&& 14) == 0) (walk-Gives level got.1 _ vaddr access) (
            if_both P (leaf_ok got.1 pte access level)
              (take_leaf-Gives got.1 pte _ level vaddr access) failed))

  translate-Gives :
      (c : Cpu) (vaddr : ℕ) (access : Access)
      → (c.priv == priv_m) ≡ false
      → (c.satp >>> 60 == 0) ≡ false
      → Gives vaddr (translate net_process c vaddr access)
  unfolding translate Gives
  translate-Gives c vaddr access p s =
      rw (p, s)
        (if_both (Gives vaddr) (tlb_ok c (c.tlb (tlb_index vaddr)) vaddr access) refl
          (walk-Gives 3 _ _ vaddr access))

  -- A hit under Sv39.
  translate-hit :
      (c : Cpu) (vaddr : ℕ) (access : Access)
      → (c.priv == priv_m) ≡ false
      → (c.satp >>> 60 == 0) ≡ false
      → tlb_ok c (c.tlb (tlb_index vaddr)) vaddr access ≡ true
      → translate net_process c vaddr access ≡ (
        phys (hit_address (c.tlb (tlb_index vaddr)) vaddr),
        record c { tlb_hits = u64 (c.tlb_hits + 1) },
      )
  unfolding translate
  translate-hit c vaddr access p s ok = rw (p, s) (if_yes _ _ _ ok)

  -- A translation that succeeded under Sv39 below machine mode gives the same physical address when
  -- it is repeated in the state that it left, which changes only the counter of the TLB's hits.
  pub translate-translate :
      (c : Cpu) (vaddr : ℕ) (access : Access) (pa : ℕ)
      → (c.priv == priv_m) ≡ false
      → (c.satp >>> 60 == 0) ≡ false
      → (translate net_process c vaddr access).0 ≡ phys pa
      → translate net_process (translate net_process c vaddr access).1 vaddr access ≡ (
        phys pa,
        record (translate net_process c vaddr access).1 {
          tlb_hits = u64 ((translate net_process c vaddr access).1.tlb_hits + 1);
        },
      )
  unfolding Gives
  translate-translate c vaddr access pa p s got =
      let d = (translate net_process c vaddr access).1 in
      let same : hart d ≡ hart c = hart-Kept _ c (translate-Kept net_process c vaddr access) in
      let same_address : hit_address (d.tlb (tlb_index vaddr)) vaddr ≡ pa =
        subst (λ t. Gives vaddr (t, d)) got (translate-Gives c vaddr access p s) in
      translate-hit d vaddr access (ap (λ (h : Hart). h.priv == priv_m) same ∙ p)
        (ap (λ (h : Hart). h.satp >>> 60 == 0) same ∙ s)
        (translate-tlb_ok net_process c vaddr access pa p s got)
      ∙ ap
          (λ (a : ℕ).
            let hit : Translated × Cpu = (phys a, record d { tlb_hits = u64 (d.tlb_hits + 1) }) in
            hit)
          same_address
