-- ===== src/Mmu/Faults.antt =====
-- extension/rv64_mmu.c: the exception codes of a translation.
use pglinux.Base.{
  subst, ℕ, zero, suc, ◌+◌, ◌*◌, ◌≡◌, refl, if_both, match_option, true, ◌||◌, not, ◌==◌,
}
use pglinux.Word.{nonzero, ◌&&&◌, u64, ◌>>>◌}
use pglinux.Ram.{Memory}
use pglinux.Virtio.{VirtioDev}
use pglinux.Cpu.{Cpu, Access, priv_m}
use pglinux.Mmu.{
  Translated, phys, fault, fault_code, tlb_ok, tlb_index, read_pte, leaf_ok, take_leaf, walk,
  translate, vpn,
}

-- An address, or the exception `code`.
unfoldable pub FaultsWith : ℕ → Translated × Cpu → Type 0
FaultsWith code (phys pa, c) = true ≡ true
FaultsWith code (fault e, c) = e ≡ code

faults : (e : ℕ) (c : Cpu) → FaultsWith e (fault e, c)
unfolding FaultsWith
faults e c = refl

found : (e pa : ℕ) (c : Cpu) → FaultsWith e (phys pa, c)
unfolding FaultsWith
found e pa c = refl

pub fault-FaultsWith :
    (code e : ℕ) (r : Translated × Cpu) → r.0 ≡ fault e → FaultsWith code r → e ≡ code
unfolding FaultsWith
fault-FaultsWith code e r h f = subst (λ t. FaultsWith code (t, r.1)) h f

module _ (net_process : VirtioDev → ℕ → Memory → ℕ → VirtioDev × Memory) where
  walk-FaultsWith :
      (level : ℕ) (c : Cpu) (pt_addr vaddr : ℕ) (access : Access)
      → FaultsWith (fault_code access) (walk net_process level c pt_addr vaddr access)
  unfolding walk take_leaf
  walk-FaultsWith zero c pt_addr vaddr access = faults (fault_code access) c
  walk-FaultsWith (suc level) c pt_addr vaddr access =
      let got = read_pte c (u64 (pt_addr + vpn level vaddr * 8)) in
      let P : Translated × Cpu → Type 0 = FaultsWith (fault_code access) in
      let failed = faults (fault_code access) got.1 in
      match_option P got.0 failed λ pte.
        if_both P (not (nonzero (pte &&& 1)) || ((pte &&& 14) == 4 || (pte &&& 14) == 12)) failed (
          if_both P ((pte &&& 14) == 0) (walk-FaultsWith level got.1 _ vaddr access)
            (if_both P (leaf_ok got.1 pte access level) (found (fault_code access) _ _) failed))

  pub translate-FaultsWith :
      (c : Cpu) (vaddr : ℕ) (access : Access)
      → FaultsWith (fault_code access) (translate net_process c vaddr access)
  unfolding translate
  translate-FaultsWith c vaddr access =
      let P : Translated × Cpu → Type 0 = FaultsWith (fault_code access) in
      if_both P (c.priv == priv_m) (found (fault_code access) vaddr c) (
        if_both P (c.satp >>> 60 == 0) (found (fault_code access) vaddr c) (
          if_both P (tlb_ok c (c.tlb (tlb_index vaddr)) vaddr access)
            (found (fault_code access) _ _) (walk-FaultsWith 3 _ _ vaddr access)))
