-- ===== src/Mmu/Hits.antt =====
-- extension/rv64_mmu.c: a translation under Sv39 leaves an entry in the TLB that serves the access.
use pglinux.Base.{
  subst, update_self, ==_self, ℕ, zero, suc, ◌+◌, ◌*◌, ◌≡◌, refl, ◌∙◌, if_both, if_split,
  match_option, Bool, true, false, ◌&&◌, ◌||◌, not, ◌==◌, ap, sym, if◌then◌else◌, arith, update,
  ◌^◌, ◌<◌,
}
use pglinux.Word.{nonzero, ◌&&&◌, ◌|||◌, u64, ◌>>>◌}
use pglinux.Ram.{Memory}
use pglinux.Virtio.{VirtioDev}
use pglinux.Cpu.{Cpu, Access, TlbEntry, priv_m}
use pglinux.Cpu.Hart.{Hart, hart, hart-Kept}
use mathlib.Core.Bool.{false≢true}
use pglinux.Word.{u8}
use pglinux.Word.Bits.{bit, bit-and, bit-le-one}
use pglinux.Word.Bits.Shift.{bit-mod}
use pglinux.Word.Bits.Single.{test_bit, bit-set}
use pglinux.Bus.{bus_store}
use pglinux.Bus.Keeps.{bus_store-Kept}
use pglinux.Mmu.{
  Translated, phys, fault, allows, privileged, dirty_ok, tlb_ok, tlb_index, read_pte, aligned,
  leaf_ok, touched, leaf_address, new_entry, take_leaf, walk, translate, vpn, fault_code, pte_d,
}

-- A flag of a page table entry that the TLB keeps: R, W, X and U.
flag :
    (j pte : ℕ)
    → j < 8
    → bit j 30 ≡ 1
    → nonzero (u8 (pte &&& 30) &&& 2 ^ j) ≡ nonzero (pte &&& 2 ^ j)
flag j pte h one =
    ap not (test_bit j (u8 (pte &&& 30)) ∙ ap (λ (b : ℕ). b == 0) same ∙ sym (test_bit j pte))
  where
    same : bit j (u8 (pte &&& 30)) ≡ bit j pte
    same = ground (arith, bit-mod j 8 (pte &&& 30), bit-and j pte 30, bit-le-one j pte, one)

allows_perm :
    (c d : Cpu) (pte : ℕ) (access : Access)
    → d.mstatus ≡ c.mstatus
    → allows d (u8 (pte &&& 30)) access ≡ allows c pte access
unfolding allows
allows_perm c d pte Access.read h =
    rw (flag 1 pte (omega arith) refl, flag 3 pte (omega arith) refl, h) refl
allows_perm c d pte Access.write h = flag 2 pte (omega arith) refl
allows_perm c d pte Access.exec h = flag 3 pte (omega arith) refl

privileged_perm :
    (c d : Cpu) (pte : ℕ)
    → d.mstatus ≡ c.mstatus
    → d.priv ≡ c.priv
    → privileged d (u8 (pte &&& 30)) ≡ privileged c pte
unfolding privileged
privileged_perm c d pte h g = rw (flag 4 pte (omega arith) refl, h, g) refl

-- A store sets the dirty flag.
touched_dirty :
    (c : Cpu) (te : TlbEntry) (pte : ℕ) (access : Access)
    → te.dirty ≡ nonzero (touched pte access &&& pte_d)
    → dirty_ok te access ≡ true
unfolding dirty_ok touched
touched_dirty c te pte Access.read h = refl
touched_dirty c te pte Access.exec h = refl
touched_dirty c te pte Access.write h =
    h
    ∙ ap not (test_bit 7 (pte ||| 64 ||| 2 ^ 7) ∙ ap (λ (b : ℕ). b == 0) (bit-set 7 7 (pte ||| 64)))

-- The four parts of the TLB check.
tlb_ok_intro :
    (c : Cpu) (te : TlbEntry) (vaddr : ℕ) (access : Access)
    → te.valid ≡ true
    → te.vpn ≡ vaddr >>> 12
    → allows c te.perm access ≡ true
    → dirty_ok te access ≡ true
    → privileged c te.perm ≡ true
    → tlb_ok c te vaddr access ≡ true
unfolding tlb_ok
tlb_ok_intro c te vaddr access v p a d r = rw (r, d, a, v, p, ==_self (vaddr >>> 12)) refl

and_left : (a b : Bool) → (a && b) ≡ true → a ≡ true
and_left true b h = refl
and_left false b h = h

and_right : (a b : Bool) → (a && b) ≡ true → b ≡ true
and_right true b h = h
and_right false b h = absurd (false≢true h)

-- The outcome is a fault, or the TLB has an entry that serves the access.
pub Hits : ℕ → Access → Translated × Cpu → Type 0
Hits vaddr access (fault e, c) = true ≡ true
Hits vaddr access (phys pa, c) = tlb_ok c (c.tlb (tlb_index vaddr)) vaddr access ≡ true

fault-Hits : (vaddr : ℕ) (access : Access) (e : ℕ) (c : Cpu) → Hits vaddr access (fault e, c)
unfolding Hits
fault-Hits vaddr access e c = refl

-- The counter of the hits plays no part in the check.
counted :
    (c : Cpu) (te : TlbEntry) (vaddr n : ℕ) (access : Access)
    → tlb_ok (record c { tlb_hits = n }) te vaddr access ≡ tlb_ok c te vaddr access
unfolding tlb_ok allows privileged
counted c te vaddr n Access.read = refl
counted c te vaddr n Access.write = refl
counted c te vaddr n Access.exec = refl

hit-Hits :
    (vaddr : ℕ) (access : Access) (pa n : ℕ) (c : Cpu)
    → tlb_ok c (c.tlb (tlb_index vaddr)) vaddr access ≡ true
    → Hits vaddr access (phys pa, record c { tlb_hits = n })
unfolding Hits
hit-Hits vaddr access pa n c h = counted c (c.tlb (tlb_index vaddr)) vaddr n access ∙ h

module _ (net_process : VirtioDev → ℕ → Memory → ℕ → VirtioDev × Memory) where
  take_leaf-Hits :
      (c : Cpu) (pte pte_addr level vaddr : ℕ) (access : Access)
      → leaf_ok c pte access level ≡ true
      → Hits vaddr access (take_leaf net_process c pte pte_addr level vaddr access)
  unfolding Hits take_leaf leaf_ok new_entry
  take_leaf-Hits c pte pte_addr level vaddr access ok =
      let stored = bus_store net_process c pte_addr 8 (touched pte access) in
      let c1 = if touched pte access == pte then c else stored.1 in
      let same : hart c1 ≡ hart c =
        if_both (λ (d : Cpu). hart d ≡ hart c) (touched pte access == pte) refl
          (hart-Kept stored c (bus_store-Kept net_process c pte_addr 8 (touched pte access))) in
      let te = new_entry c1 pte (touched pte access) level vaddr (leaf_address pte level vaddr) in
      let d : Cpu = record c1 { tlb = update c1.tlb (tlb_index vaddr) te } in
      let same_status : c1.mstatus ≡ c.mstatus = ap (λ (h : Hart). h.mstatus) same in
      let same_priv : c1.priv ≡ c.priv = ap (λ (h : Hart). h.priv) same in
      let rights = and_left (privileged c pte && allows c pte access) (aligned pte level) ok in
      ap (λ (e : TlbEntry). tlb_ok d e vaddr access) (update_self c1.tlb (tlb_index vaddr) te)
      ∙ tlb_ok_intro d te vaddr access refl refl
          (allows_perm c d pte access same_status
            ∙ and_right (privileged c pte) (allows c pte access) rights)
          (touched_dirty c te pte access refl)
          (privileged_perm c d pte same_status same_priv
            ∙ and_left (privileged c pte) (allows c pte access) rights)

  walk-Hits :
      (level : ℕ) (c : Cpu) (pt_addr vaddr : ℕ) (access : Access)
      → Hits vaddr access (walk net_process level c pt_addr vaddr access)
  unfolding walk
  walk-Hits zero c pt_addr vaddr access = fault-Hits vaddr access _ c
  walk-Hits (suc level) c pt_addr vaddr access =
      let got = read_pte c (u64 (pt_addr + vpn level vaddr * 8)) in
      let P : Translated × Cpu → Type 0 = Hits vaddr access in
      let failed = fault-Hits vaddr access (fault_code access) got.1 in
      match_option P got.0 failed λ pte.
        if_both P (not (nonzero (pte &&& 1)) || ((pte &&& 14) == 4 || (pte &&& 14) == 12)) failed (
          if_both P ((pte &&& 14) == 0) (walk-Hits level got.1 _ vaddr access) (
            if_split P (leaf_ok got.1 pte access level)
              (λ ok. take_leaf-Hits got.1 pte _ level vaddr access ok) (λ bad. failed)))

  -- The state that the walk leaves, for any result.
  translate-Hits :
      (c : Cpu) (vaddr : ℕ) (access : Access)
      → (c.priv == priv_m) ≡ false
      → (c.satp >>> 60 == 0) ≡ false
      → Hits vaddr access (translate net_process c vaddr access)
  unfolding translate
  translate-Hits c vaddr access p s =
      rw (p, s)
        (if_split (Hits vaddr access) (tlb_ok c (c.tlb (tlb_index vaddr)) vaddr access)
          (λ ok. hit-Hits vaddr access _ (u64 (c.tlb_hits + 1)) c ok)
          λ miss. walk-Hits 3 _ _ vaddr access)

  -- A translation that succeeds under Sv39 below machine mode leaves an entry for the page in the TLB
  -- that is valid and allows the access at the current privilege.
  pub translate-tlb_ok :
      (c : Cpu) (vaddr : ℕ) (access : Access) (pa : ℕ)
      → (c.priv == priv_m) ≡ false
      → (c.satp >>> 60 == 0) ≡ false
      → (translate net_process c vaddr access).0 ≡ phys pa
      → tlb_ok
          (translate net_process c vaddr access).1
          ((translate net_process c vaddr access).1.tlb (tlb_index vaddr))
          vaddr
          access
        ≡ true
  unfolding Hits
  translate-tlb_ok c vaddr access pa p s got =
      subst (λ t. Hits vaddr access (t, (translate net_process c vaddr access).1)) got
        (translate-Hits c vaddr access p s)
