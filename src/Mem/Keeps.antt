-- ===== src/Mem/Keeps.antt =====
-- extension/rv64_cpu.c: loads and stores do not touch the registers of the hart, trapped or not.
use pglinux.Base.{ap, ℕ, zero, suc, ◌+◌, ◌*◌, ◌≡◌, refl, ◌∙◌, if_both, match_option, Option, ltb}
use pglinux.Word.{◌&&&◌, u64, ◌>>>◌}
use pglinux.Ram.{Memory}
use pglinux.Virtio.{VirtioDev}
use pglinux.Cpu.{Cpu, Access}
use pglinux.Cpu.Hart.{Hart, hart, Kept, kept, hart-Kept}
use pglinux.Cpu.Hart.{Kept-trans}
use pglinux.Bus.{bus_load, bus_store}
use pglinux.Bus.Keeps.{bus_load-Kept, bus_store-Kept}
use pglinux.Mmu.{Translated, phys, fault, translate, tlb_index}
use pglinux.Mmu.Keeps.{translate-Kept}
use pglinux.Mem.{
  Loaded, value, trapped, load_at, load_crossing, cpu_load, store_at, store_crossing, cpu_store,
  fast_load_ok, fast_store_ok,
}

match_Translated {ℓ ℓ'} :
    {B : Type ℓ} (P : B → Type ℓ') (t : Translated) {f g : ℕ → B}
    → ((e : ℕ) → P (f e))
    → ((pa : ℕ) → P (g pa))
    → P (elim t [ fault e ↦ f e | phys pa ↦ g pa ])
match_Translated P (fault e) h k = h e
match_Translated P (phys pa) h k = k pa

pub match_Loaded {ℓ ℓ'} :
    {B : Type ℓ} (P : B → Type ℓ') (t : Loaded) {f g : ℕ → B}
    → ((e : ℕ) → P (f e))
    → ((v : ℕ) → P (g v))
    → P (elim t [ trapped e ↦ f e | value v ↦ g v ])
match_Loaded P (trapped e) h k = h e
match_Loaded P (value v) h k = k v

module _ (net_process : VirtioDev → ℕ → Memory → ℕ → VirtioDev × Memory) where
  load_at-Kept :
      (c : Cpu) (vaddr size : ℕ) (access : Access)
      → Kept c (load_at net_process c vaddr size access)
  unfolding load_at
  load_at-Kept c vaddr size access =
      let t = translate net_process c vaddr access in
      let same : hart t.1 ≡ hart c = hart-Kept t c (translate-Kept net_process c vaddr access) in
      let P : Loaded × Cpu → Type 0 = Kept c in
      match_Translated P t.0 (λ e. kept c _ _ same)
        λ pa.
          let got = bus_load t.1 pa size in
          let same2 : hart got.1 ≡ hart c = hart-Kept got t.1 (bus_load-Kept t.1 pa size) ∙ same in
          match_option P got.0 (kept c _ _ same2) λ v. kept c _ _ same2

  load_crossing-Kept :
      (left i : ℕ) (c : Cpu) (vaddr : ℕ) (access : Access) (result : ℕ)
      → Kept c (load_crossing net_process left i c vaddr access result)
  unfolding load_crossing
  load_crossing-Kept zero i c vaddr access result = kept c _ _ refl
  load_crossing-Kept (suc left) i c vaddr access result =
      let got = load_at net_process c (u64 (vaddr + i)) 1 access in
      let same : hart got.1 ≡ hart c = hart-Kept got c (load_at-Kept c _ 1 access) in
      let P : Loaded × Cpu → Type 0 = Kept c in
      match_Loaded P got.0 (λ e. kept c _ _ same)
        λ v. Kept-trans c got.1 _ same (load_crossing-Kept left (i + 1) got.1 vaddr access _)

  pub cpu_load-Kept :
      (c : Cpu) (vaddr size : ℕ) (access : Access)
      → Kept c (cpu_load net_process c vaddr size access)
  unfolding cpu_load
  cpu_load-Kept c vaddr size access =
      let P : Loaded × Cpu → Type 0 = Kept c in
      if_both P (fast_load_ok c (c.tlb (tlb_index vaddr)) vaddr size access) (kept c _ _ refl) (
        if_both P (ltb 4096 ((vaddr &&& 0xFFF) + size)) (load_crossing-Kept size 0 c vaddr access 0)
          (load_at-Kept c vaddr size access))

  store_at-Kept : (c : Cpu) (vaddr size val : ℕ) → Kept c (store_at net_process c vaddr size val)
  unfolding store_at
  store_at-Kept c vaddr size val =
      let t = translate net_process c vaddr Access.write in
      let same : hart t.1 ≡ hart c =
        hart-Kept t c (translate-Kept net_process c vaddr Access.write) in
      let P : Option ℕ × Cpu → Type 0 = Kept c in
      match_Translated P t.0 (λ e. kept c _ _ same)
        λ pa.
          let put = bus_store net_process t.1 pa size val in
          let same2 : hart put.1 ≡ hart c =
            hart-Kept put t.1 (bus_store-Kept net_process t.1 pa size val) ∙ same in
          if_both P put.0 (kept c _ _ same2) (kept c _ _ same2)

  store_crossing-Kept :
      (left i : ℕ) (c : Cpu) (vaddr val : ℕ)
      → Kept c (store_crossing net_process left i c vaddr val)
  unfolding store_crossing
  store_crossing-Kept zero i c vaddr val = kept c _ _ refl
  store_crossing-Kept (suc left) i c vaddr val =
      let put = store_at net_process c (u64 (vaddr + i)) 1 (val >>> (i * 8) &&& 0xFF) in
      let same : hart put.1 ≡ hart c = hart-Kept put c (store_at-Kept c _ 1 _) in
      let P : Option ℕ × Cpu → Type 0 = Kept c in
      match_option P put.0
        (Kept-trans c put.1 _ same (store_crossing-Kept left (i + 1) put.1 vaddr val))
        λ e. kept c _ _ same

  pub cpu_store-Kept :
      (c : Cpu) (vaddr size val : ℕ) → Kept c (cpu_store net_process c vaddr size val)
  unfolding cpu_store
  cpu_store-Kept c vaddr size val =
      let P : Option ℕ × Cpu → Type 0 = Kept c in
      if_both P (fast_store_ok c (c.tlb (tlb_index vaddr)) vaddr size) (kept c _ _ refl) (
        if_both P (ltb 4096 ((vaddr &&& 0xFFF) + size)) (store_crossing-Kept size 0 c vaddr val)
          (store_at-Kept c vaddr size val))

  -- The integer registers alone.
  pub x-cpu_load :
      (c : Cpu) (vaddr size : ℕ) (access : Access)
      → (cpu_load net_process c vaddr size access).1.x ≡ c.x
  x-cpu_load c vaddr size access =
      ap (λ (h : Hart). h.x)
        (hart-Kept (cpu_load net_process c vaddr size access) c (cpu_load-Kept c vaddr size access))

  pub x-cpu_store :
      (c : Cpu) (vaddr size val : ℕ) → (cpu_store net_process c vaddr size val).1.x ≡ c.x
  x-cpu_store c vaddr size val =
      ap (λ (h : Hart). h.x)
        (hart-Kept (cpu_store net_process c vaddr size val) c (cpu_store-Kept c vaddr size val))

  -- A load at a virtual address, successful or trapped, through the TLB, the page walk or the bus,
  -- changes no register of the hart.
  pub hart-cpu_load :
      (c : Cpu) (vaddr size : ℕ) (access : Access)
      → hart (cpu_load net_process c vaddr size access).1 ≡ hart c
  hart-cpu_load c vaddr size access =
      hart-Kept (cpu_load net_process c vaddr size access) c (cpu_load-Kept c vaddr size access)

  -- A store at a virtual address, also one that crosses a page or faults halfway, changes no register
  -- of the hart.
  pub hart-cpu_store :
      (c : Cpu) (vaddr size val : ℕ) → hart (cpu_store net_process c vaddr size val).1 ≡ hart c
  hart-cpu_store c vaddr size val =
      hart-Kept (cpu_store net_process c vaddr size val) c (cpu_store-Kept c vaddr size val)
