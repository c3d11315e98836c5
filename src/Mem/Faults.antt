-- ===== src/Mem/Faults.antt =====
-- extension/rv64_cpu.c: the exception codes of loads and stores.
use pglinux.Base.{
  subst, sym, if◌then◌else◌, ℕ, zero, suc, ◌+◌, ◌*◌, ◌≡◌, refl, if_both, match_option, true, ltb,
  Option, none, some, ◌⊎◌, inl, inr,
}
use pglinux.Word.{◌&&&◌, ◌|||◌, u64, ◌<<<◌, ◌>>>◌}
use pglinux.Ram.{Memory}
use pglinux.Virtio.{VirtioDev}
use pglinux.Cpu.{Cpu, Access}
use pglinux.Bus.{bus_load, bus_store}
use pglinux.Mmu.{Translated, phys, fault, fault_code, tlb_index, translate}
use pglinux.Mmu.Faults.{FaultsWith, translate-FaultsWith}
use pglinux.Mem.{
  Loaded, value, trapped, load_at, load_crossing, cpu_load, load_access, fast_load_ok, store_at,
  store_crossing, cpu_store, fast_store_ok,
}

-- A value, or one of the exceptions of the access.
pub TrapsWith : Access → Loaded × Cpu → Type 0
TrapsWith access (value v, c) = true ≡ true
TrapsWith access (trapped e, c) = (e ≡ fault_code access) ⊎ (e ≡ load_access access)

-- The exception codes of a load.
pub data LoadTrap : Access → ℕ → Type 0 where
  fetch_page : LoadTrap Access.exec 12
  fetch_access : LoadTrap Access.exec 1
  read_page : LoadTrap Access.read 13
  read_access : LoadTrap Access.read 5
  write_page : LoadTrap Access.write 15
  write_access : LoadTrap Access.write 5

numbered :
    (access : Access) (e : ℕ)
    → (e ≡ fault_code access) ⊎ (e ≡ load_access access)
    → LoadTrap access e
unfolding fault_code load_access
numbered Access.exec e (inl h) = subst (LoadTrap Access.exec) (sym h) fetch_page
numbered Access.exec e (inr h) = subst (LoadTrap Access.exec) (sym h) fetch_access
numbered Access.read e (inl h) = subst (LoadTrap Access.read) (sym h) read_page
numbered Access.read e (inr h) = subst (LoadTrap Access.read) (sym h) read_access
numbered Access.write e (inl h) = subst (LoadTrap Access.write) (sym h) write_page
numbered Access.write e (inr h) = subst (LoadTrap Access.write) (sym h) write_access

loaded : (access : Access) (v : ℕ) (c : Cpu) → TrapsWith access (value v, c)
unfolding TrapsWith
loaded access v c = refl

refused : (access : Access) (c : Cpu) → TrapsWith access (trapped (load_access access), c)
unfolding TrapsWith
refused access c = inr refl

from_fault :
    (access : Access) (e : ℕ) (c : Cpu)
    → FaultsWith (fault_code access) (fault e, c)
    → TrapsWith access (trapped e, c)
unfolding TrapsWith FaultsWith
from_fault access e c f = inl f

module _ (net_process : VirtioDev → ℕ → Memory → ℕ → VirtioDev × Memory) where
  load_at-TrapsWith :
      (c : Cpu) (vaddr size : ℕ) (access : Access)
      → TrapsWith access (load_at net_process c vaddr size access)
  unfolding load_at
  load_at-TrapsWith c vaddr size access =
      after (translate net_process c vaddr access) (translate-FaultsWith net_process c vaddr access)
    where
      after :
          (t : Translated × Cpu)
          → FaultsWith (fault_code access) t
          → TrapsWith access (elim t.0 [
            | fault e ↦ (trapped e, t.1)
            | phys pa ↦ elim (bus_load t.1 pa size).0 [
              | none ↦ (trapped (load_access access), (bus_load t.1 pa size).1)
              | some v ↦ (value v, (bus_load t.1 pa size).1)
            ]
          ])
      after (fault e, d) f = from_fault access e d f
      after (phys pa, d) f =
          match_option (TrapsWith access) (bus_load d pa size).0 (refused access _)
            λ v. loaded access v _

  load_crossing-TrapsWith :
      (left i : ℕ) (c : Cpu) (vaddr : ℕ) (access : Access) (result : ℕ)
      → TrapsWith access (load_crossing net_process left i c vaddr access result)
  unfolding load_crossing
  load_crossing-TrapsWith zero i c vaddr access result = loaded access result c
  load_crossing-TrapsWith (suc left) i c vaddr access result =
      after (load_at net_process c (u64 (vaddr + i)) 1 access)
        (load_at-TrapsWith c (u64 (vaddr + i)) 1 access)
        (λ d r. load_crossing-TrapsWith left (i + 1) d vaddr access r)
    where
      after :
          (t : Loaded × Cpu)
          → TrapsWith access t
          → ((d : Cpu) (r : ℕ)
              → TrapsWith access (load_crossing net_process left (i + 1) d vaddr access r))
          → TrapsWith access (elim t.0 [
            | trapped e ↦ (trapped e, t.1)
            | value v ↦
                load_crossing net_process left
                  (i + 1)
                  t.1
                  vaddr
                  access
                  (result ||| (v &&& 0xFF) <<< (i * 8))
          ])
      after (trapped e, d) t next = t
      after (value v, d) t next = next d _

  cpu_load-TrapsWith :
      (c : Cpu) (vaddr size : ℕ) (access : Access)
      → TrapsWith access (cpu_load net_process c vaddr size access)
  unfolding cpu_load
  cpu_load-TrapsWith c vaddr size access =
      let P : Loaded × Cpu → Type 0 = TrapsWith access in
      if_both P (fast_load_ok c (c.tlb (tlb_index vaddr)) vaddr size access) (loaded access _ _) (
        if_both P (ltb 4096 ((vaddr &&& 0xFFF) + size))
          (load_crossing-TrapsWith size 0 c vaddr access 0) (load_at-TrapsWith c vaddr size access))

  -- A load that traps does so with the page fault or the access fault of its kind of access, numbered
  -- as the privileged architecture numbers them: 12 and 1 for a fetch, 13 and 5 for a read.
  pub cpu_load-traps :
      (c : Cpu) (vaddr size : ℕ) (access : Access) (e : ℕ)
      → (cpu_load net_process c vaddr size access).0 ≡ trapped e
      → LoadTrap access e
  unfolding TrapsWith
  cpu_load-traps c vaddr size access e h = numbered access e (
      subst (λ t. TrapsWith access (t, (cpu_load net_process c vaddr size access).1)) h
        (cpu_load-TrapsWith c vaddr size access))

  -- A store succeeds, or has the page fault or the access fault of stores.
  StoresWith : Option ℕ × Cpu → Type 0
  StoresWith (none, c) = true ≡ true
  StoresWith (some e, c) = (e ≡ 15) ⊎ (e ≡ 7)

  store_at-StoresWith :
      (c : Cpu) (vaddr size val : ℕ) → StoresWith (store_at net_process c vaddr size val)
  unfolding store_at StoresWith FaultsWith fault_code
  store_at-StoresWith c vaddr size val =
      after (translate net_process c vaddr Access.write)
        (translate-FaultsWith net_process c vaddr Access.write)
    where
      after :
          (t : Translated × Cpu)
          → FaultsWith (fault_code Access.write) t
          → StoresWith (elim t.0 [
            | fault e ↦ (some e, t.1)
            | phys pa ↦
                let (stored, c2) = bus_store net_process t.1 pa size val in
                if stored then (none, c2) else (some 7, c2)
          ])
      after (fault e, d) f = inl f
      after (phys pa, d) f =
          if_both StoresWith (bus_store net_process d pa size val).0 refl (inr refl)

  store_crossing-StoresWith :
      (left i : ℕ) (c : Cpu) (vaddr val : ℕ)
      → StoresWith (store_crossing net_process left i c vaddr val)
  unfolding store_crossing StoresWith
  store_crossing-StoresWith zero i c vaddr val = refl
  store_crossing-StoresWith (suc left) i c vaddr val =
      after (store_at net_process c (u64 (vaddr + i)) 1 (val >>> (i * 8) &&& 0xFF))
        (store_at-StoresWith c (u64 (vaddr + i)) 1 (val >>> (i * 8) &&& 0xFF))
        (λ d. store_crossing-StoresWith left (i + 1) d vaddr val)
    where
      after :
          (t : Option ℕ × Cpu)
          → StoresWith t
          → ((d : Cpu) → StoresWith (store_crossing net_process left (i + 1) d vaddr val))
          → StoresWith (elim t.0 [
            | some e ↦ (some e, t.1)
            | none ↦ store_crossing net_process left (i + 1) t.1 vaddr val
          ])
      after (some e, d) t next = t
      after (none, d) t next = next d

  -- A store that traps does so with the page fault or the access fault of stores.
  pub cpu_store-traps :
      (c : Cpu) (vaddr size val e : ℕ)
      → (cpu_store net_process c vaddr size val).0 ≡ some e
      → (e ≡ 15) ⊎ (e ≡ 7)
  unfolding cpu_store StoresWith
  cpu_store-traps c vaddr size val e h =
      subst (λ t. StoresWith (t, (cpu_store net_process c vaddr size val).1)) h
        (if_both StoresWith (fast_store_ok c (c.tlb (tlb_index vaddr)) vaddr size) refl (
          if_both StoresWith (ltb 4096 ((vaddr &&& 0xFFF) + size))
            (store_crossing-StoresWith size 0 c vaddr val) (store_at-StoresWith c vaddr size val)))
