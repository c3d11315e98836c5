-- ===== src/Mem.antt =====
-- extension/rv64_cpu.c: loads and stores at virtual addresses, with the TLB fast path.
-- The store log of the watchpoint is not part of the state. Sizes are 1, 2, 4 or 8.
pub mod Keeps
pub mod Faults
use pglinux.Base.{
  ℕ, zero, suc, ◌+◌, ◌*◌, Bool, not, ◌&&◌, Option, none, some, ◌==◌, ltb, if◌then◌else◌,
}
use pglinux.Word.{u64, nonzero, ◌&&&◌, ◌|||◌, ◌<<<◌, ◌>>>◌}
use pglinux.Ram.{Memory, read_bytes, write_bytes}
use pglinux.Virtio.{VirtioDev}
use pglinux.Cpu.{Cpu, TlbEntry, Access}
use pglinux.Bus.{bus_load, bus_store}
use pglinux.Mmu.{phys, fault, allows, privileged, tlb_index, translate}

-- A load's outcome: its value, or the code of an exception.
pub data Loaded : Type 0 where
  value : ℕ → Loaded
  trapped : ℕ → Loaded

-- The entry is for the page and caches a RAM address.
unfoldable pub host_hit : TlbEntry → ℕ → Bool
host_hit te vaddr = te.valid && te.vpn == vaddr >>> 12 && te.has_host

-- May the load be served by the entry? Bytes of the next page are not.
unfoldable pub fast_load_ok : Cpu → TlbEntry → ℕ → ℕ → Access → Bool
fast_load_ok c te vaddr size access =
    host_hit te vaddr
    && allows c te.perm access
    && privileged c te.perm
    && not (ltb 4096 ((vaddr &&& 0xFFF) + size))

pub fast_store_ok : Cpu → TlbEntry → ℕ → ℕ → Bool
fast_store_ok c te vaddr size =
    host_hit te vaddr
    && (nonzero (te.perm &&& 4) && te.dirty)
    && privileged c te.perm
    && not (ltb 4096 ((vaddr &&& 0xFFF) + size))

abbrev pub count_hit : Cpu → Cpu
count_hit c = record c { tlb_hits = u64 (c.tlb_hits + 1) }

-- The exception of a load that the bus refuses.
unfoldable pub load_access : Access → ℕ
load_access Access.exec = 1
load_access Access.read = 5
load_access Access.write = 5

module _ (net_process : VirtioDev → ℕ → Memory → ℕ → VirtioDev × Memory) where
  -- Translate, then load: a part of the access that stays in its page.
  unfoldable pub load_at : Cpu → ℕ → ℕ → Access → Loaded × Cpu
  load_at c vaddr size access =
      let (t, c1) = translate net_process c vaddr access in
      elim t [
        | fault e ↦ (trapped e, c1)
        | phys pa ↦
            let (got, c2) = bus_load c1 pa size in
            elim got [ none ↦ (trapped (load_access access), c2) | some v ↦ (value v, c2) ]
      ]

  -- The bytes from number `i` on, `left` of them, joined to `result`.
  pub load_crossing : ℕ → ℕ → Cpu → ℕ → Access → ℕ → Loaded × Cpu
  load_crossing zero i c vaddr access result = (value result, c)
  load_crossing (suc left) i c vaddr access result =
      let (got, c1) = load_at c (u64 (vaddr + i)) 1 access in
      elim got [
        | trapped e ↦ (trapped e, c1)
        | value v ↦ load_crossing left (i + 1) c1 vaddr access (result ||| (v &&& 0xFF) <<< (i * 8))
      ]

  unfoldable pub cpu_load : Cpu → ℕ → ℕ → Access → Loaded × Cpu
  cpu_load c vaddr size access =
      let te = c.tlb (tlb_index vaddr) in
      if fast_load_ok c te vaddr size access
      then (value (read_bytes size c.ram (te.host + (vaddr &&& 0xFFF))), count_hit c)
      else if ltb 4096 ((vaddr &&& 0xFFF) + size)
      then load_crossing size 0 c vaddr access 0
      else load_at c vaddr size access

  -- `none` is the result 0.
  pub store_at : Cpu → ℕ → ℕ → ℕ → Option ℕ × Cpu
  store_at c vaddr size val =
      let (t, c1) = translate net_process c vaddr Access.write in
      elim t [
        | fault e ↦ (some e, c1)
        | phys pa ↦
            let (stored, c2) = bus_store net_process c1 pa size val in
            if stored then (none, c2) else (some 7, c2)
      ]

  pub store_crossing : ℕ → ℕ → Cpu → ℕ → ℕ → Option ℕ × Cpu
  store_crossing zero i c vaddr val = (none, c)
  store_crossing (suc left) i c vaddr val =
      let (r, c1) = store_at c (u64 (vaddr + i)) 1 (val >>> (i * 8) &&& 0xFF) in
      elim r [ some e ↦ (some e, c1) | none ↦ store_crossing left (i + 1) c1 vaddr val ]

  pub cpu_store : Cpu → ℕ → ℕ → ℕ → Option ℕ × Cpu
  cpu_store c vaddr size val =
      let te = c.tlb (tlb_index vaddr) in
      if fast_store_ok c te vaddr size
      then (
        none,
        record (count_hit c) { ram = write_bytes size c.ram (te.host + (vaddr &&& 0xFFF)) val },
      )
      else if ltb 4096 ((vaddr &&& 0xFFF) + size)
      then store_crossing size 0 c vaddr val
      else store_at c vaddr size val
