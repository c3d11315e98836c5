-- ===== src/Mmu.antt =====
-- extension/rv64_mmu.c: Sv39 translation through the TLB and the page table walk.
pub mod Keeps
pub mod Hits
pub mod Address
pub mod Again
pub mod Faults
use pglinux.Base.{
  ℕ, zero, suc, ◌+◌, ◌-◌, ◌*◌, ◌^◌, Bool, true, not, ◌&&◌, ◌||◌, Option, none, some, ◌==◌, leb,
  if◌then◌else◌, update,
}
use pglinux.Word.{u8, u64, nonzero, ◌&&&◌, ◌|||◌, ◌<<<◌, ◌>>>◌}
use pglinux.Ram.{Memory, read_bytes}
use pglinux.Virtio.{VirtioDev, ram_base}
use pglinux.Cpu.{Cpu, TlbEntry, Access, no_entry, priv_u, priv_s, priv_m}
use pglinux.Bus.{bus_load, bus_store}

-- Flags of a page table entry, and mstatus.SUM and mstatus.MXR.
abbrev pub pte_r : ℕ
pte_r = 2

abbrev pub pte_w : ℕ
pte_w = 4

abbrev pub pte_x : ℕ
pte_x = 8

abbrev pub pte_u : ℕ
pte_u = 16

abbrev pub pte_d : ℕ
pte_d = 128

abbrev pub mstatus_sum : ℕ
mstatus_sum = 2 ^ 18

abbrev pub mstatus_mxr : ℕ
mstatus_mxr = 2 ^ 19

-- The result of a translation: a physical address, or the code of an exception.
pub data Translated : Type 0 where
  phys : ℕ → Translated
  fault : ℕ → Translated

-- Clears the TLB. The JIT cache, flushed here too, is not part of the state.
pub tlb_flush : Cpu → Cpu
tlb_flush c = record c { tlb = λ _. no_entry }

unfoldable pub fault_code : Access → ℕ
fault_code Access.exec = 12
fault_code Access.read = 13
fault_code Access.write = 15

-- The permission bits allow the access: `flags` are those of an entry of either kind.
unfoldable pub allows : Cpu → ℕ → Access → Bool
allows c flags Access.read =
    nonzero (flags &&& pte_r) || (nonzero (c.mstatus &&& mstatus_mxr) && nonzero (flags &&& pte_x))
allows c flags Access.write = nonzero (flags &&& pte_w)
allows c flags Access.exec = nonzero (flags &&& pte_x)

-- The privilege checks: user mode needs the U bit, supervisor mode needs SUM with it.
unfoldable pub privileged : Cpu → ℕ → Bool
privileged c flags =
    not (c.priv == priv_u && not (nonzero (flags &&& pte_u)))
    && not (
        c.priv == priv_s
        && (nonzero (flags &&& pte_u) && not (nonzero (c.mstatus &&& mstatus_sum))))

abbrev pub tlb_index : ℕ → ℕ
tlb_index vaddr = vaddr >>> 12 &&& 0xFFF

-- A store through the entry needs its dirty bit.
pub dirty_ok : TlbEntry → Access → Bool
dirty_ok te Access.write = te.dirty
dirty_ok te Access.read = true
dirty_ok te Access.exec = true

-- A valid entry for the page that allows the access.
unfoldable pub tlb_ok : Cpu → TlbEntry → ℕ → Access → Bool
tlb_ok c te vaddr access =
    te.valid
    && te.vpn == vaddr >>> 12
    && (allows c te.perm access && dirty_ok te access)
    && privileged c te.perm

unfoldable pub hit_offset : TlbEntry → ℕ → ℕ
hit_offset te vaddr =
    if te.level == 2
    then vaddr &&& 0x3FFFFFFF
    else if te.level == 1
    then vaddr &&& 0x1FFFFF
    else vaddr &&& 0xFFF

abbrev pub vpn : ℕ → ℕ → ℕ
vpn level vaddr = vaddr >>> (12 + 9 * level) &&& 0x1FF

-- The entry at a physical address: straight from the RAM, or over the bus.
unfoldable pub read_pte : Cpu → ℕ → Option ℕ × Cpu
read_pte c addr =
    if leb ram_base addr && leb (u64 (addr + 8)) (u64 (ram_base + c.ram_size))
    then (if c.ram_mapped then (some (read_bytes 8 c.ram (addr - ram_base)), c) else (none, c))
    else bus_load c addr 8

-- Is the page of a leaf at this level aligned?
unfoldable pub aligned : ℕ → ℕ → Bool
aligned pte level =
    if level == 2
    then not (nonzero (pte >>> 19 &&& 0x1FF) || nonzero (pte >>> 10 &&& 0x1FF))
    else if level == 1
    then not (nonzero (pte >>> 10 &&& 0x1FF))
    else true

unfoldable pub leaf_ok : Cpu → ℕ → Access → ℕ → Bool
leaf_ok c pte access level = privileged c pte && allows c pte access && aligned pte level

-- The A bit, and the D bit for a store.
pub touched : ℕ → Access → ℕ
touched pte Access.write = pte ||| 64 ||| pte_d
touched pte Access.read = pte ||| 64
touched pte Access.exec = pte ||| 64

unfoldable pub leaf_address : ℕ → ℕ → ℕ → ℕ
leaf_address pte level vaddr =
    let ppn = pte >>> 10 in
    if level == 2
    then u64 (ppn <<< 12) ||| (vpn 1 vaddr <<< 21) ||| (vpn 0 vaddr <<< 12) ||| (vaddr &&& 0xFFF)
    else if level == 1
    then u64 (ppn >>> 9 <<< 21) ||| (vpn 0 vaddr <<< 12) ||| (vaddr &&& 0xFFF)
    else u64 (ppn <<< 12) ||| (vaddr &&& 0xFFF)

-- The entry that a walk leaves in the TLB.
unfoldable pub new_entry : Cpu → ℕ → ℕ → ℕ → ℕ → ℕ → TlbEntry
new_entry c pte new_pte level vaddr result =
    let page_pa = u64 (result >>> 12 <<< 12) in
    let in_ram =
      c.ram_mapped
      && leb ram_base page_pa
      && leb (u64 (page_pa + 4096)) (u64 (ram_base + c.ram_size)) in
    record {
      vpn = vaddr >>> 12;
      ppn = result >>> 12;
      has_host = in_ram;
      host = if in_ram then page_pa - ram_base else 0;
      perm = u8 (pte &&& 30);
      level = level;
      dirty = nonzero (new_pte &&& pte_d);
      valid = true;
    }

module _ (net_process : VirtioDev → ℕ → Memory → ℕ → VirtioDev × Memory) where
  -- A leaf that passed the checks: A and D are set in memory, and the TLB entry is filled.
  unfoldable pub take_leaf : Cpu → ℕ → ℕ → ℕ → ℕ → Access → Translated × Cpu
  take_leaf c pte pte_addr level vaddr access =
      let new_pte = touched pte access in
      let c1 = if new_pte == pte then c else (bus_store net_process c pte_addr 8 new_pte).1 in
      let result = leaf_address pte level vaddr in
      (
        phys result,
        record c1 {
          tlb = update c1.tlb (tlb_index vaddr) (new_entry c1 pte new_pte level vaddr result);
        },
      )

  -- The walk with `left` levels to go, from the table at `pt_addr`.
  unfoldable pub walk : ℕ → Cpu → ℕ → ℕ → Access → Translated × Cpu
  walk zero c pt_addr vaddr access = (fault (fault_code access), c)
  walk (suc level) c pt_addr vaddr access =
      let pte_addr = u64 (pt_addr + vpn level vaddr * 8) in
      let (got, c1) = read_pte c pte_addr in
      elim got [
        | none ↦ (fault (fault_code access), c1)
        | some pte ↦
            let rwx = pte &&& 14 in
            let next = walk level c1 (u64 ((pte >>> 10 &&& 0xFFFFFFFFFFF) <<< 12)) vaddr access in
            if not (nonzero (pte &&& 1)) || (rwx == 4 || rwx == 12)
            then (fault (fault_code access), c1)
            else if rwx == 0
            then next
            else if leaf_ok c1 pte access level
            then take_leaf c1 pte pte_addr level vaddr access
            else (fault (fault_code access), c1)
      ]

  unfoldable pub translate : Cpu → ℕ → Access → Translated × Cpu
  translate c vaddr access =
      if c.priv == priv_m
      then (phys vaddr, c)
      else if c.satp >>> 60 == 0
      then (phys vaddr, c)
      else (let te = c.tlb (tlb_index vaddr) in
          if tlb_ok c te vaddr access
          then (
            phys (u64 (te.ppn <<< 12) ||| hit_offset te vaddr),
            record c { tlb_hits = u64 (c.tlb_hits + 1) },
          )
          else walk 3 (record c { tlb_misses = u64 (c.tlb_misses + 1) })
              (u64 ((c.satp &&& 0xFFFFFFFFFFF) <<< 12)) vaddr access)
