-- ===== src/Plic.antt =====
-- extension/rv64_bus.c: the interrupt controller, 64 sources and two contexts.
-- The arrays `priority[64]`, `pending[2]`, `enable[2][2]`, `threshold[2]`, `claim[2]` are functions
-- of the index.
pub mod Claim
use pglinux.Base.{
  ℕ, zero, suc, ◌+◌, ◌-◌, ◌/◌, ◌%◌, ◌≤◌, Bool, ◌&&◌, ◌==◌, ltb, leb, if◌then◌else◌, update,
}
use pglinux.Word.{u32, nonzero, not32, ◌&&&◌, ◌|||◌, ◌<<<◌}

-- struct rv64_plic
pub record Plic : Type 0 where
  pub priority : ℕ → ℕ
  pub pending : ℕ → ℕ
  pub enable : ℕ → ℕ → ℕ
  pub threshold : ℕ → ℕ
  pub claim : ℕ → ℕ

-- The claim loop from source `i` on, with `left` sources to go.
pub claim_loop : ℕ → ℕ → Plic → ℕ → ℕ × Plic
claim_loop zero i p ctx = (0, p)
claim_loop (suc left) i p ctx =
    let word = i / 32 in
    let bit = i % 32 in
    let rest = claim_loop left (i + 1) p ctx in
    if nonzero (p.pending word &&& p.enable ctx word &&& 1 <<< bit)
    then (
      i,
      record p {
        pending = update p.pending word (p.pending word &&& not32 (1 <<< bit));
        claim = update p.claim ctx i;
      },
    )
    else rest

-- for (int i = 1; i < 64; i++)
pub claim_irq : Plic → ℕ → ℕ × Plic
claim_irq p ctx = claim_loop 63 1 p ctx

pub plic_load : Plic → ℕ → ℕ × Plic
plic_load p offset =
    if ltb offset 0x1000
    then (let src = offset / 4 in ((if ltb src 64 then p.priority src else 0), p))
    else if leb 0x1000 offset && ltb offset 0x1080
    then (let idx = (offset - 0x1000) / 4 in ((if ltb idx 2 then p.pending idx else 0), p))
    else if leb 0x2000 offset && ltb offset 0x2100
    then (let ctx = if leb 0x2080 offset then 1 else 0 in
        let base = if ctx == 1 then 0x2080 else 0x2000 in
        let idx = (offset - base) / 4 in ((if ltb idx 2 then p.enable ctx idx else 0), p))
    else if leb 0x200000 offset && ltb offset 0x202000
    then (let ctx = if leb 0x201000 offset then 1 else 0 in
        let off = offset - (if ctx == 1 then 0x201000 else 0x200000) in
        if off == 0 then (p.threshold ctx, p) else if off == 4 then claim_irq p ctx else (0, p))
    else (0, p)

pub plic_store : Plic → ℕ → ℕ → Plic
plic_store p offset val =
    if ltb offset 0x1000
    then (let src = offset / 4 in
        if ltb src 64 then record p { priority = update p.priority src (val &&& 0x7) } else p)
    else if leb 0x2000 offset && ltb offset 0x2100
    then (let ctx = if leb 0x2080 offset then 1 else 0 in
        let base = if ctx == 1 then 0x2080 else 0x2000 in
        let idx = (offset - base) / 4 in
        if ltb idx 2
        then record p { enable = update p.enable ctx (update (p.enable ctx) idx (u32 val)) }
        else p)
    else if leb 0x200000 offset && ltb offset 0x202000
    then (let ctx = if leb 0x201000 offset then 1 else 0 in
        let off = offset - (if ctx == 1 then 0x201000 else 0x200000) in
        if off == 0
        then record p { threshold = update p.threshold ctx (val &&& 0x7) }
        else if off == 4
        then record p { claim = update p.claim ctx 0 }
        else p)
    else p

-- plic.pending[irq / 32] |= (1U << (irq % 32));
pub raise : Plic → ℕ → Plic
raise p irq = record p {
  pending = update p.pending (irq / 32) (p.pending (irq / 32) ||| 1 <<< (irq % 32));
}
