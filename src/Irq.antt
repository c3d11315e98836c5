-- ===== src/Irq.antt =====
-- extension/rv64_cpu.c: `check_interrupts`. `net_poll` stands for `virtio_net_poll`, which works on
-- the network device and the RAM.
pub mod Cycle
pub mod Masked
pub mod Storm
use pglinux.Base.{
  ℕ, ◌+◌, ◌%◌, ◌^◌, Bool, true, false, not, ◌&&◌, ◌||◌, List, [], ◌∷◌, ◌==◌, ltb, leb,
  if◌then◌else◌,
}
use pglinux.Word.{u64, not64, nonzero, ◌&&&◌, ◌|||◌, ◌<<<◌, ◌>>>◌}
use pglinux.Ram.{Memory}
use pglinux.Virtio.{VirtioDev}
use pglinux.Cpu.{Cpu, priv_s, priv_m}
use pglinux.Trap.{trap}

-- An element of `irqs[]`: the bit of its mask in mip, which is also its code, and `to_m`.
pub record IrqLine : Type 0 where
  pub code : ℕ
  pub to_m : Bool

-- { mask = 1 << code; cause = code | 1 << 63 }
abbrev pub mask : IrqLine → ℕ
mask l = 1 <<< l.code

abbrev pub cause : IrqLine → ℕ
cause l = l.code + 2 ^ 63

-- MEI, MSI, MTI, SEI, SSI, STI
abbrev pub irqs : List IrqLine
irqs =
    (record { code = 11; to_m = true })
    ∷ (record { code = 3; to_m = true })
    ∷ (record { code = 7; to_m = true })
    ∷ (record { code = 9; to_m = false })
    ∷ (record { code = 1; to_m = false })
    ∷ (record { code = 5; to_m = false })
    ∷ []

-- mip with the timer and external bits brought up to date.
unfoldable pub update_mip : Cpu → ℕ
update_mip c =
    let mip1 =
      if leb c.clint.mtimecmp c.clint.mtime then c.mip ||| 2 ^ 7 else c.mip &&& not64 (2 ^ 7) in
    let mip2 = if leb c.stimecmp c.clint.mtime then mip1 ||| 2 ^ 5 else mip1 in
    let plic_pending =
      nonzero (c.plic.pending 0 &&& c.plic.enable 1 0)
      || nonzero (c.plic.pending 1 &&& c.plic.enable 1 1) in
    if plic_pending then mip2 ||| 2 ^ 9 else mip2 &&& not64 (2 ^ 9)

-- `take` for a line that is pending.
unfoldable pub takes : Cpu → IrqLine → Bool
takes c l =
    let at_m =
      l.to_m
      && not (nonzero (c.mideleg &&& mask l))
      && (ltb c.priv priv_m || (c.priv == priv_m && nonzero (c.mstatus >>> 3 &&& 1))) in
    at_m
    || (nonzero (c.mideleg &&& mask l)
        && (ltb c.priv priv_s || (c.priv == priv_s && nonzero (c.mstatus >>> 1 &&& 1))))

-- The loop over the lines.
unfoldable pub deliver : Cpu → ℕ → List IrqLine → Bool × Cpu
deliver c pending [] = (false, c)
deliver c pending (l ∷ ls) =
    if nonzero (pending &&& mask l) && takes c l
    then (true, record (trap c (cause l) 0) { halted = false; irq_taken = u64 (c.irq_taken + 1) })
    else deliver c pending ls

-- The updates before the lines are looked at.
unfoldable pub refresh : (VirtioDev → Memory → VirtioDev × Memory) → Cpu → Cpu
refresh net_poll c =
    let c1 = record c { irq_checks = u64 (c.irq_checks + 1); mip = update_mip c } in
    if c.cycle % 100000 == 0
    then (let (dev, ram) = net_poll c.virtio_net c.ram in record c1 { virtio_net = dev; ram = ram })
    else c1

unfoldable pub check_interrupts : (VirtioDev → Memory → VirtioDev × Memory) → Cpu → Bool × Cpu
check_interrupts net_poll c =
    let c1 = refresh net_poll c in
    let pending = c1.mip &&& c1.mie in if pending == 0 then (false, c1) else deliver c1 pending irqs
