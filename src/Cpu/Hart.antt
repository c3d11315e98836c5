-- ===== src/Cpu/Hart.antt =====
-- The registers of the hart: struct rv64_cpu without the TLB, the devices, the RAM, the counters of
-- the profile and the flag that asks for a check of the interrupts.
use pglinux.Base.{ℕ, Bool, ◌≡◌, ◌∙◌}
use pglinux.Cpu.{Cpu}

pub record Hart : Type 0 where
  pub x : ℕ → ℕ
  pub f : ℕ → ℕ
  pub pc : ℕ
  pub priv : ℕ
  pub mstatus : ℕ
  pub satp : ℕ
  pub medeleg : ℕ
  pub mideleg : ℕ
  pub mie : ℕ
  pub mip : ℕ
  pub stvec : ℕ
  pub mtvec : ℕ
  pub sepc : ℕ
  pub mepc : ℕ
  pub scause : ℕ
  pub mcause : ℕ
  pub stval : ℕ
  pub mtval : ℕ
  pub reserved : Bool
  pub reserved_addr : ℕ
  pub halted : Bool
  pub instret : ℕ
  pub cycle : ℕ
  pub fcsr : ℕ
  pub misa : ℕ
  pub mcounteren : ℕ
  pub mscratch : ℕ
  pub sscratch : ℕ
  pub scounteren : ℕ
  pub stimecmp : ℕ
  pub menvcfg : ℕ
  pub pmpcfg : ℕ → ℕ
  pub pmpaddr : ℕ → ℕ

abbrev pub hart : Cpu → Hart
hart c = record {
  x = c.x;
  f = c.f;
  pc = c.pc;
  priv = c.priv;
  mstatus = c.mstatus;
  satp = c.satp;
  medeleg = c.medeleg;
  mideleg = c.mideleg;
  mie = c.mie;
  mip = c.mip;
  stvec = c.stvec;
  mtvec = c.mtvec;
  sepc = c.sepc;
  mepc = c.mepc;
  scause = c.scause;
  mcause = c.mcause;
  stval = c.stval;
  mtval = c.mtval;
  reserved = c.reserved;
  reserved_addr = c.reserved_addr;
  halted = c.halted;
  instret = c.instret;
  cycle = c.cycle;
  fcsr = c.fcsr;
  misa = c.misa;
  mcounteren = c.mcounteren;
  mscratch = c.mscratch;
  sscratch = c.sscratch;
  scounteren = c.scounteren;
  stimecmp = c.stimecmp;
  menvcfg = c.menvcfg;
  pmpcfg = c.pmpcfg;
  pmpaddr = c.pmpaddr;
}

-- The state in the result of an operation has the registers of `c`.
pub Kept {ℓ} : {A : Type ℓ} → Cpu → A × Cpu → Type 0
Kept c r = hart r.1 ≡ hart c

pub kept {ℓ} : {A : Type ℓ} (c : Cpu) (a : A) (d : Cpu) → hart d ≡ hart c → Kept c (a, d)
unfolding Kept
kept c a d h = h

pub hart-Kept {ℓ} : {A : Type ℓ} (r : A × Cpu) (c : Cpu) → Kept c r → hart r.1 ≡ hart c
unfolding Kept
hart-Kept r c h = h

pub Kept-trans {ℓ} : {A : Type ℓ} (c d : Cpu) (r : A × Cpu) → hart d ≡ hart c → Kept d r → Kept c r
unfolding Kept
Kept-trans c d r h g = g ∙ h
