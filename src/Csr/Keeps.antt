-- ===== src/Csr/Keeps.antt =====
-- extension/rv64_cpu.c: a CSR write keeps the integer registers.
use pglinux.Base.{ℕ, ◌≡◌, refl, if_both, true, Option, ◌==◌, none, some}
use pglinux.Cpu.{Cpu}
use pglinux.Mmu.Keeps.{x-tlb_flush}
use pglinux.Csr.{write_satp, csr_write, write_machine, write_supervisor, pmpaddr_csr}

-- A refused write, or a state with the registers of `c`.
pub KeepsX : Cpu → Option Cpu → Type 0
KeepsX c none = true ≡ true
KeepsX c (some d) = d.x ≡ c.x

write_machine-KeepsX : (c : Cpu) (csr val : ℕ) → KeepsX c (write_machine c csr val)
unfolding KeepsX write_machine
write_machine-KeepsX c csr val =
    let P : Option Cpu → Type 0 = KeepsX c in
    (if_both P (csr == 0x300) refl (
      if_both P (csr == 0x301) refl (
        if_both P (csr == 0x302) refl (
          if_both P (csr == 0x303) refl (
            if_both P (csr == 0x304) refl (
              if_both P (csr == 0x305) refl (
                if_both P (csr == 0x306) refl (
                  if_both P (csr == 0x340) refl (
                    if_both P (csr == 0x341) refl (
                      if_both P (csr == 0x342) refl (
                        if_both P (csr == 0x343) refl (
                          if_both P (csr == 0x344) refl (
                            if_both P (csr == 0x3A0) refl (
                              if_both P (csr == 0x3A2) refl
                                (if_both P (pmpaddr_csr csr) refl refl)))))))))))))))

write_supervisor-KeepsX : (c : Cpu) (csr val : ℕ) → KeepsX c (write_supervisor c csr val)
unfolding KeepsX write_supervisor write_satp
write_supervisor-KeepsX c csr val =
    let P : Option Cpu → Type 0 = KeepsX c in
    (if_both P (csr == 0x100) refl (
      if_both P (csr == 0x104) refl (
        if_both P (csr == 0x105) refl (
          if_both P (csr == 0x106) refl (
            if_both P (csr == 0x140) refl (
              if_both P (csr == 0x141) refl (
                if_both P (csr == 0x142) refl (
                  if_both P (csr == 0x143) refl (
                    if_both P (csr == 0x144) refl (
                      if_both P (csr == 0x14D) refl (
                        if_both P (csr == 0x30A) refl (
                          if_both P (csr == 0x31A) refl (
                            if_both P (csr == 0x180) (x-tlb_flush _) (
                              if_both P (csr == 0x001) refl (
                                if_both P (csr == 0x002) refl
                                  (if_both P (csr == 0x003) refl refl))))))))))))))))

csr_write-KeepsX : (c : Cpu) (csr val : ℕ) → KeepsX c (csr_write c csr val)
unfolding csr_write
csr_write-KeepsX c csr val = first (write_machine c csr val) (write_machine-KeepsX c csr val)
  where
    first :
        (o : Option Cpu)
        → KeepsX c o
        → KeepsX c (elim o [ some c' ↦ some c' | none ↦ write_supervisor c csr val ])
    first (some d) h = h
    first none h = write_supervisor-KeepsX c csr val

-- The state after a write, an unknown register ignored.
pub x-csr_write :
    (c : Cpu) (csr val : ℕ)
    → (elim (csr_write c csr val) as (λ _. Cpu) [ none ↦ c | some c' ↦ c' ]).x ≡ c.x
unfolding KeepsX
x-csr_write c csr val = after (csr_write c csr val) (csr_write-KeepsX c csr val)
  where
    after :
        (o : Option Cpu) → KeepsX c o → (elim o as (λ _. Cpu) [ none ↦ c | some c' ↦ c' ]).x ≡ c.x
    after none h = refl
    after (some d) h = h
