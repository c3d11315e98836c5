-- ===== src/Tests/Search.antt =====
-- A run of the theorem on vm_find: machine mode, over the first bytes of the page table.
use pglinux.Base.{ℕ, zero, suc, ◌+◌, ◌<◌, ◌≡◌, refl, ap, ◌∙◌, some, ◌==◌, if◌then◌else◌, arith}
use pglinux.Word.{u64}
use pglinux.Cpu.{Cpu, Access}
use pglinux.Mem.{Loaded, value, cpu_load}
use pglinux.Mmu.{translate}
use pglinux.Mem.{load_at, fast_load_ok, host_hit}
use pglinux.Bus.{bus_load, within, is_size}
use pglinux.Ram.{read_bytes}
use pglinux.Find.{vm_find, find_loop, find_turn}
use pglinux.Find.First.{Finds, vm_find-Finds}
use pglinux.Tests.Data.{no_net, machine_cpu, page_table}

-- The bytes 31, 0, 0 and 32, of which 0 and 32 are sought.
abbrev bytes_there : ℕ → Loaded
bytes_there i = value (page_table (0x1000 + i))

abbrev zero_then_space : ℕ → ℕ
zero_then_space j = if j == 0 then 0 else 32

value_there :
    (i : ℕ)
    → i < 4
    → cpu_load no_net machine_cpu (u64 (0x80001000 + i)) 1 Access.read
      ≡ (bytes_there i, machine_cpu)
unfolding cpu_load load_at translate bus_load fast_load_ok host_hit within is_size read_bytes
value_there zero lt = refl
value_there (suc zero) lt = refl
value_there (suc (suc zero)) lt = refl
value_there (suc (suc (suc zero))) lt = refl
value_there (suc (suc (suc (suc i)))) lt = absurd (omega (arith, lt))

steady_there :
    (c : Cpu) (i : ℕ)
    → c ≡ machine_cpu
    → i < 4
    → ((cpu_load no_net c (u64 (0x80001000 + i)) 1 Access.read).0 ≡ bytes_there i)
      × ((cpu_load no_net c (u64 (0x80001000 + i)) 1 Access.read).1 ≡ machine_cpu)
steady_there c i e lt =
    let load = λ (d : Cpu). cpu_load no_net d (u64 (0x80001000 + i)) 1 Access.read in
    let both : load c ≡ (bytes_there i, machine_cpu) = ap load e ∙ value_there i lt in
    (ap (λ (r : Loaded × Cpu). r.0) both, ap (λ (r : Loaded × Cpu). r.1) both)

vm_find-Finds_example :
    Finds bytes_there zero_then_space 2 0x80001000 4
      (vm_find no_net 9 zero_then_space 2 0x80001000 4 machine_cpu)
vm_find-Finds_example =
    vm_find-Finds bytes_there zero_then_space 2 4 0x80001000 (omega arith) no_net
      (λ c. c ≡ machine_cpu) steady_there 9 machine_cpu refl (omega arith) (omega arith)

-- The second of the two zeros begins the match: the search goes back from a partial one.
found_third :
    vm_find no_net 9 zero_then_space 2 0x80001000 4 machine_cpu
    ≡ some (some 0x80001002, machine_cpu)
unfolding vm_find find_loop find_turn cpu_load load_at translate bus_load fast_load_ok host_hit
    within is_size read_bytes
found_third = refl
