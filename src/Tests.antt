-- ===== src/Tests.antt =====
-- Runs of the theorems at concrete inputs, on the machine of `Data`.
mod Data
mod Floats
mod Table
mod Disks
mod Search
mod Loop
mod Net
mod Jit
use pglinux.Tests.Data.{
  busy_uart, idle_clint, busy_plic, idle_queue, idle_dev, page_table, user_cpu, machine_cpu, no_net,
  no_poll, no_fp, adding_cpu, small_queue, tracked_disk, toy_host,
}
use pglinux.Virtio.Mmio.{store_status}
use pglinux.Virtio.Mmio.Reset.{stores, reset-marked}
use pglinux.Word.{u64, not64, ◌&&&◌}
use pglinux.Csr.{csr_read, csr_write, merge64, sstatus_mask}
use pglinux.Csr.Sstatus.{csr_write-sstatus}
use pglinux.Base.{◌≢◌, none, ◌⊎◌}
use pglinux.Virtio.Blk.{serve_all}
use pglinux.Virtio.Blk.Terminates.{serve_all_ends}
use pglinux.Mem.{trapped, load_at, fast_load_ok, host_hit, load_access}
use pglinux.Mem.Faults.{LoadTrap, cpu_load-traps}
use pglinux.Mmu.{fault_code}
use pglinux.Base.{
  ℕ, ◌+◌, ◌-◌, ◌*◌, ◌%◌, ◌^◌, ◌<◌, ◌≡◌, refl, true, false, some, [], ◌∷◌, ◌==◌, if◌then◌else◌, inl,
  inr, arith, ◌≢◌,
}
use pglinux.Word.Bits.{bit}
use pglinux.Ram.{Memory, read_bytes, write_bytes}
use pglinux.Ram.Laws.{read_bytes-write_bytes, write_bytes_outside}
use pglinux.Uart.{Uart, uart_load, uart_store, uart_rx}
use pglinux.Uart.Runs.{load, store, receive, uart_run, uart_run-IsValid}
use pglinux.Uart.Queue.{
  IsValid, contents, pop, uart_rx_refines, uart_load_refines, uart_load-IsValid, uart_store-IsValid,
  uart_rx-IsValid, line_status,
}
use pglinux.Clint.{Clint, clint_load, clint_store, clint_mtimecmp}
use pglinux.Clint.Halves.{mtimecmp_halves, clint_load-lt}
use pglinux.Plic.{Plic, claim_irq}
use pglinux.Plic.Claim.{Claims, claim_irq-Claims}
use pglinux.Virtio.{VirtioDev, VirtioQueue, ram_base}
use pglinux.Cpu.{Cpu, Access, no_entry}
use pglinux.Cpu.Hart.{hart}
use pglinux.Cpu.Zero.{ZeroX0}
use pglinux.Bus.{bus_load, bus_store, within, is_size}
use pglinux.Bus.RoundTrip.{bus_load-bus_store}
use pglinux.Mmu.{
  phys, translate, walk, take_leaf, read_pte, tlb_ok, allows, privileged, leaf_ok, aligned,
  leaf_address, tlb_index,
}
use pglinux.Mmu.Hits.{translate-tlb_ok}
use pglinux.Mmu.Again.{translate-translate}
use pglinux.Mem.{cpu_load, cpu_store}
use pglinux.Mem.Keeps.{hart-cpu_load, hart-cpu_store}
use pglinux.Trap.{trap, mret, sret, delegated}
use pglinux.Trap.Return.{trap-sret}
use pglinux.Trap.Machine.{trap-mret}
use pglinux.Irq.{IrqLine, takes, cause, check_interrupts, refresh}
use pglinux.Irq.Masked.{check_interrupts_masked}
use pglinux.Irq.Storm.{takes-trap}
use pglinux.Rvc.Expand.{expand}
use pglinux.Rvc.{li, sext32}
use pglinux.Rvc.Decompress.{decompress, decompress1}
use pglinux.Rvc.Decompress.Agree.{decompress-expand}
use pglinux.Exec.{FpResult, fp_unimplemented}
use pglinux.Step.{rv64_step}
use pglinux.Step.Zero.{next_leaks, next_insn, decoded, rv64_step-ZeroX0}
use pglinux.Step.{fetch}
use pglinux.Fpu.{fp_exec}
use pglinux.Fpu.Leak.{leaks}
use pglinux.Fpu.Frame.{int_insn}

busy_uart-IsValid : IsValid busy_uart
busy_uart-IsValid = record { head_in = omega arith; tail_in = omega arith; ready = refl }

uart_rx_refines_example : contents (uart_rx busy_uart 106) ≡ 104 ∷ 105 ∷ 106 ∷ []
uart_rx_refines_example = uart_rx_refines {u = busy_uart} 106 busy_uart-IsValid

uart_load_refines_example :
    ((uart_load busy_uart 0).0, contents (uart_load busy_uart 0).1)
    ≡ pop (contents busy_uart) busy_uart.rbr
uart_load_refines_example = uart_load_refines {u = busy_uart} busy_uart-IsValid refl

uart_run-IsValid_example :
    IsValid (uart_run busy_uart (load 0 ∷ store 1 2 ∷ receive 106 ∷ load 2 ∷ []))
uart_run-IsValid_example =
    uart_run-IsValid busy_uart (load 0 ∷ store 1 2 ∷ receive 106 ∷ load 2 ∷ []) busy_uart-IsValid

mtimecmp_halves_example :
    let c' = clint_store (clint_store idle_clint clint_mtimecmp 7 4) (clint_mtimecmp + 4) 9 4 in
    (c'.mtimecmp ≡ 9 * 2 ^ 32 + 7)
    × (clint_load c' clint_mtimecmp ≡ 7)
    × (clint_load c' (clint_mtimecmp + 4) ≡ 9)
    × (c'.mtime ≡ 0)
mtimecmp_halves_example = mtimecmp_halves idle_clint 7 9 (omega arith) (omega arith) (omega arith)

claim_irq-Claims_example : Claims busy_plic 1 1 64 (claim_irq busy_plic 1)
claim_irq-Claims_example = claim_irq-Claims busy_plic 1

in_ram : within ram_base user_cpu.ram_size 0x80001004 ≡ true
unfolding within
in_ram = refl

four_bytes : is_size 4 ≡ true
unfolding is_size
four_bytes = refl

bus_load-bus_store_example :
    ((bus_store no_net user_cpu 0x80001004 4 0x123456789).0 ≡ true)
    × ((bus_load (bus_store no_net user_cpu 0x80001004 4 0x123456789).1 0x80001004 4).0
        ≡ some 0x23456789)
    × ((bus_store no_net user_cpu 0x80001004 4 0x123456789).1.ram 0x1003 ≡ 0x20)
bus_load-bus_store_example =
    bus_load-bus_store no_net user_cpu 0x80001004 4 0x123456789 0x1003 in_ram refl four_bytes
      (inl (omega arith))

translated : (translate no_net user_cpu 0x1234 Access.write).0 ≡ phys 0x80001234
unfolding translate walk take_leaf read_pte tlb_ok allows privileged leaf_ok aligned leaf_address
    read_bytes
translated = refl

translate-tlb_ok_example :
    tlb_ok
      (translate no_net user_cpu 0x1234 Access.write).1
      ((translate no_net user_cpu 0x1234 Access.write).1.tlb (tlb_index 0x1234))
      0x1234
      Access.write
    ≡ true
translate-tlb_ok_example =
    translate-tlb_ok no_net user_cpu 0x1234 Access.write 0x80001234 refl refl translated

translate-translate_example :
    translate no_net (translate no_net user_cpu 0x1234 Access.write).1 0x1234 Access.write ≡ (
      phys 0x80001234,
      record (translate no_net user_cpu 0x1234 Access.write).1 {
        tlb_hits = u64 ((translate no_net user_cpu 0x1234 Access.write).1.tlb_hits + 1);
      },
    )
translate-translate_example =
    translate-translate no_net user_cpu 0x1234 Access.write 0x80001234 refl refl translated

hart-cpu_load_example : hart (cpu_load no_net user_cpu 0x1234 8 Access.read).1 ≡ hart user_cpu
hart-cpu_load_example = hart-cpu_load no_net user_cpu 0x1234 8 Access.read

hart-cpu_store_example : hart (cpu_store no_net user_cpu 0x1FFE 4 5).1 ≡ hart user_cpu
hart-cpu_store_example = hart-cpu_store no_net user_cpu 0x1FFE 4 5

syscall_delegated : delegated user_cpu 8 ≡ true
unfolding delegated
syscall_delegated = refl

trap-sret_example :
    ((sret (trap user_cpu 8 0)).1 ≡ 0x1000)
    × ((sret (trap user_cpu 8 0)).0.priv ≡ 0)
    × ((sret (trap user_cpu 8 0)).0.x ≡ user_cpu.x)
    × (bit 1 (sret (trap user_cpu 8 0)).0.mstatus ≡ 1)
trap-sret_example = trap-sret 1 8 0 user_cpu (omega arith) (omega arith) syscall_delegated

machine_keeps : delegated machine_cpu 11 ≡ false
unfolding delegated
machine_keeps = refl

trap-mret_example :
    ((mret (trap machine_cpu 11 0)).1 ≡ 0x1000)
    × ((mret (trap machine_cpu 11 0)).0.priv ≡ 3)
    × ((mret (trap machine_cpu 11 0)).0.x ≡ machine_cpu.x)
    × (bit 11 (mret (trap machine_cpu 11 0)).0.mstatus ≡ 0)
trap-mret_example = trap-mret 11 11 0 machine_cpu (omega arith) (omega arith) machine_keeps

-- The supervisor's timer.
abbrev timer_line : IrqLine
timer_line = record { code = 5; to_m = false }

timer_taken : takes user_cpu timer_line ≡ true
unfolding takes
timer_taken = refl

takes-trap_example : takes (trap user_cpu (cause timer_line) 0) timer_line ≡ false
takes-trap_example =
    takes-trap user_cpu timer_line (omega arith) (omega arith) (omega arith) timer_taken

quiet : next_leaks toy_host no_net adding_cpu ≡ false
unfolding next_leaks next_insn decoded fetch cpu_load load_at translate bus_load fast_load_ok leaks
    int_insn is_size host_hit read_bytes within expand
quiet = refl

starts_zero : ZeroX0 adding_cpu
unfolding ZeroX0
starts_zero = refl

rv64_step-ZeroX0_example : ZeroX0 (rv64_step no_net (fp_exec toy_host no_net) adding_cpu)
rv64_step-ZeroX0_example = rv64_step-ZeroX0 toy_host no_net adding_cpu quiet starts_zero

serve_all_ends_example : serve_all small_queue 0x10000 65536 65535 1 idle_dev page_table ≢ none
serve_all_ends_example =
    serve_all_ends small_queue 0x10000 1 65535 idle_dev page_table (omega arith) (omega arith)

-- The second gigabyte is not mapped.
unmapped : (cpu_load no_net user_cpu 0x40000000 8 Access.read).0 ≡ trapped 13
unfolding cpu_load load_at translate walk read_pte fault_code fast_load_ok host_hit tlb_ok
    read_bytes
unmapped = refl

cpu_load-traps_example : LoadTrap Access.read 13
cpu_load-traps_example = cpu_load-traps no_net user_cpu 0x40000000 8 Access.read 13 unmapped

csr_write-sstatus_example :
    let d = record machine_cpu { mstatus = merge64 sstatus_mask machine_cpu.mstatus 0xFFFF } in
    (csr_write machine_cpu 0x100 0xFFFF ≡ some d)
    × (csr_read d 0x100 ≡ some 0x6122)
    × ((d.mstatus &&& not64 sstatus_mask) ≡ 0x1880)
csr_write-sstatus_example = csr_write-sstatus machine_cpu 0xFFFF

reset-marked_example :
    (stores no_net 0x10000
      ((0x030, 0) ∷ (0x038, 4) ∷ (0x044, 1) ∷ (0x050, 0) ∷ [])
      (store_status tracked_disk 0)
      page_table).0.marked
    ≡ (0, 512) ∷ []
reset-marked_example =
    reset-marked no_net 0x10000 tracked_disk
      ((0x030, 0) ∷ (0x038, 4) ∷ (0x044, 1) ∷ (0x050, 0) ∷ []) page_table refl
