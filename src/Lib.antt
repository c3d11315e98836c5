-- ===== src/Lib.antt =====
-- pglinux runs Linux inside PostgreSQL: the extension interprets a 64-bit RISC-V machine
-- (extension/rv64_*.c). This library models the machine and proves what makes its parts
-- correct.
--
-- The parts, and how they interact. The step (rv64_step of extension/rv64_cpu.c) fetches a word
-- through the memory accesses (rv64_cpu_load), expands a compressed instruction, decodes and
-- executes it, and takes traps. Memory accesses try the TLB, else translate (rv64_translate of
-- extension/rv64_mmu.c) and go over the bus (extension/rv64_bus.c), which serves the RAM, the
-- UART, the CLINT, the PLIC and two virtio devices (extension/rv64_virtio.c). Stores to devices
-- raise interrupts in the PLIC, and check_interrupts turns pending interrupts into traps.
--
-- Base: names and helpers that all parts share, tests on numbers, predicates of conditionals,
-- maps, and C's signed integers. Word: C's unsigned integers as natural numbers with their
-- casts written out, and the bits of a word.
-- Uart, Clint, Plic: the devices of extension/rv64_bus.c (uart_load, uart_store, rv64_uart_rx,
-- clint_load, clint_store, plic_load, plic_store). The bytes that the UART transmits are a
-- list.
-- Ram, Bus: the little-endian RAM, and bus_load and bus_store. A memory is a function of the
-- offset; what stands behind the pointer of the RAM beyond its size is the same function.
-- Virtio: the state of extension/rv64_virtio.h and guest_read, guest_write; Virtio.Blk:
-- virtio_blk_process_queue; Virtio.Mmio: virtio_mmio_load and virtio_mmio_store.
-- Cpu: struct rv64_cpu; Cpu.Hart: its registers, that is all of it but the RAM, the devices,
-- the TLB, the counters of the profile and the request for an interrupt check.
-- Mmu: rv64_translate, with the walk by recursion on the level. Mem: rv64_cpu_load and
-- cpu_store.
-- Csr, Trap, Irq: csr_read and csr_write, trap with MRET and SRET, check_interrupts.
-- Rvc: the expansion of compressed instructions in rv64_step (Rvc.Expand) and in
-- extension/rv64_jit.c (Rvc.Decompress). Decode, Alu, Exec, Step: the rest of rv64_step. Fpu:
-- rv64_fp_exec of extension/rv64_fpu.c, over the bit patterns of the registers; the arithmetic
-- of the host is the record Host.
-- Virtio.Net: the network device of extension/rv64_virtio_net.c. The callback takes the counter
-- rx_head as the int that it is; the drain reads it below 2^31. The slirp library is a
-- parameter: the packets that it hands to the callback.
-- Disk: the bitmap of dirty blocks of extension/rv64_pgext.c (vm_dirty_callback), the flush to
-- the table vm_blocks (worker_flush_dirty_blocks) and the overlay at boot
-- (worker_handle_cmd_boot). The table is the record BlockTable, with its rows by vm_id and
-- block; the worker writes them under vm_id 1 and a boot reads those of its machine. Whether
-- SPI_connect, the INSERT of a block and the SELECT work is an argument.
-- Find: the search of the memory by vm_find of extension/rv64_pgext.c (rv64_vm_find).
-- Jit: the compiler of extension/rv64_sljit.c. Jit.Calls: the calls of the sljit library;
-- Jit.Engine: what that library documents of them, as the parameter Sljit with the laws
-- IsSljit, and the run of a list of calls; Jit.Uncompress: sljit_uncompress; Jit.Emit: the
-- calls for one instruction; Jit.Block: jit_compile_block, with its loop, and jit_exec with the
-- cache. Jit.Insn, Jit.Every and Jit.Whole compare the code with Exec, for an instruction, for
-- every one, and for a block.
-- Run: rv64_run, with its dispatch to rv64_run_jit, turn by turn, with the breakpoint of
-- rv64_step, the halt of the debugger and the exits on errors; Run.Reset: rv64_init.
-- Tests: a small machine, at which the theorems are applied.
--
-- Results of C functions that return an error code are options or types of their own
-- (Translated, Loaded, Flow). A state is passed explicitly, and a function that changes the
-- machine returns the new one.
--
-- Bounds and fuel: the page walk has 3 levels and the claim loop 63 sources, as in the source;
-- a descriptor chain is walked at most vq->num times, as in the source; the loop over the
-- available ring compares two 16-bit indices, of which one grows by 1 in each turn, so that
-- 65536 turns are enough. The drain of the network device has one turn for each packet in its
-- ring and one more. The run loop and the walk over a transmit chain have no bound in the
-- source: they run on fuel that is an argument, and their result is none where it does not
-- suffice. The search of vm_find, which goes back from a partial match, runs on such fuel too;
-- it needs no more turns than the product of the two lengths and one. The loop over a block has
-- one turn for each instruction of its limit, as in the source.
--
-- Not modelled: the arithmetic of the host's floating-point unit (the record Host), its clock
-- (now_ns), the slirp library and the sljit library, which are parameters; the call of jit_exec
-- in the run loop, a parameter there; the ARM64 code generator, which the build does not link
-- (the rest of extension/rv64_jit.c); the rest of the interface to the server
-- (extension/rv64_pgext.c, extension/pg_process.c, extension/linuxsql.c); debug logs, the one
-- of breakpoints among them, watchpoints and most profile counters. The steps and accesses take
-- the processing of a transmit queue (net_process), the poll (net_poll) and the floating-point
-- unit (fp_exec) as parameters, since the first need not return; Virtio.Net and Fpu are what
-- stands there.
pub mod Base
pub mod Word
pub mod Uart
pub mod Clint
pub mod Plic
pub mod Ram
pub mod Virtio
pub mod Cpu
pub mod Bus
pub mod Mmu
pub mod Mem
pub mod Trap
pub mod Csr
pub mod Irq
pub mod Rvc
pub mod Alu
pub mod Decode
pub mod Exec
pub mod Fpu
pub mod Step
pub mod Run
pub mod Disk
pub mod Find
pub mod Jit
pub mod Tests
