-- ===== src/Jit.antt =====
-- extension/rv64_sljit.c: the JIT compiler.
pub mod Calls
pub mod Emit
pub mod Engine
pub mod Signs
pub mod Block
pub mod Runs
pub mod Skips
pub mod Ops
pub mod Insn
pub mod Every
pub mod Idle
pub mod Whole
pub mod Uncompress
