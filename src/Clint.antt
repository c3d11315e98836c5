-- ===== src/Clint.antt =====
-- extension/rv64_bus.c: the CLINT, timer registers written and read by halves.
pub mod Halves
use pglinux.Base.{ℕ, ◌+◌, ◌==◌, if◌then◌else◌}
use pglinux.Word.{◌&&&◌, ◌|||◌, ◌<<<◌, ◌>>>◌}

-- struct rv64_clint
pub record Clint : Type 0 where
  pub mtimecmp : ℕ
  pub mtime : ℕ

abbrev pub clint_mtimecmp : ℕ
clint_mtimecmp = 0x4000

abbrev pub clint_mtime : ℕ
clint_mtime = 0xBFF8

pub clint_load : Clint → ℕ → ℕ
clint_load c offset =
    if offset == 0x0000
    then 0
    else if offset == clint_mtimecmp
    then c.mtimecmp &&& 0xFFFFFFFF
    else if offset == clint_mtimecmp + 4
    then c.mtimecmp >>> 32
    else if offset == clint_mtime
    then c.mtime &&& 0xFFFFFFFF
    else if offset == clint_mtime + 4
    then c.mtime >>> 32
    else 0

-- The new value of a register after a store to its low word: 8 bytes replace it whole.
abbrev low_word : ℕ → ℕ → ℕ → ℕ
low_word old val size =
    if size == 8 then val else old &&& 0xFFFFFFFF00000000 ||| (val &&& 0xFFFFFFFF)

abbrev high_word : ℕ → ℕ → ℕ
high_word old val = old &&& 0xFFFFFFFF ||| (val &&& 0xFFFFFFFF) <<< 32

pub clint_store : Clint → ℕ → ℕ → ℕ → Clint
clint_store c offset val size =
    if offset == clint_mtimecmp
    then record c { mtimecmp = low_word c.mtimecmp val size }
    else if offset == clint_mtimecmp + 4
    then record c { mtimecmp = high_word c.mtimecmp val }
    else if offset == clint_mtime
    then record c { mtime = low_word c.mtime val size }
    else if offset == clint_mtime + 4
    then record c { mtime = high_word c.mtime val }
    else c
