-- ===== src/Trap.antt =====
-- extension/rv64_cpu.c: `trap`, and the returns `MRET` and `SRET` of `rv64_step`. The trap log and
-- the messages on stderr are not part of the state.
pub mod Status
pub mod Machine
pub mod Return
pub mod Registers
use pglinux.Base.{ℕ, ◌+◌, ◌*◌, ◌^◌, Bool, false, ◌&&◌, ◌==◌, if◌then◌else◌}
use pglinux.Word.{u64, not64, nonzero, ◌&&&◌, ◌|||◌, ◌<<<◌, ◌>>>◌}
use pglinux.Cpu.{Cpu, priv_s, priv_m}

-- mstatus with the bits of `mask` replaced by `bits`.
abbrev pub set_field : ℕ → ℕ → ℕ → ℕ
set_field mstatus mask bits = mstatus &&& not64 mask ||| bits

-- SPIE takes SIE, SIE is cleared, SPP takes the privilege.
pub enter_s : ℕ → ℕ → ℕ
enter_s mstatus priv =
    let sie = mstatus >>> 1 &&& 1 in
    set_field (set_field mstatus (2 ^ 5) (sie <<< 5) &&& not64 (2 ^ 1)) (2 ^ 8) (priv <<< 8)

-- MPIE takes MIE, MIE is cleared, MPP takes the privilege.
unfoldable pub enter_m : ℕ → ℕ → ℕ
enter_m mstatus priv =
    let mie = mstatus >>> 3 &&& 1 in
    set_field (set_field mstatus (2 ^ 7) (mie <<< 7) &&& not64 (2 ^ 3)) (3 * 2 ^ 11) (priv <<< 11)

abbrev pub is_interrupt : ℕ → Bool
is_interrupt cause = nonzero (cause >>> 63 &&& 1)

abbrev pub cause_code : ℕ → ℕ
cause_code cause = cause &&& 0x7FFFFFFFFFFFFFFF

-- The handler's address: vectored mode adds 4 for each interrupt code.
unfoldable pub handler : ℕ → ℕ → ℕ
handler tvec cause =
    let base = tvec &&& not64 3 in
    if tvec &&& 3 == 1 && is_interrupt cause then u64 (base + cause_code cause * 4) else base

-- Is the trap taken in supervisor mode?
unfoldable pub delegated : Cpu → ℕ → Bool
delegated c cause =
    if c.priv == priv_m
    then false
    else if is_interrupt cause
    then nonzero (c.mideleg >>> cause_code cause &&& 1)
    else nonzero (c.medeleg >>> cause_code cause &&& 1)

unfoldable pub trap : Cpu → ℕ → ℕ → Cpu
trap c cause tval =
    if delegated c cause
    then record c {
      sepc = c.pc;
      scause = cause;
      stval = tval;
      mstatus = enter_s c.mstatus c.priv;
      priv = priv_s;
      pc = handler c.stvec cause;
    }
    else record c {
      mepc = c.pc;
      mcause = cause;
      mtval = tval;
      mstatus = enter_m c.mstatus c.priv;
      priv = priv_m;
      pc = handler c.mtvec cause;
    }

-- The state and the next pc of MRET, in machine mode.
pub mret : Cpu → Cpu × ℕ
mret c =
    let mpie = c.mstatus >>> 7 &&& 1 in
    let mpp = c.mstatus >>> 11 &&& 3 in
    (
      record c {
        mstatus = (set_field c.mstatus (2 ^ 3) (mpie <<< 3) ||| 2 ^ 7) &&& not64 (3 * 2 ^ 11);
        priv = mpp;
      },
      c.mepc,
    )

-- The same of SRET, in supervisor or machine mode.
pub sret : Cpu → Cpu × ℕ
sret c =
    let spie = c.mstatus >>> 5 &&& 1 in
    let spp = c.mstatus >>> 8 &&& 1 in
    (
      record c {
        mstatus = (set_field c.mstatus (2 ^ 1) (spie <<< 1) ||| 2 ^ 5) &&& not64 (2 ^ 8);
        priv = spp;
      },
      c.sepc,
    )
