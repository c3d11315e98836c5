-- ===== src/Uart.antt =====
-- extension/rv64_bus.c: the 16550 UART. Byte fields hold what the code stored, below 256.
-- `tx_callback` is a pointer to code elsewhere: `has_tx` says that it is set, and `sent` lists the
-- bytes handed to it, the latest first.
pub mod Queue
pub mod Runs
use pglinux.Base.{ℕ, ◌+◌, Bool, true, false, not, ◌&&◌, List, ◌∷◌, ◌==◌, if◌then◌else◌, update}
use pglinux.Word.{nonzero, u8, ◌&&&◌, ◌|||◌, ◌>>>◌}

-- struct rv64_uart
pub record Uart : Type 0 where
  pub rbr : ℕ
  pub thr : ℕ
  pub ier : ℕ
  pub iir : ℕ
  pub lcr : ℕ
  pub mcr : ℕ
  pub lsr : ℕ
  pub msr : ℕ
  pub scr : ℕ
  pub dll : ℕ
  pub dlm : ℕ
  pub rx_ready : Bool
  pub thre_pending : Bool
  pub has_tx : Bool
  pub sent : List ℕ
  pub rx_buf : ℕ → ℕ
  pub rx_head : ℕ
  pub rx_tail : ℕ

-- int dlab = (u->lcr >> 7) & 1;
abbrev pub dlab : Uart → Bool
dlab u = nonzero (u.lcr >>> 7 &&& 1)

-- case 0 of `uart_load` with DLAB clear: take one byte from the ring, if it holds one.
pub take_rbr : Uart → ℕ × Uart
take_rbr u =
    let u1 =
      if u.rx_head == u.rx_tail
      then u
      else record u { rbr = u.rx_buf u.rx_tail; rx_tail = u.rx_tail + 1 &&& 0xFF } in
    (u1.rbr, record u1 { rx_ready = not (u1.rx_head == u1.rx_tail) })

-- case 2 of `uart_load`.
pub load_iir : Uart → ℕ × Uart
load_iir u =
    if u.rx_ready && nonzero (u.ier &&& 1)
    then (0x04, u)
    else if nonzero (u.ier &&& 2)
    then (0x02, record u { thre_pending = false })
    else (0x01, u)

unfoldable pub uart_load : Uart → ℕ → ℕ × Uart
uart_load u offset =
    if offset == 0
    then (if dlab u then (u.dll, u) else take_rbr u)
    else if offset == 1
    then ((if dlab u then u.dlm else u.ier), u)
    else if offset == 2
    then load_iir u
    else if offset == 3
    then (u.lcr, u)
    else if offset == 4
    then (u.mcr, u)
    else if offset == 5
    then ((if u.rx_ready then 0x01 else 0) ||| 0x60, u)
    else if offset == 6
    then (u.msr, u)
    else if offset == 7
    then (u.scr, u)
    else (0, u)

-- case 0 of `uart_store` with DLAB clear.
pub transmit : Uart → ℕ → Uart
transmit u val =
    let u1 = if u.has_tx then record u { sent = u8 val ∷ u.sent } else u in
    if nonzero (u1.ier &&& 2) then record u1 { thre_pending = true } else u1

-- case 1 of `uart_store` with DLAB clear.
pub store_ier : Uart → ℕ → Uart
store_ier u val =
    let ier' = val &&& 0x0F in record u { ier = ier'; thre_pending = nonzero (ier' &&& 2) }

pub uart_store : Uart → ℕ → ℕ → Uart
uart_store u offset val =
    if offset == 0
    then (if dlab u then record u { dll = val &&& 0xFF } else transmit u val)
    else if offset == 1
    then (if dlab u then record u { dlm = val &&& 0xFF } else store_ier u val)
    else if offset == 3
    then record u { lcr = val &&& 0xFF }
    else if offset == 4
    then record u { mcr = val &&& 0x1F }
    else if offset == 7
    then record u { scr = val &&& 0xFF }
    else u

-- The part of `rv64_uart_rx` that works on the UART. `ch` is a `uint8_t`.
pub uart_rx : Uart → ℕ → Uart
uart_rx u ch =
    let next = u.rx_head + 1 &&& 0xFF in
    if next == u.rx_tail
    then u
    else record u { rx_buf = update u.rx_buf u.rx_head ch; rx_head = next; rx_ready = true }
