-- ===== src/Uart/Runs.antt =====
-- extension/rv64_bus.c: the UART under any sequence of register accesses and arriving bytes.
use pglinux.Base.{ℕ, List, [], ◌∷◌}
use pglinux.Uart.{Uart, uart_load, uart_store, uart_rx}
use pglinux.Uart.Queue.{IsValid, uart_load-IsValid, uart_store-IsValid, uart_rx-IsValid}

-- A load at an offset, a store of a value, a byte from the outside.
pub data UartEvent : Type 0 where
  load : ℕ → UartEvent
  store : ℕ → ℕ → UartEvent
  receive : ℕ → UartEvent

unfoldable pub uart_event : Uart → UartEvent → Uart
uart_event u (load offset) = (uart_load u offset).1
uart_event u (store offset val) = uart_store u offset val
uart_event u (receive ch) = uart_rx u ch

unfoldable pub uart_run : Uart → List UartEvent → Uart
uart_run u [] = u
uart_run u (e ∷ es) = uart_run (uart_event u e) es

-- Whatever the guest reads and writes and whatever arrives, the receive ring stays well formed: its
-- indices stay in range, and data is ready exactly when a byte waits.
pub uart_run-IsValid : (u : Uart) (es : List UartEvent) → IsValid u → IsValid (uart_run u es)
unfolding uart_run uart_event
uart_run-IsValid u [] h = h
uart_run-IsValid u (load offset ∷ es) h =
    uart_run-IsValid (uart_load u offset).1 es (uart_load-IsValid offset h)
uart_run-IsValid u (store offset val ∷ es) h =
    uart_run-IsValid (uart_store u offset val) es (uart_store-IsValid offset val h)
uart_run-IsValid u (receive ch ∷ es) h = uart_run-IsValid (uart_rx u ch) es (uart_rx-IsValid ch h)
