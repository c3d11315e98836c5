-- ===== src/Uart/Queue.antt =====
-- extension/rv64_bus.c: the receive ring of the UART against a queue of at most 255 bytes.
use pglinux.Base.{
  ℕ, zero, suc, ◌+◌, ◌-◌, ◌%◌, ◌<◌, ◌≡◌, refl, ap, ap₂, ◌∙◌, Bool, true, false, not, List, [], ◌∷◌,
  ◌++◌, ◌==◌, ==→ne, Bool-cases, inl, inr, ltb, if◌then◌else◌, update, arith, ◌≢◌,
}
use pglinux.Word.Bits.Fields.{and_mask}
use pglinux.Uart.{
  Uart, dlab, take_rbr, load_iir, uart_load, uart_store, transmit, store_ier, uart_rx,
}

abbrev pub length : List ℕ → ℕ
length [] = 0
length (x ∷ xs) = suc (length xs)

-- The `n` bytes of the ring from index `t` on.
abbrev pub window : (ℕ → ℕ) → ℕ → ℕ → List ℕ
window b t zero = []
window b t (suc n) = b t ∷ window b ((t + 1) % 256) n

abbrev pub held : Uart → ℕ
held u = (u.rx_head + 256 - u.rx_tail) % 256

-- The bytes that wait in the ring, the oldest first.
abbrev pub contents : Uart → List ℕ
contents u = window u.rx_buf u.rx_tail (held u)

pub record IsValid (u : Uart) : Type 0 where
  pub head_in : u.rx_head < 256
  pub tail_in : u.rx_tail < 256
  pub ready : u.rx_ready ≡ not (u.rx_head == u.rx_tail)

-- The queue that the ring stands for.
abbrev pub push : List ℕ → ℕ → List ℕ
push q ch = if ltb (length q) 255 then q ++ (ch ∷ []) else q

-- What a read returns, the last byte again if none waits, and what is left.
abbrev pub pop : List ℕ → ℕ → ℕ × List ℕ
pop [] last = (last, [])
pop (x ∷ q) last = (x, q)

length-window : (b : ℕ → ℕ) (t n : ℕ) → length (window b t n) ≡ n
length-window b t zero = refl
length-window b t (suc n) = ap suc (length-window b ((t + 1) % 256) n)

window-update :
    (b : ℕ → ℕ) (ch t n i : ℕ)
    → t < 256
    → n < 256
    → i ≡ (t + n) % 256
    → window (update b i ch) t (suc n) ≡ window b t n ++ (ch ∷ [])
window-update b ch t zero i ht hn e = let e' : t ≡ i = omega arith in ground arith
window-update b ch t (suc n) i ht hn e =
    ap₂ ◌∷◌ (let ne : t ≢ i = omega arith in ground arith)
      (window-update b ch ((t + 1) % 256) n i (omega arith) (omega arith) (omega arith))

-- Where the ring is well formed, a byte that arrives goes to the end of the queue, or is dropped if 255 bytes wait.
pub uart_rx_refines :
    {u : Uart} (ch : ℕ) → IsValid u → contents (uart_rx u ch) ≡ push (contents u) ch
unfolding uart_rx
uart_rx_refines {u} ch v = ground (
  arith,
  and_mask 8 (u.rx_head + 1),
  length-window u.rx_buf u.rx_tail (held u),
  window-update u.rx_buf ch u.rx_tail (held u) u.rx_head,
)

window-pop :
    (b : ℕ → ℕ) (t n last : ℕ)
    → pop (window b t n) last
      ≡ (if n == 0 then (last, []) else (b t, window b ((t + 1) % 256) (n - 1)))
window-pop b t zero last = refl
window-pop b t (suc n) last =
    ap (λ k. (b t, window b ((t + 1) % 256) k)) {y = suc n - 1} (omega arith) ∙ ground arith

take_rbr_refines :
    {u : Uart} → IsValid u → ((take_rbr u).0, contents (take_rbr u).1) ≡ pop (contents u) u.rbr
unfolding take_rbr
take_rbr_refines {u} v = elim (Bool-cases (u.rx_head == u.rx_tail)) [
  | inl none ↦ ground (arith, window-pop u.rx_buf u.rx_tail (held u) u.rbr)
  | inr some ↦ ground (
    arith,
    and_mask 8 (u.rx_tail + 1),
    window-pop u.rx_buf u.rx_tail (held u) u.rbr,
    ap (window u.rx_buf ((u.rx_tail + 1) % 256))
        {x = (u.rx_head + 256 - (u.rx_tail + 1) % 256) % 256} {y = held u - 1}
        (omega (arith, ==→ne _ _ some)),
  )
]

-- Where the ring is well formed and DLAB is clear, reading the receive register takes the oldest byte that waits; if none waits it returns the
-- byte of the last read and takes nothing.
pub uart_load_refines :
    {u : Uart}
    → IsValid u
    → dlab u ≡ false
    → ((uart_load u 0).0, contents (uart_load u 0).1) ≡ pop (contents u) u.rbr
unfolding uart_load
uart_load_refines {u} v h = rw h (take_rbr_refines v)

pub take_rbr-IsValid : {u : Uart} → IsValid u → IsValid (take_rbr u).1
unfolding take_rbr
take_rbr-IsValid {u} v = ground (arith, and_mask 8 (u.rx_tail + 1))

pub load_iir-IsValid : {u : Uart} → IsValid u → IsValid (load_iir u).1
unfolding load_iir
load_iir-IsValid {u} v = ground arith

-- Reading any register of a UART with a well-formed ring leaves the ring well formed.
pub uart_load-IsValid : {u : Uart} (offset : ℕ) → IsValid u → IsValid (uart_load u offset).1
unfolding uart_load
uart_load-IsValid {u} offset v = ground (arith, take_rbr-IsValid v, load_iir-IsValid v)

transmit-IsValid : {u : Uart} (val : ℕ) → IsValid u → IsValid (transmit u val)
unfolding transmit
transmit-IsValid {u} val v = ground arith

-- Writing any value to any register of a UART with a well-formed ring leaves the ring well formed.
pub uart_store-IsValid : {u : Uart} (offset val : ℕ) → IsValid u → IsValid (uart_store u offset val)
unfolding uart_store store_ier
uart_store-IsValid {u} offset val v = ground (arith, transmit-IsValid val v)

-- A byte that arrives, kept or dropped, leaves a well-formed ring well formed.
pub uart_rx-IsValid : {u : Uart} (ch : ℕ) → IsValid u → IsValid (uart_rx u ch)
unfolding uart_rx
uart_rx-IsValid {u} ch v = ground (arith, and_mask 8 (u.rx_head + 1))

abbrev pub nonempty : List ℕ → Bool
nonempty [] = false
nonempty (x ∷ q) = true

nonempty-window : (b : ℕ → ℕ) (t n : ℕ) → nonempty (window b t n) ≡ not (n == 0)
nonempty-window b t zero = refl
nonempty-window b t (suc n) = ground arith

-- Where the ring is well formed, bit 0 of the line status register, data ready, says whether a byte waits in the ring.
pub line_status :
    {u : Uart} → IsValid u → (uart_load u 5).0 % 2 ≡ (if nonempty (contents u) then 1 else 0)
unfolding uart_load
line_status {u} v = ground (arith, nonempty-window u.rx_buf u.rx_tail (held u))
