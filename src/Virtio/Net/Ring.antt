-- ===== src/Virtio/Net/Ring.antt =====
-- extension/rv64_virtio_net.c: the ring of received packets against a queue of at most 256 packets.
use pglinux.Base.{
  ℕ, zero, suc, ◌+◌, ◌-◌, ◌%◌, ◌<◌, ◌≤◌, ◌≡◌, ◌≢◌, refl, sym, subst, ◌^◌, ap, ap₂, ◌∙◌, false, ◌&&◌,
  List, [], ◌∷◌, ◌++◌, ltb, leb, if◌then◌else◌, update, update_self, update_ne, arith, if_split,
  if_yes, if_no,
}
use pglinux.Ram.{Memory, read_bytes}
use pglinux.Ram.Laws.{read_bytes_ext}
use pglinux.Virtio.{VirtioDev, Packet, copy_bytes}
use pglinux.Base.Int.{pos, remainder}
use pglinux.Word.{u32}
use pglinux.Virtio.Net.{slirp_send_packet, ring_full, ring_index}

abbrev pub length : List (ℕ × ℕ) → ℕ
length [] = 0
length (x ∷ xs) = suc (length xs)

-- The packet with number `i`: its size, and its bytes as one number.
unfoldable pub slot : (ℕ → ℕ) → (ℕ → Memory) → ℕ → ℕ × ℕ
slot sizes bytes i = (sizes (i % 256), read_bytes (sizes (i % 256)) (bytes (i % 256)) 0)

-- The `n` packets from number `t` on.
abbrev pub window : (ℕ → ℕ) → (ℕ → Memory) → ℕ → ℕ → List (ℕ × ℕ)
window sizes bytes t zero = []
window sizes bytes t (suc n) = slot sizes bytes t ∷ window sizes bytes (t + 1) n

-- The packets that wait, the oldest first.
abbrev pub contents : VirtioDev → List (ℕ × ℕ)
contents dev = window dev.rx_sizes dev.rx_data dev.rx_tail (dev.rx_head - dev.rx_tail)

-- The counters are at most 256 apart.
pub record IsRing (dev : VirtioDev) : Type 0 where
  pub ordered : dev.rx_tail ≤ dev.rx_head
  pub within : dev.rx_head ≤ dev.rx_tail + 256

-- A packet cut to 2048 bytes, and the queue that the ring stands for.
abbrev pub cut : ℕ → ℕ
cut size = if ltb 2048 size then 2048 else size

abbrev pub packet : Packet → ℕ × ℕ
packet p = (cut p.size, read_bytes (cut p.size) p.bytes 0)

abbrev pub push : List (ℕ × ℕ) → ℕ × ℕ → List (ℕ × ℕ)
push q p = if leb 256 (length q) then q else q ++ (p ∷ [])

length-window : (sizes : ℕ → ℕ) (bytes : ℕ → Memory) (t n : ℕ) → length (window sizes bytes t n) ≡ n
length-window sizes bytes t zero = refl
length-window sizes bytes t (suc n) = ap (λ k. suc k) (length-window sizes bytes (t + 1) n)

window_snoc :
    (sizes : ℕ → ℕ) (bytes : ℕ → Memory) (t n : ℕ)
    → window sizes bytes t (suc n) ≡ window sizes bytes t n ++ (slot sizes bytes (t + n) ∷ [])
window_snoc sizes bytes t zero =
    ap (λ i. slot sizes bytes i ∷ []) (let e : t ≡ t + 0 = omega arith in e)
window_snoc sizes bytes t (suc n) =
    ap (λ q. slot sizes bytes t ∷ q)
      (window_snoc sizes bytes (t + 1) n
        ∙ ap (λ i. window sizes bytes (t + 1) n ++ (slot sizes bytes i ∷ []))
            (let e : t + 1 + n ≡ t + suc n = omega arith in e))

-- A window depends on the slots in it.
window_same :
    (sizes sizes' : ℕ → ℕ) (bytes bytes' : ℕ → Memory) (t n : ℕ)
    → ((i : ℕ) → t ≤ i → i < t + n → slot sizes' bytes' i ≡ slot sizes bytes i)
    → window sizes' bytes' t n ≡ window sizes bytes t n
window_same sizes sizes' bytes bytes' t zero h = refl
window_same sizes sizes' bytes bytes' t (suc n) h =
    ap₂ (λ p q. p ∷ q) (h t (omega arith) (omega arith))
      (window_same sizes sizes' bytes bytes' (t + 1) n
        λ i le lt. h i (omega (arith, le)) (omega (arith, lt)))

module _ (dev : VirtioDev) (p : Packet) where
  sizes : ℕ → ℕ
  sizes = update dev.rx_sizes (dev.rx_head % 256) (cut p.size)

  bytes : ℕ → Memory
  bytes =
      update dev.rx_data (dev.rx_head % 256)
        (copy_bytes (dev.rx_data (dev.rx_head % 256)) 0 p.bytes 0 (cut p.size))

  slot_other :
      (i : ℕ) → i % 256 ≢ dev.rx_head % 256 → slot sizes bytes i ≡ slot dev.rx_sizes dev.rx_data i
  unfolding slot sizes bytes
  slot_other i ne =
      ap₂ (λ (s : ℕ) (m : Memory). (s, read_bytes s m 0))
        (update_ne dev.rx_sizes (dev.rx_head % 256) (cut p.size) (i % 256) ne)
        (update_ne dev.rx_data (dev.rx_head % 256) _ (i % 256) ne)

  copied :
      (n : ℕ) (old : Memory)
      → read_bytes n (copy_bytes old 0 p.bytes 0 n) 0 ≡ read_bytes n p.bytes 0
  unfolding copy_bytes
  copied n old = read_bytes_ext n (copy_bytes old 0 p.bytes 0 n) p.bytes 0 λ j le lt.
      if_yes (leb 0 j && ltb j (0 + n)) _ _ (ground (arith, lt))
      ∙ ap p.bytes (let e : 0 + (j - 0) ≡ j = omega arith in e)

  slot_new : slot sizes bytes dev.rx_head ≡ packet p
  unfolding slot sizes bytes
  slot_new =
      ap₂ (λ (s : ℕ) (m : Memory). (s, read_bytes s m 0))
        (update_self dev.rx_sizes (dev.rx_head % 256) (cut p.size))
        (update_self dev.rx_data (dev.rx_head % 256) _)
      ∙ ap (λ (v : ℕ). (cut p.size, v)) (copied (cut p.size) _)

  -- Below 2 ^ 31 the counters do not wrap.
  plain_send : VirtioDev
  plain_send =
      if leb 256 (dev.rx_head - dev.rx_tail)
      then dev
      else record dev { rx_sizes = sizes; rx_data = bytes; rx_head = dev.rx_head + 1 }

  small_index : dev.rx_head + 1 < 2 ^ 31 → ring_index dev.rx_head ≡ pos (dev.rx_head % 256)
  unfolding ring_index remainder
  small_index small = ground (arith, small)

  small_full :
      IsRing dev → dev.rx_head + 1 < 2 ^ 31 → ring_full dev ≡ leb 256 (dev.rx_head - dev.rx_tail)
  unfolding ring_full
  small_full ok small = ground (arith, small, ok.ordered)

  small_send : IsRing dev → dev.rx_head + 1 < 2 ^ 31 → slirp_send_packet dev p ≡ plain_send
  unfolding slirp_send_packet plain_send sizes bytes
  small_send ok small =
      rw (slirp_send_packet, small_full ok small, small_index small)
        (ap
          (λ (n : ℕ).
            if leb 256 (dev.rx_head - dev.rx_tail)
            then dev
            else record dev { rx_sizes = sizes; rx_data = bytes; rx_head = n })
          (let e : u32 (dev.rx_head + 1) ≡ dev.rx_head + 1 = omega (arith, small) in e))

  plain_send_refines : IsRing dev → contents plain_send ≡ push (contents dev) (packet p)
  unfolding plain_send sizes bytes
  plain_send_refines ok =
      let n = dev.rx_head - dev.rx_tail in
      let q = contents dev in
      let held : length q ≡ n = length-window dev.rx_sizes dev.rx_data dev.rx_tail n in
      if_split (λ (e : VirtioDev). contents e ≡ push q (packet p)) (leb 256 n)
        (λ full.
          sym (if_yes (leb 256 (length q)) q (q ++ (packet p ∷ [])) (ap (leb 256) held ∙ full)))
        λ room.
          ap (window sizes bytes dev.rx_tail)
            (let e : dev.rx_head + 1 - dev.rx_tail ≡ suc n = omega (arith, ok.ordered) in e)
          ∙ window_snoc sizes bytes dev.rx_tail n
          ∙ ap₂ (λ (l : List (ℕ × ℕ)) (x : ℕ × ℕ). l ++ (x ∷ []))
              (window_same dev.rx_sizes sizes dev.rx_data bytes dev.rx_tail n
                λ i le lt. slot_other i (apart i le (omega (arith, lt, ok.ordered)) room))
              (ap (slot sizes bytes)
                  (let e : dev.rx_tail + n ≡ dev.rx_head = omega (arith, ok.ordered) in e)
                ∙ slot_new)
          ∙ sym (if_no (leb 256 (length q)) q (q ++ (packet p ∷ [])) (ap (leb 256) held ∙ room))
    where
      apart :
          (i : ℕ)
          → dev.rx_tail ≤ i
          → i < dev.rx_head
          → leb 256 (dev.rx_head - dev.rx_tail) ≡ false
          → i % 256 ≢ dev.rx_head % 256
      apart i le lt room e = ground (arith, le, lt, room, e)

  -- A packet from the library is pushed on a queue of at most 256 packets, cut to 2048 bytes, or
  -- dropped when the queue is full, as long as its counter stays below 2 ^ 31.
  pub send_refines :
      IsRing dev
      → dev.rx_head + 1 < 2 ^ 31
      → contents (slirp_send_packet dev p) ≡ push (contents dev) (packet p)
  send_refines ok small = ap contents (small_send ok small) ∙ plain_send_refines ok

  pub send-IsRing : IsRing dev → dev.rx_head + 1 < 2 ^ 31 → IsRing (slirp_send_packet dev p)
  unfolding plain_send
  send-IsRing ok small = subst IsRing (sym (small_send ok small)) (
      if_split IsRing (leb 256 (dev.rx_head - dev.rx_tail)) (λ full. ok)
        λ room. record {
          ordered = omega (arith, ok.ordered);
          within = ground (arith, ok.ordered, ok.within, room);
        })
