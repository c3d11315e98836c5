-- ===== src/Ram/Laws.antt =====
-- Reads and writes of the host memory.
use native.Mathlib.Nat.{pow-suc, mul_comm, one-le-pow}
use pglinux.Base.{
  ℕ, zero, suc, ◌+◌, ◌/◌, ◌%◌, ◌^◌, ◌≤◌, ◌<◌, ◌≡◌, refl, ap, ◌∙◌, ◌⊎◌, inl, arith, update,
}
use pglinux.Word.Bits.Shift.{mod-mul-split}
use pglinux.Ram.{Memory, read_bytes, write_bytes}

-- Every byte of the memory is a byte.
abbrev pub IsBytes : Memory → Type 0
IsBytes m = (i : ℕ) → m i < 256

-- A write changes no byte outside its range.
pub write_bytes_outside :
    (n : ℕ) (m : Memory) (offset val j : ℕ)
    → (j < offset) ⊎ (offset + n ≤ j)
    → write_bytes n m offset val j ≡ m j
unfolding write_bytes
write_bytes_outside zero m offset val j h = refl
write_bytes_outside (suc n) m offset val j h =
    write_bytes_outside n (update m offset (val % 256)) (offset + 1) (val / 256) j (omega arith)
    ∙ ground arith

write_bytes_first :
    (n : ℕ) (m : Memory) (offset val : ℕ) → write_bytes (suc n) m offset val offset ≡ val % 256
unfolding write_bytes
write_bytes_first n m offset val =
    write_bytes_outside n (update m offset (val % 256)) (offset + 1) (val / 256) offset
      (inl (omega arith))
    ∙ ground arith

-- What was written is read back, cut to the size of the access.
pub read_bytes-write_bytes :
    (n : ℕ) (m : Memory) (offset val : ℕ)
    → read_bytes n (write_bytes n m offset val) offset ≡ val % 256 ^ n
unfolding read_bytes write_bytes
read_bytes-write_bytes zero m offset val = omega arith
read_bytes-write_bytes (suc n) m offset val = omega (
  arith,
  write_bytes_first n m offset val,
  read_bytes-write_bytes n (update m offset (val % 256)) (offset + 1) (val / 256),
  ap (λ (t : ℕ). val % t) (pow-suc 256 n ∙ mul_comm (256 ^ n) 256),
  mod-mul-split val 256 (256 ^ n) (omega arith) (one-le-pow n 256 (omega arith)),
)

-- A read depends only on the bytes of its range.
pub read_bytes_ext :
    (n : ℕ) (m k : Memory) (offset : ℕ)
    → ((j : ℕ) → offset ≤ j → j < offset + n → m j ≡ k j)
    → read_bytes n m offset ≡ read_bytes n k offset
unfolding read_bytes
read_bytes_ext zero m k offset h = refl
read_bytes_ext (suc n) m k offset h = omega (
  arith,
  h offset (omega arith) (omega arith),
  read_bytes_ext n m k (offset + 1) (λ j a b. h j (omega arith) (omega arith)),
)

pub read_bytes-lt : (n : ℕ) (m : Memory) (offset : ℕ) → IsBytes m → read_bytes n m offset < 256 ^ n
unfolding read_bytes
read_bytes-lt zero m offset b = omega arith
read_bytes-lt (suc n) m offset b =
    omega (arith, b offset, pow-suc 256 n, read_bytes-lt n m (offset + 1) b)

pub write_bytes-IsBytes :
    (n : ℕ) (m : Memory) (offset val : ℕ) → IsBytes m → IsBytes (write_bytes n m offset val)
unfolding write_bytes
write_bytes-IsBytes zero m offset val b = b
write_bytes-IsBytes (suc n) m offset val b =
    write_bytes-IsBytes n (update m offset (val % 256)) (offset + 1) (val / 256)
      (λ i. ground (arith, b i))
