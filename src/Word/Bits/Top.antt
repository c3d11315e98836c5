-- ===== src/Word/Bits/Top.antt =====
-- Flipping the top bit of a number.
use native.Mathlib.Nat.{pow-suc}
use Prim.Native.Nat.{bit_xor}
use pglinux.Base.{
  ℕ, zero, suc, ◌+◌, ◌-◌, ◌*◌, ◌/◌, ◌%◌, ◌^◌, ◌<◌, ◌≡◌, refl, ltb, if◌then◌else◌, arith, ap, ◌∙◌,
}
use pglinux.Word.Bits.Digits.{low_xor}

pub xor_top :
    (n v : ℕ) → v < 2 ^ suc n → bit_xor v (2 ^ n) ≡ (if ltb v (2 ^ n) then v + 2 ^ n else v - 2 ^ n)
xor_top zero zero h = refl
xor_top zero (suc zero) h = refl
xor_top zero (suc (suc v)) h = absurd (omega (arith, h))
xor_top (suc n) v h =
    low_xor v (2 ^ suc n)
    ∙ ap (λ (t : ℕ). bit_xor (v / 2) t * 2 + (v % 2 + 2 ^ suc n % 2) % 2) half
    ∙ ap (λ (t : ℕ). t * 2 + (v % 2 + 2 ^ suc n % 2) % 2)
        (xor_top n (v / 2) (omega (arith, h, pow-suc 2 (suc n))))
    ∙ ground (arith, h, pow-suc 2 n, pow-suc 2 (suc n))
  where
    half : 2 ^ suc n / 2 ≡ 2 ^ n
    half = omega (arith, pow-suc 2 n)
