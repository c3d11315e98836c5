-- ===== src/Word/Bits/Shift.antt =====
-- Bits of shifts, remainders and complements.
use native.Mathlib.Nat.{
  pow-suc, pow-zero, div-div-eq-div-mul, mul_assoc, mod-eq_of_lt, div-eq_of_lt,
}
use native.Mathlib.Nat.{add-mul-mod_self_right, div-add-mod', mod-lt}
use pglinux.Base.{ℕ, zero, suc, ◌+◌, ◌-◌, ◌*◌, ◌/◌, ◌%◌, ◌^◌, ◌<◌}
use pglinux.Base.{◌≡◌, sym, ap, ◌∙◌, arith, ltb, lt→ltb, if◌then◌else◌}
use pglinux.Word.Bits.{bit, bit-suc}

pub pow-add : (n j k : ℕ) → n ^ (j + k) ≡ n ^ j * n ^ k
pow-add n j zero = let e : j + 0 ≡ j = omega arith in rw (e, pow-zero) (omega arith)
pow-add n j (suc k) =
    ap (λ (t : ℕ). n ^ t) (let e : j + suc k ≡ suc (j + k) = omega arith in e)
    ∙ pow-suc n (j + k)
    ∙ ap (λ (t : ℕ). t * n) (pow-add n j k)
    ∙ mul_assoc (n ^ j) (n ^ k) n
    ∙ ap (λ (t : ℕ). n ^ j * t) (sym (pow-suc n k))

pub bit-zero : (k : ℕ) → bit k 0 ≡ 0
bit-zero k = omega arith

pub bit_of_lt : (k x : ℕ) → x < 2 ^ k → bit k x ≡ 0
bit_of_lt k x h = omega (arith, div-eq_of_lt h)

pub bit-shr : (k j x : ℕ) → bit k (x / 2 ^ j) ≡ bit (j + k) x
bit-shr k j x = rw (div-div-eq-div-mul, ← pow-add 2 j k)

half-shl : (x p : ℕ) → x * (p * 2) / 2 ≡ x * p
half-shl x p = omega arith

pub bit-shl : (k j x : ℕ) → bit k (x * 2 ^ j) ≡ (if ltb k j then 0 else bit (k - j) x)
bit-shl k zero x = ground (
  arith,
  ap (λ (t : ℕ). bit t x) (let e : k - 0 ≡ k = omega arith in e),
  ap (bit k) (let e : x * 1 ≡ x = omega arith in e),
)
bit-shl zero (suc j) x = rw (lt→ltb 0 (suc j) (omega arith), pow-suc 2 j) (omega arith)
bit-shl (suc k) (suc j) x =
    rw (bit-suc k (x * 2 ^ suc j), pow-suc 2 j, half-shl, bit-shl k j x) (ground arith)

half-mod : (x p : ℕ) → x % (p * 2) / 2 ≡ x / 2 % p
half-mod x zero = omega arith
half-mod x (suc p) = sym (
    ap (λ (t : ℕ). t % suc p) split
    ∙ add-mul-mod_self_right (r / 2) (x / (suc p * 2)) (suc p)
    ∙ mod-eq_of_lt small)
  where
    r : ℕ
    r = x % (suc p * 2)

    small : r / 2 < suc p
    small = omega arith

    split : x / 2 ≡ r / 2 + x / (suc p * 2) * suc p
    split = omega (arith, div-add-mod' x (suc p * 2))

low-mod : (x p : ℕ) → x % (p * 2) % 2 ≡ x % 2
low-mod x zero = omega arith
low-mod x (suc p) = omega (arith, div-add-mod' x (suc p * 2))

pub bit-mod : (k n x : ℕ) → bit k (x % 2 ^ n) ≡ (if ltb k n then bit k x else 0)
bit-mod k zero x = ground (arith, ap (bit k) (let e : x % 1 ≡ 0 = omega arith in e), bit-zero k)
bit-mod zero (suc n) x = rw (pow-suc 2 n) (ground (arith, low-mod x (2 ^ n)))
bit-mod (suc k) (suc n) x =
    rw (bit-suc k (x % 2 ^ suc n), pow-suc 2 n, half-mod, bit-mod k n (x / 2), bit-suc k x)
      (ground arith)

-- The complement flips each bit of the width.
pub bit-not : (k n m : ℕ) → m < 2 ^ n → k < n → bit k (2 ^ n - 1 - m) ≡ 1 - bit k m
bit-not k zero m h g = absurd (omega arith)
bit-not zero (suc n) m h g = omega (arith, pow-suc 2 n)
bit-not (suc k) (suc n) m h g =
    rw
      (
        bit-suc k (2 ^ suc n - 1 - m),
        bit-suc k m,
        ← bit-not k n (m / 2) (omega (arith, pow-suc 2 n)) (omega arith),
      )
      (ap (bit k) (omega (arith, pow-suc 2 n)))

-- A remainder by a product, by its low digit and the rest.
pub mod-mul-split : (x a b : ℕ) → 0 < a → 0 < b → x % (a * b) ≡ x % a + x / a % b * a
mod-mul-split x a b h g =
    ap (λ (t : ℕ). t % (a * b)) parts
    ∙ add-mul-mod_self_right (x % a + x / a % b * a) (x / a / b) (a * b)
    ∙ mod-eq_of_lt small
  where
    parts : x ≡ x % a + x / a % b * a + x / a / b * (a * b)
    parts = omega (arith, div-add-mod' x a, ap (λ (t : ℕ). t * a) (div-add-mod' (x / a) b))

    small : x % a + x / a % b * a < a * b
    small = grind (arith, mod-lt x h, mod-lt (x / a) g)
