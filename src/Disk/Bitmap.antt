-- ===== src/Disk/Bitmap.antt =====
-- extension/rv64_pgext.c: the bitmap of dirty blocks as a set.
use pglinux.Base.{
  if_yes, if_no, min, ℕ, ◌-◌, ◌*◌, ◌/◌, ◌%◌, ◌^◌, ◌≡◌, ◌≢◌, refl, sym, ap, ◌∙◌, Bool, true, false,
  not, ◌&&◌, ◌||◌, ◌==◌, Bool-cases, inl, inr, ==→eq, ==→ne, update, arith, if◌then◌else◌,
}
use pglinux.Word.{nonzero, ◌&&&◌, ◌|||◌, ◌<<<◌}
use pglinux.Word.Bits.{bit, bit-and, bit-le-one}
use pglinux.Word.Bits.Shift.{bit-not}
use pglinux.Word.Bits.Fields.{and_mask}
use pglinux.Word.Bits.Single.{bit-pow, bit-set, test_bit, pow-strict}
use pglinux.Disk.{dirty_set, dirty_get, dirty_clr}

-- The test of block `a` reads its bit in its byte.
bit_of : (ℕ → ℕ) → ℕ → Bool
bit_of m a = not (bit (a % 8) (m (a / 8)) == 0)

one_bit : (a : ℕ) → (1 <<< (a &&& 7)) ≡ 2 ^ (a % 8)
one_bit a = ap (λ (k : ℕ). 1 * 2 ^ k) (and_mask 3 a) ∙ omega arith

get-bit : (m : ℕ → ℕ) (a : ℕ) → dirty_get m a ≡ bit_of m a
unfolding dirty_get bit_of
get-bit m a =
    ap (λ (t : ℕ). nonzero (m (a / 8) &&& t)) (one_bit a) ∙ ap not (test_bit (a % 8) (m (a / 8)))

same_byte : (a b : ℕ) → b / 8 ≡ a / 8 → (b % 8 == a % 8) ≡ (b == a)
same_byte a b e = ground (arith, e)

other_byte : (a b : ℕ) → b / 8 ≢ a / 8 → (b == a) ≡ false
other_byte a b ne = elim (Bool-cases (b == a)) [
  | inl e ↦ absurd (ne (ap (λ (t : ℕ). t / 8) (==→eq b a e)))
  | inr e ↦ e
]

-- A new byte that holds the bit of block `a`.
byte_replaced :
    (m : ℕ → ℕ) (a v b : ℕ)
    → bit_of (update m (a / 8) v) b
      ≡ (if b / 8 == a / 8 then not (bit (b % 8) v == 0) else bit_of m b)
unfolding bit_of
byte_replaced m a v b = elim (Bool-cases (b / 8 == a / 8)) [
  | inl e ↦ rw (e) refl
  | inr ne ↦ rw (ne) refl
]

set_digit :
    (x a b : ℕ)
    → b / 8 ≡ a / 8
    → not (bit (b % 8) (x ||| (1 <<< (a &&& 7))) == 0) ≡ (b == a || not (bit (b % 8) x == 0))
set_digit x a b h =
    ap (λ (t : ℕ). not (bit (b % 8) (x ||| t) == 0)) (one_bit a)
    ∙ ap (λ (t : ℕ). not (t == 0)) (bit-set (b % 8) (a % 8) x)
    ∙ digit (b % 8 == a % 8)
    ∙ ap (λ (t : Bool). t || not (bit (b % 8) x == 0)) (same_byte a b h)
  where
    digit :
        (t : Bool) → not ((if t then 1 else bit (b % 8) x) == 0) ≡ (t || not (bit (b % 8) x == 0))
    digit true = refl
    digit false = refl

set_bit : (m : ℕ → ℕ) (a b : ℕ) → bit_of (dirty_set m a) b ≡ (b == a || bit_of m b)
unfolding bit_of dirty_set
set_bit m a b = elim (Bool-cases (b / 8 == a / 8)) [
  | inl e ↦
      let h : b / 8 ≡ a / 8 = ==→eq (b / 8) (a / 8) e in
      byte_replaced m a _ b
      ∙ if_yes (b / 8 == a / 8) _ _ e
      ∙ set_digit (m (a / 8)) a b h
      ∙ ap (λ (i : ℕ). b == a || not (bit (b % 8) (m i) == 0)) (sym h)
  | inr ne ↦
      byte_replaced m a _ b
      ∙ if_no (b / 8 == a / 8) _ _ ne
      ∙ ap (λ (t : Bool). t || bit_of m b) (sym (other_byte a b (==→ne (b / 8) (a / 8) ne)))
]

clear_digit :
    (x a b : ℕ)
    → b / 8 ≡ a / 8
    → not (bit (b % 8) (x &&& (2 ^ 8 - 1 - (1 <<< (a &&& 7)))) == 0)
      ≡ (not (b == a) && not (bit (b % 8) x == 0))
clear_digit x a b h =
    ap (λ (t : ℕ). not (bit (b % 8) (x &&& (2 ^ 8 - 1 - t)) == 0)) (one_bit a)
    ∙ ap (λ (t : ℕ). not (t == 0))
        (bit-and (b % 8) x (2 ^ 8 - 1 - 2 ^ (a % 8))
          ∙ ap (min (bit (b % 8) x)) (
              bit-not (b % 8) 8 (2 ^ (a % 8)) (pow-strict (a % 8) 8 (omega arith)) (omega arith)
              ∙ ap (λ (t : ℕ). 1 - t) (bit-pow (b % 8) (a % 8))))
    ∙ digit (b % 8 == a % 8)
    ∙ ap (λ (t : Bool). not t && not (bit (b % 8) x == 0)) (same_byte a b h)
  where
    digit :
        (t : Bool)
        → not (min (bit (b % 8) x) (1 - (if t then 1 else 0)) == 0)
          ≡ (not t && not (bit (b % 8) x == 0))
    digit true = ground (arith, bit-le-one (b % 8) x)
    digit false = ground (arith, bit-le-one (b % 8) x)

clear_bit : (m : ℕ → ℕ) (a b : ℕ) → bit_of (dirty_clr m a) b ≡ (not (b == a) && bit_of m b)
unfolding bit_of dirty_clr
clear_bit m a b = elim (Bool-cases (b / 8 == a / 8)) [
  | inl e ↦
      let h : b / 8 ≡ a / 8 = ==→eq (b / 8) (a / 8) e in
      byte_replaced m a _ b
      ∙ if_yes (b / 8 == a / 8) _ _ e
      ∙ clear_digit (m (a / 8)) a b h
      ∙ ap (λ (i : ℕ). not (b == a) && not (bit (b % 8) (m i) == 0)) (sym h)
  | inr ne ↦
      byte_replaced m a _ b
      ∙ if_no (b / 8 == a / 8) _ _ ne
      ∙ ap (λ (t : Bool). not t && bit_of m b) (sym (other_byte a b (==→ne (b / 8) (a / 8) ne)))
]

-- The bitmap is a set of blocks.
pub dirty_get-dirty_set :
    (m : ℕ → ℕ) (a b : ℕ) → dirty_get (dirty_set m a) b ≡ (b == a || dirty_get m b)
dirty_get-dirty_set m a b =
    get-bit (dirty_set m a) b ∙ set_bit m a b ∙ ap (λ (t : Bool). b == a || t) (sym (get-bit m b))

pub dirty_get-dirty_clr :
    (m : ℕ → ℕ) (a b : ℕ) → dirty_get (dirty_clr m a) b ≡ (not (b == a) && dirty_get m b)
dirty_get-dirty_clr m a b =
    get-bit (dirty_clr m a) b
    ∙ clear_bit m a b
    ∙ ap (λ (t : Bool). not (b == a) && t) (sym (get-bit m b))
