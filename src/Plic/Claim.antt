-- ===== src/Plic/Claim.antt =====
-- extension/rv64_bus.c: which source a claim returns, and what it changes.
use pglinux.Base.{
  ℕ, zero, suc, ◌+◌, ◌*◌, ◌/◌, ◌%◌, ◌^◌, ◌≤◌, ◌<◌, ◌≡◌, refl, ap, ◌∙◌, inl, inr, arith, Bool-cases,
  true, false, Bool, ◌==◌, update, not, ==→ne, ==→eq,
}
use Prim.Native.Nat.{bit_and}
use pglinux.Word.{nonzero, ◌&&&◌, ◌<<<◌, not32}
use pglinux.Word.Bits.{bit, bit-and, bit-le-one}
use pglinux.Word.Bits.Single.{test_bit}
use pglinux.Plic.{Plic, claim_loop, claim_irq}

-- Source `i` is pending and enabled for the context.
abbrev pub IsRaised : Plic → ℕ → ℕ → Type 0
IsRaised p ctx i =
    (bit (i % 32) (p.pending (i / 32)) ≡ 1) × (bit (i % 32) (p.enable ctx (i / 32)) ≡ 1)

-- The controller after source `i` has been claimed.
abbrev pub taken : Plic → ℕ → ℕ → Plic
taken p ctx i = record p {
  pending = update p.pending (i / 32) (p.pending (i / 32) &&& not32 (1 <<< i % 32));
  claim = update p.claim ctx i;
}

-- The outcome of a claim among the sources from `lo` up to `hi`.
pub data Claims (p : Plic) (ctx lo hi : ℕ) (out : ℕ × Plic) : Type 0 where
  nothing : out ≡ (0, p) → ((j : ℕ) → lo ≤ j → j < hi → ¬ IsRaised p ctx j) → Claims p ctx lo hi out
  lowest :
      (i : ℕ)
      → lo ≤ i
      → i < hi
      → IsRaised p ctx i
      → ((j : ℕ) → lo ≤ j → j < i → ¬ IsRaised p ctx j)
      → out ≡ (i, taken p ctx i)
      → Claims p ctx lo hi out

abbrev raised_test : Plic → ℕ → ℕ → Bool
raised_test p ctx i = nonzero (p.pending (i / 32) &&& p.enable ctx (i / 32) &&& 1 <<< i % 32)

raised_bits : (a b k : ℕ) → (bit_and (bit_and a b) (1 * 2 ^ k) == 0) ≡ (bit k (bit_and a b) == 0)
raised_bits a b k =
    ap (λ (t : ℕ). bit_and (bit_and a b) t == 0) {x = 1 * 2 ^ k} {y = 2 ^ k} (omega arith)
    ∙ test_bit k (bit_and a b)

both_bits :
    (a b k : ℕ)
    → not (bit_and (bit_and a b) (1 * 2 ^ k) == 0) ≡ true
    → (bit k a ≡ 1) × (bit k b ≡ 1)
both_bits a b k h =
    let h' : not (bit k (bit_and a b) == 0) ≡ true = rw (← raised_bits a b k) h in
    ground (arith, bit-and k a b, bit-le-one k a, bit-le-one k b)

not_both :
    (a b k : ℕ)
    → not (bit_and (bit_and a b) (1 * 2 ^ k) == 0) ≡ false
    → (bit k a ≡ 1) × (bit k b ≡ 1)
    → ⊥
not_both a b k h g =
    let h' : not (bit k (bit_and a b) == 0) ≡ false = rw (← raised_bits a b k) h in
    ground (arith, bit-and k a b)

raised_test-true : (p : Plic) (ctx i : ℕ) → raised_test p ctx i ≡ true → IsRaised p ctx i
raised_test-true p ctx i h = both_bits (p.pending (i / 32)) (p.enable ctx (i / 32)) (i % 32) h

raised_test-false : (p : Plic) (ctx i : ℕ) → raised_test p ctx i ≡ false → ¬ IsRaised p ctx i
raised_test-false p ctx i h = not_both (p.pending (i / 32)) (p.enable ctx (i / 32)) (i % 32) h

below : (P : ℕ → Type 0) (lo : ℕ) → ¬ P lo → (j : ℕ) → lo ≤ j → (lo + 1 ≤ j → ¬ P j) → ¬ P j
below P lo h j a k = elim (Bool-cases (j == lo)) [
  | inl same ↦ rw (==→eq j lo same) h
  | inr other ↦ k (omega (arith, ==→ne j lo other))
]

-- One more source that is not raised, below those that were searched.
extend :
    {p : Plic} {ctx lo hi : ℕ} {out : ℕ × Plic}
    → ¬ IsRaised p ctx lo
    → Claims p ctx (lo + 1) hi out
    → Claims p ctx lo hi out
extend {p} {ctx} {lo} low (nothing e h) =
    nothing e (λ j a b. below (IsRaised p ctx) lo low j a (λ c. h j c b))
extend {p} {ctx} {lo} low (lowest i a b r h e) =
    lowest i (omega arith) b r (λ j c d. below (IsRaised p ctx) lo low j c (λ f. h j f d)) e

claim_loop-Claims :
    (left i hi : ℕ) (p : Plic) (ctx : ℕ)
    → i + left ≡ hi
    → Claims p ctx i hi (claim_loop left i p ctx)
unfolding claim_loop
claim_loop-Claims zero i hi p ctx e = nothing refl (λ j a b. absurd (omega arith))
claim_loop-Claims (suc left) i hi p ctx e = elim (Bool-cases (raised_test p ctx i)) [
  | inl yes' ↦
      lowest i (omega arith) (omega arith) (raised_test-true p ctx i yes')
        (λ j a b. absurd (omega arith)) (rw (yes', claim_loop))
  | inr no' ↦
      rw (no', claim_loop)
        (extend (raised_test-false p ctx i no')
          (claim_loop-Claims left (i + 1) hi p ctx (omega arith)))
]

-- A claim returns the lowest-numbered source that is pending and enabled, takes it, and returns 0
-- and changes nothing if there is none.
pub claim_irq-Claims : (p : Plic) (ctx : ℕ) → Claims p ctx 1 64 (claim_irq p ctx)
unfolding claim_irq
claim_irq-Claims p ctx = claim_loop-Claims 63 1 64 p ctx (omega arith)
