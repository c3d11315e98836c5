-- ===== src/Find/Going.antt =====
-- extension/rv64_pgext.c: what holds at each turn of the loop of vm_find.
use mathlib.Core.Bool.{true≢false}
use pglinux.Base.{
  ℕ, zero, suc, ◌+◌, ◌-◌, ◌*◌, ◌<◌, ◌≤◌, ◌≡◌, sym, ap, ◌∙◌, Bool, true, false, ◌==◌, ltb,
  Bool-cases, inl, inr, ==→eq, arith,
}
use pglinux.Word.{u8}
use pglinux.Mem.{Loaded, value, trapped}

-- Is the loaded byte `b`?
unfoldable pub is_byte : Loaded → ℕ → Bool
is_byte (trapped exc) b = false
is_byte (value val) b = u8 val == b

-- The pattern stands at offset `s` of the memory that `reads` gives.
unfoldable pub Occurs : (ℕ → Loaded) → (ℕ → ℕ) → ℕ → ℕ → Type 0
Occurs reads pat pat_len s = (j : ℕ) → j < pat_len → is_byte (reads (s + j)) (pat j) ≡ true

-- Where a byte of a candidate differs, there is no occurrence at it.
differs :
    (reads : ℕ → Loaded) (pat : ℕ → ℕ) (pat_len s i m : ℕ)
    → i ≡ s + m
    → m < pat_len
    → is_byte (reads i) (pat m) ≡ false
    → ¬ Occurs reads pat pat_len s
unfolding Occurs
differs reads pat pat_len s i m at lt e all =
    true≢false (sym (all m lt) ∙ ap (λ (t : ℕ). is_byte (reads t) (pat m)) (sym at) ∙ e)

-- A candidate that is given up pays for the next one.
less_fuel :
    (a b k p fuel m : ℕ) → k ≡ a + suc b → m < p → k * p + 1 ≤ suc fuel + m → a * p + 1 ≤ fuel
less_fuel a b k p fuel m e lt h = omega (arith, lt, h, ap (λ (t : ℕ). t * p) e, split)
  where
    split : (a + suc b) * p ≡ a * p + (p + b * p)
    split = omega arith

-- Some fuel is left.
pub some_fuel : (k p m : ℕ) → m ≤ k → m < p → ¬ (k * p + 1 ≤ zero + m)
some_fuel zero p m le lt h = omega (arith, le, h)
some_fuel (suc k) p m le lt h = omega (arith, lt, h, split)
  where
    split : suc k * p ≡ p + k * p
    split = omega arith

module _ (reads : ℕ → Loaded) (pat : ℕ → ℕ) (pat_len length : ℕ) where
  -- The loop stands at byte `m` of the candidate at `s`, with `k` candidates to go; the bytes before
  -- it match, and no earlier candidate does.
  pub record Going (fuel k s i m : ℕ) : Type 0 where
    pub at : i ≡ s + m
    pub left : s + k ≡ length
    pub in_range : m ≤ k
    pub partial : m < pat_len
    pub enough : k * pat_len + 1 ≤ fuel + m
    pub matched : (j : ℕ) → j < m → is_byte (reads (s + j)) (pat j) ≡ true
    pub before : (t : ℕ) → t < s → ¬ Occurs reads pat pat_len t

  module _ (fuel k s i m : ℕ) (g : Going (suc fuel) k s i m) (lt : i < length) where
    -- The candidate is given up for the next one.
    pub Going-mismatch :
        is_byte (reads i) (pat m) ≡ false → Going fuel (k - 1) (s + 1) (i - m + 1) 0
    Going-mismatch e = record {
      at = omega (arith, g.at);
      left = omega (arith, g.left, g.at, lt);
      in_range = omega arith;
      partial = omega (arith, g.partial);
      enough = omega (
        arith,
        less_fuel (k - 1) 0 k pat_len fuel m (omega (arith, g.left, g.at, lt)) g.partial g.enough,
      );
      matched = λ j none. absurd (omega (arith, none));
      before = λ t le all. elim (Bool-cases (t == s)) [
        | inl same ↦ differs reads pat pat_len t i m (ground (arith, same, g.at)) g.partial e all
        | inr other ↦ g.before t (ground (arith, le, other)) all
      ];
    }

    -- A byte that cannot be read is in every candidate up to it.
    pub Going-trapped :
        ((b : ℕ) → is_byte (reads i) b ≡ false) → Going fuel (k - suc m) (i + 1) (i + 1) 0
    Going-trapped e = record {
      at = omega arith;
      left = omega (arith, g.left, g.at, lt);
      in_range = omega arith;
      partial = omega (arith, g.partial);
      enough = omega (
        arith,
        less_fuel (k - suc m) m k pat_len fuel m (omega (arith, g.left, g.at, lt)) g.partial
            g.enough,
      );
      matched = λ j none. absurd (omega (arith, none));
      before = λ t le all. elim (Bool-cases (ltb t s)) [
        | inl old ↦ g.before t (ground (arith, old)) all
        | inr new ↦
            differs reads pat pat_len t i (i - t) (omega (arith, le))
              (ground (arith, new, le, g.at, g.partial)) (e (pat (i - t))) all
      ];
    }

    -- One byte more matches.
    pub all_matched :
        is_byte (reads i) (pat m) ≡ true
        → (j : ℕ) → j < m + 1
        → is_byte (reads (s + j)) (pat j) ≡ true
    all_matched e j le = elim (Bool-cases (j == m)) [
      | inl same ↦
          ap (λ (t : ℕ). is_byte (reads (s + t)) (pat t)) (==→eq j m same)
          ∙ ap (λ (t : ℕ). is_byte (reads t) (pat m)) (sym g.at)
          ∙ e
      | inr other ↦ g.matched j (ground (arith, le, other))
    ]

    pub Going-matched :
        is_byte (reads i) (pat m) ≡ true → m + 1 < pat_len → Going fuel k s (i + 1) (m + 1)
    Going-matched e more = record {
      at = omega (arith, g.at);
      left = g.left;
      in_range = omega (arith, g.left, g.at, lt);
      partial = more;
      enough = omega (arith, g.enough);
      matched = all_matched e;
      before = g.before;
    }
