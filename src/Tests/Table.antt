-- ===== src/Tests/Table.antt =====
-- A table of blocks for the runs: a function that is cut at a bound.
use Prim.{tt}
use pglinux.Base.{
  ℕ, zero, suc, ◌+◌, ◌≤◌, ◌≡◌, ◌≢◌, refl, sym, ap, ◌∙◌, true, false, ◌==◌, ltb, max, List, [], ◌∷◌,
  Option, none, some, if_yes, if_no, Bool-cases, inl, inr, ==→eq, update, update_self, update_ne,
  if◌then◌else◌, arith,
}
use pglinux.Disk.{Block, BlockTable, find_last, RowsOf}

abbrev pub FunRows : Type 0
FunRows = (ℕ → Option Block) × ℕ

abbrev pub held : (ℕ → Option Block) → ℕ → ℕ → Option Block
held t n b = if ltb b n then t b else none

abbrev pub put : FunRows → ℕ → Block → FunRows
put r b v = (update (held r.0 r.1) b (some v), max r.1 (b + 1))

abbrev pub find : FunRows → ℕ → Option Block
find r b = held r.0 r.1 b

-- The rows of the numbers below `n`.
pub listing : (ℕ → Option Block) → ℕ → List (ℕ × Block)
listing t zero = []
listing t (suc n) = elim (t n) [ none ↦ listing t n | some v ↦ (n, v) ∷ listing t n ]

pub find-put : (r : FunRows) (b : ℕ) (v : Block) → find (put r b v) b ≡ some v
find-put r b v =
    if_yes (ltb b (max r.1 (b + 1))) _ _ (ground arith) ∙ update_self (held r.0 r.1) b (some v)

pub find-put_ne : (r : FunRows) (b : ℕ) (v : Block) (a : ℕ) → a ≢ b → find (put r b v) a ≡ find r a
find-put_ne r b v a ne = elim (Bool-cases (ltb a (max r.1 (b + 1)))) [
  | inl below ↦
      if_yes (ltb a (max r.1 (b + 1))) _ _ below ∙ update_ne (held r.0 r.1) b (some v) a ne
  | inr above ↦
      if_no (ltb a (max r.1 (b + 1))) _ _ above
      ∙ sym (if_no (ltb a r.1) (r.0 a) none (ground (arith, above)))
]

pub find_listing : (t : ℕ → Option Block) (n b : ℕ) → find_last (listing t n) b ≡ held t n b
unfolding listing find_last
find_listing t zero b = sym (if_no (ltb b 0) (t b) none (ground arith))
find_listing t (suc n) b = row (find_listing t n b) (t n) refl
  where
    grown : (b == n) ≡ false → held t n b ≡ held t (suc n) b
    grown ne = elim (Bool-cases (ltb b n)) [
      | inl lt ↦
          if_yes (ltb b n) (t b) none lt
          ∙ sym (if_yes (ltb b (suc n)) (t b) none (ground (arith, lt)))
      | inr ge ↦
          if_no (ltb b n) (t b) none ge
          ∙ sym (if_no (ltb b (suc n)) (t b) none (ground (arith, ge, ne)))
    ]

    last : (b == n) ≡ true → held t n b ≡ none
    last e = if_no (ltb b n) (t b) none (ground (arith, e))

    newest : (b == n) ≡ true → held t (suc n) b ≡ t n
    newest e = if_yes (ltb b (suc n)) (t b) none (ground (arith, e)) ∙ ap t (==→eq b n e)

    or_row : Option Block → Block → Option Block
    or_row o v = elim o [ some w ↦ some w | none ↦ if b == n then some v else none ]

    or_none : (o : Option Block) (v : Block) → (b == n) ≡ false → or_row o v ≡ o
    or_none none v ne = if_no (b == n) (some v) none ne
    or_none (some w) v ne = refl

    row :
        find_last (listing t n) b ≡ held t n b
        → (o : Option Block) → t n ≡ o
        → find_last (elim o [ none ↦ listing t n | some v ↦ (n, v) ∷ listing t n ]) b
          ≡ held t (suc n) b
    row before none e = before ∙ elim (Bool-cases (b == n)) [
      | inl same ↦ last same ∙ sym e ∙ sym (newest same)
      | inr ne ↦ grown ne
    ]
    row before (some v) e =
        ap (λ (o : Option Block). or_row o v) before ∙ elim (Bool-cases (b == n)) [
          | inl same ↦
              ap (λ (o : Option Block). or_row o v) (last same)
              ∙ if_yes (b == n) (some v) none same
              ∙ sym e
              ∙ sym (newest same)
          | inr ne ↦ or_none (held t n b) v ne ∙ grown ne
        ]

pub only_listing : (t : ℕ → Option Block) (m n : ℕ) → n ≤ m → RowsOf (held t m) (listing t n)
unfolding listing RowsOf
only_listing t m zero le = tt
only_listing t m (suc n) le = row (t n) refl (only_listing t m n (omega (arith, le)))
  where
    row :
        (o : Option Block)
        → t n ≡ o
        → RowsOf (held t m) (listing t n)
        → RowsOf (held t m) (elim o [ none ↦ listing t n | some v ↦ (n, v) ∷ listing t n ])
    row none e r = r
    row (some v) e r = (if_yes (ltb n m) (t n) none (ground (arith, le)) ∙ e, r)

-- The tables of the machines.
abbrev pub VmRows : Type 0
VmRows = ℕ → FunRows

abbrev pub put_vm : VmRows → ℕ → ℕ → Block → VmRows
put_vm r vm b v = update r vm (put (r vm) b v)

abbrev pub rows_fun : BlockTable
rows_fun = record {
  Rows = VmRows;
  upsert = put_vm;
  lookup = (λ r vm. find (r vm));
  lookup_new = (λ r vm b v.
      ap (λ (k : FunRows). find k b) (update_self r vm (put (r vm) b v)) ∙ find-put (r vm) b v);
  lookup_old = (λ r vm b v a ne.
      ap (λ (k : FunRows). find k a) (update_self r vm (put (r vm) b v))
      ∙ find-put_ne (r vm) b v a ne);
  lookup_other = (λ r vm b v other a ne.
      ap (λ (k : FunRows). find k a) (update_ne r vm (put (r vm) b v) other ne));
  select = (λ r vm. listing (r vm).0 (r vm).1);
  select_all = (λ r vm b. find_listing (r vm).0 (r vm).1 b);
  select_only = (λ r vm. only_listing (r vm).0 (r vm).1 (r vm).1 (omega arith));
}
