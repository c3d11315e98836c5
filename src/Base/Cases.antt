-- ===== src/Base/Cases.antt =====
-- Predicates of a conditional, and of a match on an option, from those of its branches.
use mathlib.Core.Path.{◌≡◌, refl}
use mathlib.Core.Bool.{Bool, true, false}
use mathlib.Core.Option.{Option, none, some}
use pglinux.Base.Tests.{if◌then◌else◌}

pub if_both {ℓ ℓ'} :
    {A : Type ℓ} (P : A → Type ℓ') (b : Bool) {p q : A} → P p → P q → P (if b then p else q)
if_both P true h g = h
if_both P false h g = g

-- The branches under their conditions.
pub if_split {ℓ ℓ'} :
    {A : Type ℓ} (P : A → Type ℓ') (b : Bool) {p q : A}
    → (b ≡ true → P p)
    → (b ≡ false → P q)
    → P (if b then p else q)
if_split P true h g = h refl
if_split P false h g = g refl

pub match_option {ℓ ℓ' ℓ''} :
    {A : Type ℓ} {B : Type ℓ'} (P : B → Type ℓ'') (o : Option A) {n : B} {s : A → B}
    → P n
    → ((v : A) → P (s v))
    → P (elim o [ none ↦ n | some v ↦ s v ])
match_option P none h g = h
match_option P (some v) h g = g v

-- Two conditionals on one test.
pub if_both₂ {ℓ ℓ' ℓ''} :
    {A : Type ℓ} {B : Type ℓ'} (P : A → B → Type ℓ'') (b : Bool) {a a' : A} {d d' : B}
    → P a d
    → P a' d'
    → P (if b then a else a') (if b then d else d')
if_both₂ P true h g = h
if_both₂ P false h g = g

pub if_same : (b : Bool) → (if b then true else false) ≡ b
if_same true = refl
if_same false = refl

-- The branch of a known condition.
pub if_yes {ℓ} : {A : Type ℓ} (b : Bool) (p q : A) → b ≡ true → (if b then p else q) ≡ p
if_yes b p q e = rw (e) refl

pub if_no {ℓ} : {A : Type ℓ} (b : Bool) (p q : A) → b ≡ false → (if b then p else q) ≡ q
if_no b p q e = rw (e) refl

-- The case of a match on a known Boolean.
pub case_true {ℓ} :
    {A : Type ℓ} (b : Bool) (p q : A) → b ≡ true → elim b [ false ↦ p | true ↦ q ] ≡ q
case_true b p q e = rw (e) refl

pub case_false {ℓ} :
    {A : Type ℓ} (b : Bool) (p q : A) → b ≡ false → elim b [ false ↦ p | true ↦ q ] ≡ p
case_false b p q e = rw (e) refl

pub case_both {ℓ ℓ'} :
    {A : Type ℓ} (P : A → Type ℓ') (b : Bool) {p q : A}
    → P p
    → P q
    → P (elim b [ false ↦ p | true ↦ q ])
case_both P true h g = g
case_both P false h g = h
