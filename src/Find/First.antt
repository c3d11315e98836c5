-- ===== src/Find/First.antt =====
-- extension/rv64_pgext.c: vm_find returns the first occurrence of the pattern.
use pglinux.Base.{
  ℕ, zero, suc, ◌+◌, ◌-◌, ◌*◌, ◌^◌, ◌<◌, ◌≤◌, ◌≡◌, sym, ap, ◌∙◌, subst, true, ◌||◌, Option, none,
  some, ◌==◌, ltb, Bool-cases, inl, inr, ==→eq, arith,
}
use pglinux.Word.{u8, u64}
use pglinux.Ram.{Memory}
use pglinux.Virtio.{VirtioDev}
use pglinux.Cpu.{Cpu, Access}
use pglinux.Mem.{Loaded, value, trapped, cpu_load}
use pglinux.Find.{found_addr, next_at, find_turn, find_loop, vm_find}
use pglinux.Find.Going.{
  Going, some_fuel, Going-mismatch, Going-trapped, Going-matched, all_matched, is_byte, Occurs,
}

-- The result is the address of the first occurrence among `length` bytes, or NULL if there is none.
pub data IsFirst (reads : ℕ → Loaded) (pat : ℕ → ℕ) (pat_len start length : ℕ)
    : Option ℕ → Type 0 where
  first :
      (s : ℕ)
      → s + pat_len ≤ length
      → Occurs reads pat pat_len s
      → ((t : ℕ) → t < s → ¬ Occurs reads pat pat_len t)
      → IsFirst reads pat pat_len start length (some (u64 (start + s)))
  absent :
      ((t : ℕ) → t + pat_len ≤ length → ¬ Occurs reads pat pat_len t)
      → IsFirst reads pat pat_len start length none

-- The search ended, with such a result.
pub data Finds (reads : ℕ → Loaded) (pat : ℕ → ℕ) (pat_len start length : ℕ)
    : Option (Option ℕ × Cpu) → Type 0 where
  ended :
      (r : Option ℕ) (c : Cpu)
      → IsFirst reads pat pat_len start length r
      → Finds reads pat pat_len start length (some (r, c))

module _ (reads : ℕ → Loaded) (pat : ℕ → ℕ) (pat_len length : ℕ) where
  module _ (start : ℕ) (short : length < 2 ^ 31)
      (net_process : VirtioDev → ℕ → Memory → ℕ → VirtioDev × Memory) (IsGood : Cpu → Type 0)
      (steady : (c : Cpu) (i : ℕ)
        → IsGood c
        → i < length
        → ((cpu_load net_process c (u64 (start + i)) 1 Access.read).0 ≡ reads i)
          × IsGood (cpu_load net_process c (u64 (start + i)) 1 Access.read).1) where
    found_addr-Finds :
        (fuel k s i m : ℕ) (c : Cpu)
        → Going reads pat pat_len length (suc fuel) k s i m
        → i < length
        → is_byte (reads i) (pat m) ≡ true
        → m + 1 ≡ pat_len
        → Finds reads pat pat_len start length
            (some (some (u64 (start + i + (2 ^ 64 - pat_len) + 1)), c))
    unfolding Occurs
    found_addr-Finds fuel k s i m c g lt e last =
        subst (λ (a : ℕ). Finds reads pat pat_len start length (some (some a, c)))
          (let same : u64 (start + s) ≡ u64 (start + i + (2 ^ 64 - pat_len) + 1) =
              omega (arith, g.at, last, lt, short) in
            same)
          (ended _ c (
            first s (omega (arith, g.at, last, lt))
              (λ j le.
                all_matched reads pat pat_len length fuel k s i m g lt e j
                  (omega (arith, le, last)))
              g.before))

    find_turn-Finds :
        (fuel k s i m : ℕ)
        → ((k s i m : ℕ) (c : Cpu)
            → IsGood c
            → Going reads pat pat_len length fuel k s i m
            → Finds reads pat pat_len start length
                (find_loop net_process fuel pat pat_len start length c i m))
        → Going reads pat pat_len length (suc fuel) k s i m
        → i < length
        → (got : Loaded) (d : Cpu) → got ≡ reads i
        → IsGood d
        → Finds reads pat pat_len start length (elim (find_turn pat pat_len start got i m) [
          | found_addr a ↦ some (some a, d)
          | next_at j n ↦ find_loop net_process fuel pat pat_len start length d j n
        ])
    unfolding find_turn is_byte
    find_turn-Finds fuel k s i m rest g lt (trapped exc) d e ok =
        rest (k - suc m) (i + 1) (i + 1) 0 d ok (
          Going-trapped reads pat pat_len length fuel k s i m g lt
            λ b. ap (λ (l : Loaded). is_byte l b) (sym e))
    find_turn-Finds fuel k s i m rest g lt (value val) d e ok =
        let hit : is_byte (reads i) (pat m) ≡ (u8 val == pat m) =
          ap (λ (l : Loaded). is_byte l (pat m)) (sym e) in
        elim (Bool-cases (u8 val == pat m)) [
          | inr wrong ↦ rw (wrong) (
              rest (k - 1) (s + 1) (i - m + 1) 0 d ok
                (Going-mismatch reads pat pat_len length fuel k s i m g lt (hit ∙ wrong)))
          | inl right ↦ elim (Bool-cases (m + 1 == pat_len)) [
            | inl last ↦
                rw (right, last)
                  (found_addr-Finds fuel k s i m d g lt (hit ∙ right) (==→eq (m + 1) pat_len last))
            | inr more ↦
                rw (right, more)
                  (rest k s (i + 1) (m + 1) d ok (
                    Going-matched reads pat pat_len length fuel k s i m g lt (hit ∙ right)
                      (ground (arith, more, g.partial))))
          ]
        ]

    find_loop-Finds :
        (fuel k s i m : ℕ) (c : Cpu)
        → IsGood c
        → Going reads pat pat_len length fuel k s i m
        → Finds reads pat pat_len start length
            (find_loop net_process fuel pat pat_len start length c i m)
    unfolding find_loop
    find_loop-Finds zero k s i m c good g =
        absurd (some_fuel k pat_len m g.in_range g.partial g.enough)
    find_loop-Finds (suc fuel) k s i m c good g = elim (Bool-cases (ltb i length)) [
      | inr stop ↦
          rw (find_loop, stop)
            (ended none c (
              absent
                λ t le. g.before t (ground (arith, stop, le, g.at, g.left, g.in_range, g.partial))))
      | inl go ↦
          let lt : i < length = ground (arith, go) in
          let load = cpu_load net_process c (u64 (start + i)) 1 Access.read in
          rw (find_loop, go)
            (find_turn-Finds fuel k s i m (find_loop-Finds fuel) g lt load.0 load.1
              (steady c i good lt).0 (steady c i good lt).1)
    ]

    -- With fuel for `length * pat_len` turns and one more vm_find ends, with the first occurrence of a
    -- pattern that is not empty among the `length` bytes from `start` on or with NULL if there is none,
    -- where loads of these bytes always give `reads` and `length` is below 2 ^ 31. A byte whose load
    -- traps is in no occurrence.
    pub vm_find-Finds :
        (fuel : ℕ) (c : Cpu)
        → IsGood c
        → 0 < pat_len
        → length * pat_len < fuel
        → Finds reads pat pat_len start length (vm_find net_process fuel pat pat_len start length c)
    unfolding vm_find
    vm_find-Finds fuel c good some_pat enough =
        elim (Bool-cases (pat_len == 0 || ltb length pat_len)) [
          | inl none_fits ↦
              rw (vm_find, none_fits)
                (ended none c (absent λ t le. absurd (ground (arith, none_fits, some_pat, le))))
          | inr fits ↦
              rw (vm_find, fits)
                (find_loop-Finds fuel length 0 0 0 c good (record {
                  at = omega arith;
                  left = omega arith;
                  in_range = omega arith;
                  partial = some_pat;
                  enough = omega (arith, enough);
                  matched = λ j none. absurd (omega (arith, none));
                  before = λ t none. absurd (omega (arith, none));
                }))
        ]
