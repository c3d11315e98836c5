-- ===== src/Find.antt =====
-- extension/rv64_pgext.c: the search of the guest's memory by vm_find, after the checks that the worker
-- is ready. A negative length returns NULL like a length below that of the pattern.
pub mod Going
pub mod First
use pglinux.Base.{
  ℕ, zero, suc, ◌+◌, ◌-◌, ◌^◌, Bool, true, false, ◌||◌, Option, none, some, ◌==◌, ltb,
  if◌then◌else◌,
}
use pglinux.Word.{u8, u64}
use pglinux.Ram.{Memory}
use pglinux.Virtio.{VirtioDev}
use pglinux.Cpu.{Cpu, Access}
use pglinux.Mem.{Loaded, value, trapped, cpu_load}

-- What a turn of the loop leaves: the address of the match, or the next `i` and `match_pos`.
pub data Turn : Type 0 where
  found_addr : ℕ → Turn
  next_at : ℕ → ℕ → Turn

module _ (pat : ℕ → ℕ) (pat_len start : ℕ) where
  -- A turn with the loaded byte. `i -= match_pos` goes back to the start of the partial match, and the
  -- loop's `i++` follows.
  unfoldable pub find_turn : Loaded → ℕ → ℕ → Turn
  find_turn (trapped exc) i match_pos = next_at (i + 1) 0
  find_turn (value val) i match_pos =
      if u8 val == pat match_pos
      then if match_pos + 1 == pat_len
        then found_addr (u64 (start + i + (2 ^ 64 - pat_len) + 1))
        else next_at (i + 1) (match_pos + 1)
      else next_at (i - match_pos + 1) 0

module _ (net_process : VirtioDev → ℕ → Memory → ℕ → VirtioDev × Memory) where
  -- The loop on fuel: `none` where it does not suffice, else the address or NULL.
  unfoldable pub find_loop : ℕ → (ℕ → ℕ) → ℕ → ℕ → ℕ → Cpu → ℕ → ℕ → Option (Option ℕ × Cpu)
  find_loop zero pat pat_len start length c i match_pos = none
  find_loop (suc fuel) pat pat_len start length c i match_pos =
      let (got, c1) = cpu_load net_process c (u64 (start + i)) 1 Access.read in
      elim (ltb i length) [
        | false ↦ some (none, c)
        | true ↦ elim (find_turn pat pat_len start got i match_pos) [
          | found_addr a ↦ some (some a, c1)
          | next_at j m ↦ find_loop fuel pat pat_len start length c1 j m
        ]
      ]

  unfoldable pub vm_find : ℕ → (ℕ → ℕ) → ℕ → ℕ → ℕ → Cpu → Option (Option ℕ × Cpu)
  vm_find fuel pat pat_len start length c = elim (pat_len == 0 || ltb length pat_len) [
    | true ↦ some (none, c)
    | false ↦ find_loop fuel pat pat_len start length c 0 0
  ]
