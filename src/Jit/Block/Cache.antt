-- ===== src/Jit/Block/Cache.antt =====
-- extension/rv64_sljit.c: the cache of blocks under `jit_exec`.
use mathlib.Core.Bool.{false≢true}
use pglinux.Base.{
  ℕ, ◌+◌, ◌≡◌, ◌⊎◌, inl, inr, refl, Bool, true, not, ◌&&◌, ◌||◌, Option, none, some, List, ◌==◌,
  if_both, if_split, arith,
}
use pglinux.Word.{u64}
use pglinux.Ram.{Memory}
use pglinux.Virtio.{VirtioDev}
use pglinux.Cpu.{Cpu}
use pglinux.Exec.{FpResult}
use pglinux.Jit.Calls.{Call}
use pglinux.Jit.Engine.{Sljit, Host}
use pglinux.Jit.Block.{
  JitBlock, JitState, compile_body, max_insns, block_calls, cache_index, put_block,
  jit_compile_block, run_block, exec_found, lookup_block, jit_exec, jit_flush,
}

module _ (net_process : VirtioDev → ℕ → Memory → ℕ → VirtioDev × Memory) where
  -- The block has no code, or that which the loop emitted at its pc in some machine, under some settings.
  pub data IsBuilt (b : JitBlock) : Type 0 where
    without_code : b.host_code ≡ none → IsBuilt b
    with_code :
        (jit : JitState) (built : Cpu)
        → b.host_code
          ≡ some (
              block_calls net_process jit
                (compile_body net_process jit (max_insns net_process jit) built b.guest_pc 0).calls)
        → IsBuilt b

  -- Every block that may be run was built for its pc.
  abbrev pub IsCache : JitState → Type 0
  IsCache jit = (i : ℕ) → (jit.cache i).valid ≡ true → IsBuilt (jit.cache i)

  put_block-IsCache :
      (jit : JitState) (b : JitBlock)
      → IsBuilt b
      → IsCache jit
      → IsCache (put_block net_process jit b)
  put_block-IsCache jit b built kept i =
      if_both (λ (c : JitBlock). c.valid ≡ true → IsBuilt c)
        (i == cache_index net_process jit b.guest_pc) (λ valid. built) (kept i)

  module _ (jit : JitState) (kept : IsCache jit) where
    -- What is found for a pc is built for it.
    data Found (pc : ℕ) : Option (JitBlock × JitState) → Type 0 where
      no_block : Found pc none
      a_block :
          {b : JitBlock} {next : JitState}
          → IsBuilt b
          → b.guest_pc ≡ pc
          → IsCache next
          → Found pc (some (b, next))

    jit_compile_block-Found :
        (created : Bool) (generated : List Call → Bool) (c : Cpu) (pc : ℕ)
        → Found pc (jit_compile_block net_process jit created generated c pc).0
    unfolding jit_compile_block
    jit_compile_block-Found created generated c pc =
        let body = compile_body net_process jit (max_insns net_process jit) c pc 0 in
        let code = block_calls net_process jit body.calls in
        let P = λ (r : Option (JitBlock × JitState) × Cpu). Found pc r.0 in
        let empty : JitBlock = record {
          guest_pc = pc;
          host_code = none;
          insn_count = 0;
          valid = true;
        } in
        let full : JitBlock = record {
          guest_pc = pc;
          host_code = some code;
          insn_count = body.insn_count;
          valid = true;
        } in
        let none_built : IsBuilt empty = IsBuilt.without_code refl in
        let some_built : IsBuilt full = IsBuilt.with_code jit c refl in
        if_both P (not created) Found.no_block (
          if_both P (body.refused && body.insn_count == 0)
            (Found.a_block none_built refl (put_block-IsCache jit empty none_built kept))
            (if_both P (not (generated code)) Found.no_block
              (Found.a_block some_built refl (put_block-IsCache jit full some_built kept))))

    module _ (fp_exec : Cpu → ℕ → FpResult × Cpu) (s : Sljit) (start : Cpu → Host) (created : Bool)
        (generated : List Call → Bool) (c : Cpu) where
      abbrev pub looked_up : Option (JitBlock × JitState) × Cpu
      looked_up = lookup_block net_process jit fp_exec s start created generated c

      lookup_block-Found : Found c.pc looked_up.0
      unfolding lookup_block
      lookup_block-Found =
          let b = jit.cache (cache_index net_process jit c.pc) in
          if_split (λ (r : Option (JitBlock × JitState) × Cpu). Found c.pc r.0)
            (not b.valid || not (b.guest_pc == c.pc))
            (λ miss. jit_compile_block-Found created generated c c.pc)
            λ hit.
              Found.a_block (kept (cache_index net_process jit c.pc) (ground (arith, hit)))
                (ground (arith, hit)) kept

      -- The call has run nothing, or the code that was built for the pc of the machine.
      pub data RunsBuilt (r : ℕ × JitState × Cpu) : Type 0 where
        nothing_run : r.0 ≡ 0 → (r.2 ≡ c) ⊎ (r.2 ≡ looked_up.1) → RunsBuilt r
        block_run :
            (settings : JitState) (built d : Cpu)
            → run_block net_process jit fp_exec s start
                (block_calls net_process jit
                  (compile_body net_process settings
                    (max_insns net_process settings)
                    built
                    c.pc
                    0).calls)
                looked_up.1
              ≡ (r.0, d)
            → r.2 ≡ record d { instret = u64 (d.instret + r.0) }
            → RunsBuilt r

      abbrev Right : ℕ × JitState × Cpu → Type 0
      Right r = IsCache r.1 × RunsBuilt r

      exec_found-Right :
          (found : Option (JitBlock × JitState))
          → Found c.pc found
          → Right (exec_found net_process jit fp_exec s start found looked_up.1)
      unfolding exec_found
      exec_found-Right none no_block = (kept, nothing_run refl (inr refl))
      exec_found-Right (some (b, next)) (a_block (without_code e) pc good) =
          rw (e) (good, nothing_run refl (inr refl))
      exec_found-Right (some (b, next)) (a_block (with_code settings built e) pc good) =
          rw (e, pc) (good, block_run settings built _ refl refl)

      abbrev pub result : ℕ × JitState × Cpu
      result = jit_exec net_process jit fp_exec s start created generated c

      -- With a cache of blocks that were built for their pc, the call runs nothing, or a block that was
      -- built for the pc of the machine and counts its instructions, and leaves such a cache.
      pub jit_exec-IsCache : IsCache result.1 × RunsBuilt result
      unfolding jit_exec
      jit_exec-IsCache =
          if_both Right (not jit.enabled) (kept, nothing_run refl (inl refl))
            (exec_found-Right looked_up.0 lookup_block-Found)

  -- A flush leaves no block.
  pub jit_flush-IsCache : (jit : JitState) → IsCache (jit_flush jit)
  unfolding jit_flush
  jit_flush-IsCache jit i valid = absurd (false≢true valid)
