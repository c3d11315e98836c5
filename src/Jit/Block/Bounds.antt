-- ===== src/Jit/Block/Bounds.antt =====
-- extension/rv64_sljit.c: what the loop of `jit_compile_block` counts.
use pglinux.Base.{ℕ, zero, suc, ◌+◌, ◌<◌, if◌then◌else◌, arith}
use pglinux.Word.{u32, u64}
use pglinux.Ram.{Memory}
use pglinux.Virtio.{VirtioDev}
use pglinux.Cpu.{Cpu, Access}
use pglinux.Mem.{Loaded, value, trapped, cpu_load}
use pglinux.Jit.Block.{Body, JitState, compile_body, compile_word, emit_word, unpack}

-- The jumps to the epilogue fit into the array, and the instructions into the limit.
abbrev pub Fits : ℕ → Body → Type 0
Fits left b = (b.num_epilogue_jumps < 62) × (b.insn_count < left + 1)

-- A turn that fetched a word, or did not.
pub fetched_cases {ℓ} :
    (P : Body → Type ℓ) (got : Loaded) (none_left : Body) (turn : ℕ → Body)
    → P none_left
    → ((v : ℕ) → P (turn v))
    → P (elim got [ trapped e ↦ none_left | value v ↦ turn v ])
fetched_cases P (trapped e) none_left turn p q = p
fetched_cases P (value v) none_left turn p q = q v

module _ (net_process : VirtioDev → ℕ → Memory → ℕ → VirtioDev × Memory) (jit : JitState) where
  compile_word-Fits :
      (left pc jumps word : ℕ) (c : Cpu) (rest : ℕ → ℕ → Body)
      → jumps < 61
      → ((next n : ℕ) → n < 61 → Fits left (rest next n))
      → Fits (suc left) (compile_word jit pc jumps word c rest)
  unfolding compile_word
  compile_word-Fits left pc jumps word c rest h ih =
      let n = if (emit_word jit pc word).jumps then jumps + 1 else jumps in
      ground (arith, h, ih (u64 (pc + (unpack word).1)) n)

  -- A block has at most 61 jumps to the epilogue, for which the array has 64 elements, and no more
  -- instructions than the limit, whatever the memory holds.
  pub compile_body-Fits :
      (left : ℕ) (c : Cpu) (pc jumps : ℕ)
      → jumps < 61
      → Fits left (compile_body net_process jit left c pc jumps)
  unfolding compile_body
  compile_body-Fits zero c pc jumps h = (omega (arith, h), omega arith)
  compile_body-Fits (suc left) c pc jumps h =
      let r = cpu_load net_process c pc 4 Access.exec in
      fetched_cases (Fits (suc left)) r.0 _ _ (omega (arith, h), omega arith)
        λ val.
          compile_word-Fits left pc jumps (u32 val) r.1 (compile_body net_process jit left r.1) h
            λ next n small. compile_body-Fits left r.1 next n small
