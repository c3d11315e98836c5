-- ===== src/Jit/Block/Hart.antt =====
-- extension/rv64_sljit.c: a compilation fetches words, and changes no register of the hart.
use pglinux.Base.{
  ℕ, zero, suc, ◌≡◌, refl, ◌∙◌, Bool, not, ◌&&◌, ◌||◌, Option, List, ◌==◌, ◌+◌, ltb, if◌then◌else◌,
  if_both,
}
use pglinux.Word.{u32, u64}
use pglinux.Ram.{Memory}
use pglinux.Virtio.{VirtioDev}
use pglinux.Cpu.{Cpu, Access}
use pglinux.Cpu.Hart.{hart}
use pglinux.Mem.{cpu_load}
use pglinux.Mem.Keeps.{hart-cpu_load}
use pglinux.Jit.Calls.{Call}
use pglinux.Jit.Block.{
  Body, JitBlock, JitState, compile_word, compile_body, emit_word, unpack, block_calls, max_insns,
  jit_compile_block,
}
use pglinux.Jit.Block.Bounds.{fetched_cases}

word_cpu {ℓ} :
    (P : Cpu → Type ℓ) (jit : JitState) (pc jumps word : ℕ) (c : Cpu) (rest : ℕ → ℕ → Body)
    → P c
    → ((next n : ℕ) → P (rest next n).cpu)
    → P (compile_word jit pc jumps word c rest).cpu
unfolding compile_word
word_cpu P jit pc jumps word c rest p q =
    let Q = λ (b : Body). P b.cpu in
    let em = emit_word jit pc word in
    let n = if em.jumps then jumps + 1 else jumps in
    if_both Q (not em.supported) p
      (if_both Q (em.ended || (em.jumps && ltb 60 n)) p (q (u64 (pc + (unpack word).1)) n))

module _ (net_process : VirtioDev → ℕ → Memory → ℕ → VirtioDev × Memory) (jit : JitState) where
  pub hart-compile_body :
      (turns : ℕ) (c : Cpu) (pc jumps : ℕ)
      → hart (compile_body net_process jit turns c pc jumps).cpu ≡ hart c
  unfolding compile_body
  hart-compile_body zero c pc jumps = refl
  hart-compile_body (suc turns) c pc jumps =
      let r = cpu_load net_process c pc 4 Access.exec in
      let same = hart-cpu_load net_process c pc 4 Access.exec in
      fetched_cases (λ (b : Body). hart b.cpu ≡ hart c) r.0 _ _ same
        λ val.
          word_cpu (λ (d : Cpu). hart d ≡ hart c) jit pc jumps (u32 val) r.1
            (compile_body net_process jit turns r.1) same
            λ next n. hart-compile_body turns r.1 next n ∙ same

  -- A compilation changes no register of the hart, whatever it compiles and whether it succeeds.
  pub hart-jit_compile_block :
      (created : Bool) (generated : List Call → Bool) (c : Cpu) (pc : ℕ)
      → hart (jit_compile_block net_process jit created generated c pc).1 ≡ hart c
  unfolding jit_compile_block
  hart-jit_compile_block created generated c pc =
      let P = λ (r : Option (JitBlock × JitState) × Cpu). hart r.1 ≡ hart c in
      let body = compile_body net_process jit (max_insns net_process jit) c pc 0 in
      let same = hart-compile_body (max_insns net_process jit) c pc 0 in
      if_both P (not created) refl (
        if_both P (body.refused && body.insn_count == 0) same
          (if_both P (not (generated (block_calls net_process jit body.calls))) same same))
