-- ===== src/Jit/Whole/Cold.antt =====
-- extension/rv64_sljit.c: `jit_exec` at a pc for which the cache has no block.
use mathlib.Core.Bool.{false≢true, true≢false}
use pglinux.Base.{
  ℕ, ◌+◌, ◌^◌, ◌<◌, ◌≡◌, refl, sym, ap, subst, ◌∙◌, Bool, true, false, not, ◌&&◌, ◌||◌, Option,
  List, ◌==◌, if◌then◌else◌, arith,
}
use pglinux.Word.{u64}
use pglinux.Ram.{Memory}
use pglinux.Virtio.{VirtioDev}
use pglinux.Cpu.{Cpu}
use pglinux.Cpu.Hart.{Hart, hart}
use pglinux.Exec.{FpResult}
use pglinux.Jit.Calls.{Call}
use pglinux.Jit.Engine.{Sljit, IsSljit, Host}
use pglinux.Jit.Block.{
  Body, JitBlock, JitState, compile_body, max_insns, block_calls, cache_index, jit_compile_block,
  lookup_block, exec_found, jit_exec, run_block,
}
use pglinux.Jit.Block.Hart.{hart-compile_body}
use pglinux.Jit.Whole.{Insns, body_insns, Interprets, AgreeAlong}
use pglinux.Jit.Whole.Loop.{run_block-Interprets}

if_on {ℓ ℓ'} :
    {A : Type ℓ} (P : A → Type ℓ') (b : Bool) {x : A} (y : A)
    → b ≡ true
    → P x
    → P (if b then x else y)
if_on P true z e p = p
if_on P false z e p = absurd (false≢true e)

if_off {ℓ ℓ'} :
    {A : Type ℓ} (P : A → Type ℓ') (b : Bool) (x : A) {y : A}
    → b ≡ false
    → P y
    → P (if b then x else y)
if_off P true z e p = absurd (true≢false e)
if_off P false z e p = p

module _ (s : Sljit) (law : IsSljit s)
    (net_process : VirtioDev → ℕ → Memory → ℕ → VirtioDev × Memory)
    (fp_exec : Cpu → ℕ → FpResult × Cpu) (jit : JitState) (start : Cpu → Host)
    (generated : List Call → Bool) (c : Cpu) where
  abbrev limit : ℕ
  limit = max_insns net_process jit

  abbrev pub built : Body
  built = compile_body net_process jit limit c c.pc 0

  abbrev pub cold_insns : Insns
  cold_insns = body_insns net_process jit limit c c.pc 0

  abbrev pub code : List Call
  code = block_calls net_process jit built.calls

  abbrev pub ran : ℕ × Cpu
  ran = run_block net_process jit fp_exec s start code built.cpu

  abbrev pub called : ℕ × JitState × Cpu
  called = jit_exec net_process jit fp_exec s start true generated c

  abbrev b : JitBlock
  b = jit.cache (cache_index net_process jit c.pc)

  -- The call compiles the block and runs it.
  jit_exec_cold :
      jit.enabled ≡ true
      → (not b.valid || not (b.guest_pc == c.pc)) ≡ true
      → (built.insn_count == 0) ≡ false
      → generated code ≡ true
      → (called.0 ≡ ran.0) × (called.2 ≡ record ran.1 { instret = u64 (ran.1.instret + ran.0) })
  unfolding jit_exec lookup_block jit_compile_block exec_found
  jit_exec_cold on miss some_insn works =
      let Right = λ (r : ℕ × JitState × Cpu).
        (r.0 ≡ ran.0) × (r.2 ≡ record ran.1 { instret = u64 (ran.1.instret + ran.0) }) in
      let After = λ (l : Option (JitBlock × JitState) × Cpu).
        Right (exec_found net_process jit fp_exec s start l.0 l.1) in
      if_off Right (not jit.enabled) _ (ground (arith, on)) (
        if_on After (not b.valid || not (b.guest_pc == c.pc)) _ miss (
          if_off After (built.refused && built.insn_count == 0) _ (ground (arith, some_insn))
            (if_off After (not (generated code)) _ (ground (arith, works)) (refl, refl))))

  ran-Interprets :
      ((d : Cpu) → (start d).cpu ≡ d)
      → limit < 2 ^ 64
      → built.num_epilogue_jumps < 61
      → AgreeAlong net_process fp_exec cold_insns built.cpu
      → Interprets net_process fp_exec cold_insns built.cpu ran.1 ran.0
  ran-Interprets enters room =
      let same_pc : built.cpu.pc ≡ c.pc =
        ap (λ (r : Hart). r.pc) (hart-compile_body net_process jit limit c c.pc 0) in
      subst
        (λ (p : ℕ).
          let body = compile_body net_process jit limit c p 0 in
          let insns = body_insns net_process jit limit c p 0 in
          let r =
            run_block net_process jit fp_exec s start (block_calls net_process jit body.calls)
              built.cpu in
          body.num_epilogue_jumps < 61
          → AgreeAlong net_process fp_exec insns built.cpu
          → Interprets net_process fp_exec insns built.cpu r.1 r.0)
        same_pc
        (run_block-Interprets s law net_process fp_exec jit start limit c built.cpu room
          (enters built.cpu))

  -- Where the cache has no block for the pc, one with an instruction is compiled and its code
  -- generated, `jit_exec` does what the interpreter does with the instructions from the pc on, and
  -- counts the ones that it completes; the fetches change no register. The JIT is enabled, the entry
  -- leaves the machine alone, the limit is below 2^64, the block has at most 60 jumps to its epilogue,
  -- and the two agree on each instruction.
  pub jit_exec-Interprets :
      jit.enabled ≡ true
      → (not b.valid || not (b.guest_pc == c.pc)) ≡ true
      → (built.insn_count == 0) ≡ false
      → generated code ≡ true
      → ((d : Cpu) → (start d).cpu ≡ d)
      → limit < 2 ^ 64
      → built.num_epilogue_jumps < 61
      → AgreeAlong net_process fp_exec cold_insns built.cpu
      → (hart built.cpu ≡ hart c)
        × Interprets net_process fp_exec cold_insns built.cpu ran.1 called.0
        × (called.2 ≡ record ran.1 { instret = u64 (ran.1.instret + called.0) })
  jit_exec-Interprets on miss some_insn works enters room few agree =
      let r = jit_exec_cold on miss some_insn works in
      (
        hart-compile_body net_process jit limit c c.pc 0,
        subst (Interprets net_process fp_exec cold_insns built.cpu ran.1) (sym r.0)
            (ran-Interprets enters room few agree),
        r.1
            ∙ ap (λ (n : ℕ). let d : Cpu = record ran.1 { instret = u64 (ran.1.instret + n) } in d)
                (sym r.0),
      )
