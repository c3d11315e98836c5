-- ===== src/Jit/Block.antt =====
-- extension/rv64_sljit.c: `jit_compile_block`, `jit_exec` and the block cache. The library's allocation
-- of the compiler and of the code is a parameter.
pub mod Bounds
pub mod Cache
pub mod Hart
use pglinux.Base.{
  ℕ, zero, suc, ◌+◌, ◌*◌, ◌/◌, ◌%◌, ◌^◌, Bool, true, false, not, ◌&&◌, ◌||◌, Option, none, some,
  List, [], ◌∷◌, ◌++◌, ◌==◌, ltb, if◌then◌else◌, update,
}
use pglinux.Word.{u16, u32, u64, nonzero, ◌&&&◌, ◌<<<◌, ◌>>>◌}
use pglinux.Ram.{Memory}
use pglinux.Virtio.{VirtioDev}
use pglinux.Cpu.{Cpu, Access}
use pglinux.Mem.{Loaded, value, trapped, cpu_load}
use pglinux.Exec.{FpResult}
use pglinux.Decode.{opcode}
use pglinux.Jit.Calls.{Op2, Place, Call, emit_op2, emit_label}
use pglinux.Jit.Emit.{Emitted, mov_to, unsupported, emit_insn}
use pglinux.Jit.Uncompress.{sljit_uncompress}
use pglinux.Jit.Engine.{Sljit, Host, run}

-- struct jit_block. `host_code` is the calls from which the code was generated, or null.
pub record JitBlock : Type 0 where
  pub guest_pc : ℕ
  pub host_code : Option (List Call)
  pub insn_count : ℕ
  pub valid : Bool

-- struct jit_state, with the fields that extension/rv64_sljit.c uses. A limit below 0 counts as 0.
pub record JitState : Type 0 where
  pub cache : ℕ → JitBlock
  pub enabled : Bool
  pub rt_max_block_insns : ℕ
  pub disabled_ops : ℕ → ℕ
  pub stat_jit_insns : ℕ

-- A fetched word as a 32-bit instruction with its length. 0 is one that the JIT does not expand.
unfoldable pub unpack : ℕ → ℕ × ℕ
unpack word = if (word &&& 3) == 3 then (word, 4) else (sljit_uncompress (u16 (word &&& 0xFFFF)), 2)

unfoldable pub is_disabled : JitState → ℕ → Bool
is_disabled jit op = nonzero (jit.disabled_ops (op / 64) &&& (1 <<< (op % 64)))

-- The calls for a word, none where it is not expanded or its opcode is disabled.
unfoldable pub emit_word : JitState → ℕ → ℕ → Emitted
emit_word jit pc word =
    let (insn, len) = unpack word in
    if len == 2 && insn == 0
    then unsupported []
    else if is_disabled jit (opcode insn)
    then unsupported []
    else emit_insn pc insn len

-- The runtime instruction counter.
abbrev pub count_one : Call
count_one = emit_op2 Op2.add Place.count_reg Place.count_reg (Place.imm 1)

-- What the loop has emitted, how many instructions and jumps to the epilogue, whether it stopped at an
-- instruction that is not supported, and the machine after the fetches.
pub record Body : Type 0 where
  pub calls : List Call
  pub insn_count : ℕ
  pub num_epilogue_jumps : ℕ
  pub refused : Bool
  pub cpu : Cpu

-- The loop ends here, with nothing more emitted.
abbrev pub stops : ℕ → Bool → List Call → Cpu → Body
stops jumps refused calls c = record {
  calls = calls;
  insn_count = 0;
  num_epilogue_jumps = jumps;
  refused = refused;
  cpu = c;
}

-- A turn after the fetch of `word`; `rest` are the turns from a pc and a number of jumps on. A block
-- that ends does not set the pc behind its last instruction.
unfoldable pub compile_word : JitState → ℕ → ℕ → ℕ → Cpu → (ℕ → ℕ → Body) → Body
compile_word jit pc jumps word c rest =
    let em = emit_word jit pc word in
    let n = if em.jumps then jumps + 1 else jumps in
    let next_pc = u64 (pc + (unpack word).1) in
    let more = rest next_pc n in
    if not em.supported
    then stops n true em.calls c
    else if em.ended || (em.jumps && ltb 60 n)
    then record (stops n false (em.calls ++ (count_one ∷ [])) c) { insn_count = 1 }
    else record more {
      calls = em.calls ++ (count_one ∷ mov_to Place.guest_pc (Place.imm next_pc) ∷ more.calls);
      insn_count = more.insn_count + 1;
    }

module _ (net_process : VirtioDev → ℕ → Memory → ℕ → VirtioDev × Memory) (jit : JitState) where
  -- The loop, with `left` instructions to go and `jumps` jumps so far.
  unfoldable pub compile_body : ℕ → Cpu → ℕ → ℕ → Body
  compile_body zero c pc jumps = stops jumps false [] c
  compile_body (suc left) c pc jumps =
      let (got, c1) = cpu_load net_process c pc 4 Access.exec in
      elim got [
        | trapped exc ↦ stops jumps false [] c1
        | value val ↦ compile_word jit pc jumps (u32 val) c1 (compile_body left c1)
      ]

  unfoldable pub max_insns : ℕ
  max_insns = if ltb 0 jit.rt_max_block_insns then jit.rt_max_block_insns else 64

  -- COUNT_REG starts at 0, and the epilogue returns it.
  abbrev pub block_calls : List Call → List Call
  block_calls calls =
      mov_to Place.count_reg (Place.imm 0)
      ∷ (calls ++ (emit_label 0 ∷ mov_to Place.r0 Place.count_reg ∷ []))

  abbrev pub cache_index : ℕ → ℕ
  cache_index pc = pc / 2 &&& 0xFFFF

  abbrev pub put_block : JitBlock → JitState
  put_block b = record jit { cache = update jit.cache (cache_index b.guest_pc) b }

  -- `none` is the result NULL: `created` and `generated` say whether the library had the memory. A
  -- first instruction that is not supported leaves a block without code.
  unfoldable pub jit_compile_block :
      Bool → (List Call → Bool) → Cpu → ℕ → Option (JitBlock × JitState) × Cpu
  jit_compile_block created generated c guest_pc =
      let body = compile_body max_insns c guest_pc 0 in
      let code = block_calls body.calls in
      let empty : JitBlock = record {
        guest_pc = guest_pc;
        host_code = none;
        insn_count = 0;
        valid = true;
      } in
      let full : JitBlock = record {
        guest_pc = guest_pc;
        host_code = some code;
        insn_count = body.insn_count;
        valid = true;
      } in
      if not created
      then (none, c)
      else if body.refused && body.insn_count == 0
      then (some (empty, put_block empty), body.cpu)
      else if not (generated code)
      then (none, body.cpu)
      else (some (full, put_block full), body.cpu)

  module _ (fp_exec : Cpu → ℕ → FpResult × Cpu) (s : Sljit) (start : Cpu → Host) where
    -- The call of the block's code; `start` gives its registers at the entry.
    unfoldable pub run_block : List Call → Cpu → ℕ × Cpu
    run_block code c = let h = run s net_process fp_exec none code (start c) in (h.r0, h.cpu)

    -- A cached block that is valid for the pc, or a new one.
    unfoldable pub lookup_block :
        Bool → (List Call → Bool) → Cpu → Option (JitBlock × JitState) × Cpu
    lookup_block created generated c =
        let b = jit.cache (cache_index c.pc) in
        if not b.valid || not (b.guest_pc == c.pc)
        then jit_compile_block created generated c c.pc
        else (some (b, jit), c)

    -- The end of `jit_exec` for the block that was found.
    unfoldable pub exec_found : Option (JitBlock × JitState) → Cpu → ℕ × JitState × Cpu
    exec_found none c = (0, jit, c)
    exec_found (some (b, next)) c = elim b.host_code [
      | none ↦ (0, next, c)
      | some code ↦
          let (count, d) = run_block code c in
          (
            count,
            record next { stat_jit_insns = u64 (next.stat_jit_insns + count) },
            record d { instret = u64 (d.instret + count) },
          )
    ]

    -- The number of instructions, the JIT's state and the machine.
    unfoldable pub jit_exec : Bool → (List Call → Bool) → Cpu → ℕ × JitState × Cpu
    jit_exec created generated c =
        if not jit.enabled
        then (0, jit, c)
        else (let (found, c1) = lookup_block created generated c in exec_found found c1)

-- jit_flush: every block is dropped.
unfoldable pub jit_flush : JitState → JitState
jit_flush jit = record jit {
  cache = λ i. record { guest_pc = 0; host_code = none; insn_count = 0; valid = false };
}
