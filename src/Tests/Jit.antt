-- ===== src/Tests/Jit.antt =====
-- Runs of the theorems on the JIT compiler, with an engine that does what the library documents.
use pglinux.Base.{
  List, ◌+◌, ℕ, ◌*◌, ◌^◌, ◌<◌, ◌≡◌, refl, sym, ap, subst, ◌∙◌, true, false, not, Bool, none, [],
  ◌∷◌, ◌==◌, ltb, arith,
}
use native.Mathlib.Nat.{div-le_self}
use pglinux.Base.Int.{ℤ, pos, negsuc, signed, pattern_of, shift_right, ltb_ℤ}
use pglinux.Word.{u8, u16, u32, u64, sub64, sub32, ◌&&&◌, ◌|||◌, ◌^^^◌, ◌<<<◌, ◌>>>◌}
use pglinux.Rvc.Expand.{expand}
use mathlib.Core.Bool.{false≢true}
use pglinux.Ram.{read_bytes}
use pglinux.Bus.{bus_load, within, is_size}
use pglinux.Mmu.{translate}
use pglinux.Mem.{cpu_load, load_at, fast_load_ok, host_hit}
use pglinux.Cpu.{Cpu, set_reg}
use pglinux.Alu.{alu_imm, alu_reg}
use pglinux.Exec.{Flow, done, exec, exec_plain, write_or_illegal}
use pglinux.Jit.Block.{
  JitState, max_insns, compile_body, compile_word, emit_word, unpack, is_disabled, block_calls,
  run_block, jit_exec,
}
use pglinux.Jit.Block.Bounds.{compile_body-Fits}
use pglinux.Jit.Block.Cache.{IsCache, RunsBuilt, jit_exec-IsCache}
use pglinux.Jit.Whole.{Insns, body_insns, word_insns, Interprets, AgreeAlong}
use pglinux.Cpu.Hart.{hart}
use pglinux.Jit.Calls.{Call}
use pglinux.Jit.Whole.Cold.{built, cold_insns, called, ran, jit_exec-Interprets}
use pglinux.Jit.Whole.Loop.{run_block-Interprets}
use pglinux.Jit.Calls.{Op1, Op2, Condition}
use pglinux.Jit.Emit.{emit_insn, emit_store, ops_imm, ops_reg}
use pglinux.Jit.Engine.{Sljit, IsSljit, Host}
use pglinux.Jit.Insn.{Does, Goal, op33-Does}
use pglinux.Jit.Every.{Agrees, emit_insn-Does}
use pglinux.Jit.Uncompress.{sljit_uncompress}
use pglinux.Jit.Uncompress.Agree.{or_zero, sljit_uncompress-expand}
use pglinux.Tests.Data.{machine_cpu, adding_cpu, no_net, no_fp}

unfoldable toy_op1 : Op1 → ℕ → ℕ
toy_op1 Op1.mov a = a
toy_op1 Op1.mov_s8 a = pattern_of 64 (signed 8 (u8 a))
toy_op1 Op1.mov_s16 a = pattern_of 64 (signed 16 (u16 a))
toy_op1 Op1.mov_s32 a = pattern_of 64 (signed 32 (u32 a))
toy_op1 Op1.mov_u8 a = u8 a
toy_op1 Op1.mov_u16 a = u16 a
toy_op1 Op1.mov_u32 a = u32 a

unfoldable toy_op2 : Op2 → ℕ → ℕ → ℕ
toy_op2 Op2.add a b = u64 (a + b)
toy_op2 Op2.sub a b = sub64 a b
toy_op2 Op2.shl a b = u64 (a <<< b)
toy_op2 Op2.lshr a b = a >>> b
toy_op2 Op2.ashr a b = pattern_of 64 (shift_right (signed 64 a) b)
toy_op2 Op2.xor a b = a ^^^ b
toy_op2 Op2.or a b = a ||| b
toy_op2 Op2.and a b = a &&& b
toy_op2 Op2.add32 a b = u32 (u32 a + u32 b)
toy_op2 Op2.sub32 a b = sub32 (u32 a) (u32 b)
toy_op2 Op2.shl32 a b = u32 (u32 a <<< u32 b)
toy_op2 Op2.lshr32 a b = u32 a >>> u32 b
toy_op2 Op2.ashr32 a b = pattern_of 32 (shift_right (signed 32 (u32 a)) (u32 b))

unfoldable toy_holds : Condition → ℕ → ℕ → Bool
toy_holds Condition.equal a b = a == b
toy_holds Condition.not_equal a b = not (a == b)
toy_holds Condition.sig_less a b = ltb_ℤ (signed 64 a) (signed 64 b)
toy_holds Condition.sig_greater_equal a b = not (ltb_ℤ (signed 64 a) (signed 64 b))
toy_holds Condition.less a b = ltb a b
toy_holds Condition.greater_equal a b = not (ltb a b)

abbrev toy_engine : Sljit
toy_engine = record {
  op1 = toy_op1;
  op2 = toy_op2;
  holds = toy_holds;
  scratch = (λ i. 7 * i);
  pointer = 0x7000;
}

u32-pattern_of : (z : ℤ) → u32 (pattern_of 32 z) ≡ pattern_of 32 z
u32-pattern_of (pos n) = omega arith
u32-pattern_of (negsuc n) = omega arith

toy_engine-IsSljit : IsSljit toy_engine
unfolding toy_op1 toy_op2 toy_holds
toy_engine-IsSljit = record {
  mov = λ a. refl;
  mov_s8 = λ a. refl;
  mov_s16 = λ a. refl;
  mov_s32 = λ a. refl;
  mov_u8 = λ a. refl;
  mov_u16 = λ a. refl;
  mov_u32 = λ a. refl;
  add = λ a b. refl;
  sub = λ a b. refl;
  xor = λ a b. refl;
  or = λ a b. refl;
  and = λ a b. refl;
  shl = λ a b h. refl;
  lshr = λ a b h. refl;
  ashr = λ a b h. refl;
  add32 = λ a b. omega arith;
  sub32 = λ a b. omega arith;
  shl32 = λ a b h. omega arith;
  lshr32 = λ a b h. omega (arith, div-le_self (u32 a) (2 ^ u32 b));
  ashr32 = λ a b h. u32-pattern_of (shift_right (signed 32 (u32 a)) (u32 b));
  equal = λ a b. refl;
  not_equal = λ a b. refl;
  sig_less = λ a b. refl;
  sig_greater_equal = λ a b. refl;
  less = λ a b. refl;
  greater_equal = λ a b. refl;
}

-- C.ADDI a0, -1
sljit_uncompress-expand_example : sljit_uncompress 0x157D ≡ or_zero (expand 0x157D)
sljit_uncompress-expand_example = sljit_uncompress-expand 0x157D

abbrev entry : Host
entry = record {
  r0 = 0;
  r1 = 0;
  r2 = 0;
  r3 = 0;
  count = 0;
  local = 0;
  left = 0;
  right = 0;
  cpu = record machine_cpu { pc = 0x80000010 };
}

-- SW x5, 4(x6)
abbrev store_insn : ℕ
store_insn = 0x00532223

store_insn-Agrees : Agrees no_net store_insn entry.cpu
store_insn-Agrees = record {
  word = omega arith;
  zero = refl;
  no_mul = λ e. refl;
  shift = λ e. absurd (omega (arith, e));
  shift_imm = λ e. absurd (omega (arith, e));
  shift32 = λ e. absurd (omega (arith, e));
  load = λ e. absurd (omega (arith, e));
  loaded = λ e. absurd (omega (arith, e));
  store = λ e. omega arith;
}

store_supported : (emit_insn 0x80000010 store_insn 4).supported ≡ true
unfolding emit_insn emit_store
store_supported = refl

emit_insn-Does_example :
    Goal toy_engine toy_engine-IsSljit no_net no_fp store_insn 0x80000010 4 entry refl (omega arith)
emit_insn-Does_example =
    emit_insn-Does toy_engine toy_engine-IsSljit no_net no_fp store_insn 4 entry store_insn-Agrees
      store_supported

abbrev toy_jit : JitState
toy_jit = record {
  cache = (λ i. record { guest_pc = 0; host_code = none; insn_count = 0; valid = false });
  enabled = true;
  rt_max_block_insns = 1;
  disabled_ops = (λ i. 0);
  stat_jit_insns = 0;
}

abbrev enter : Cpu → Host
enter c = record entry { cpu = c }

-- ADDI x5, x1, 1
abbrev add_insns : Insns
add_insns = (0x00108293, 4) ∷ []

add_insns_is : body_insns no_net toy_jit 1 adding_cpu 0x80000000 0 ≡ add_insns
unfolding body_insns word_insns emit_word unpack is_disabled emit_insn ops_imm cpu_load load_at
    translate bus_load fast_load_ok host_hit within is_size read_bytes
add_insns_is = refl

no_jumps : (compile_body no_net toy_jit 1 adding_cpu 0x80000000 0).num_epilogue_jumps ≡ 0
unfolding compile_body compile_word emit_word unpack is_disabled emit_insn ops_imm cpu_load load_at
    translate bus_load fast_load_ok host_hit within is_size read_bytes
no_jumps = refl

add_insn-Agrees : Agrees no_net 0x00108293 adding_cpu
add_insn-Agrees = record {
  word = omega arith;
  zero = refl;
  no_mul = λ e. refl;
  shift = λ e. absurd (omega (arith, e));
  shift_imm = λ e f. absurd (false≢true f);
  shift32 = λ e. absurd (omega (arith, e));
  load = λ e. absurd (omega (arith, e));
  loaded = λ e. absurd (omega (arith, e));
  store = λ e. absurd (omega (arith, e));
}

added_zero : (exec no_net no_fp adding_cpu 0x00108293 0x80000004).1.x 0 ≡ 0
unfolding exec exec_plain write_or_illegal alu_imm set_reg
added_zero = refl

add_agrees : AgreeAlong no_net no_fp add_insns adding_cpu
unfolding AgreeAlong
add_agrees = (add_insn-Agrees, λ to d e. ap (λ (r : Flow × Cpu). r.1.x 0) (sym e) ∙ added_zero)

run_block-Interprets_example :
    let ran =
      run_block no_net toy_jit no_fp toy_engine enter
        (block_calls no_net toy_jit (compile_body no_net toy_jit 1 adding_cpu 0x80000000 0).calls)
        adding_cpu in
    Interprets no_net no_fp
      (body_insns no_net toy_jit 1 adding_cpu 0x80000000 0)
      adding_cpu
      ran.1
      ran.0
run_block-Interprets_example =
    run_block-Interprets toy_engine toy_engine-IsSljit no_net no_fp toy_jit enter 1 adding_cpu
      adding_cpu (omega arith) refl (omega (arith, no_jumps))
      (subst (λ (is : Insns). AgreeAlong no_net no_fp is adding_cpu) (sym add_insns_is) add_agrees)

compile_body-Fits_example :
    let b = compile_body no_net toy_jit 64 adding_cpu 0x80000000 0 in
    (b.num_epilogue_jumps < 62) × (b.insn_count < 65)
compile_body-Fits_example =
    compile_body-Fits no_net toy_jit 64 adding_cpu 0x80000000 0 (omega arith)

empty-IsCache : IsCache no_net toy_jit
empty-IsCache i valid = absurd (false≢true valid)

-- The block is built, and run.
jit_exec-IsCache_example :
    let r = jit_exec no_net toy_jit no_fp toy_engine enter true (λ code. true) adding_cpu in
    IsCache no_net r.1
    × RunsBuilt no_net toy_jit empty-IsCache no_fp toy_engine enter true (λ code. true) adding_cpu r
jit_exec-IsCache_example =
    jit_exec-IsCache no_net toy_jit empty-IsCache no_fp toy_engine enter true (λ code. true)
      adding_cpu

-- MUL x5, x1, x2
abbrev mul_insn : ℕ
mul_insn = 0x022082B3

mul_supported : (emit_insn 0x80000010 mul_insn 4).supported ≡ true
unfolding emit_insn ops_reg
mul_supported = refl

op33-Does_example :
    Does toy_engine toy_engine-IsSljit no_net no_fp
      (emit_insn 0x80000010 mul_insn 4)
      entry
      0x80000014
      (done 0x80000014, set_reg entry.cpu 5 (alu_reg 0 0 1 2))
op33-Does_example =
    op33-Does toy_engine toy_engine-IsSljit no_net no_fp mul_insn 0x80000010 4 entry refl
      (omega arith) refl (λ e. absurd (false≢true e)) mul_supported

abbrev always : List Call → Bool
always code = true

cold_is :
    cold_insns toy_engine toy_engine-IsSljit no_net no_fp toy_jit enter always adding_cpu
    ≡ add_insns
unfolding max_insns body_insns word_insns emit_word unpack is_disabled emit_insn ops_imm cpu_load
    load_at translate bus_load fast_load_ok host_hit within is_size read_bytes
cold_is = refl

cold_machine :
    (built toy_engine toy_engine-IsSljit no_net no_fp toy_jit enter always adding_cpu).cpu
    ≡ adding_cpu
unfolding max_insns compile_body compile_word emit_word unpack is_disabled emit_insn ops_imm
    cpu_load load_at translate bus_load fast_load_ok host_hit within is_size read_bytes
cold_machine = refl

cold_counts :
    ((built toy_engine toy_engine-IsSljit no_net no_fp toy_jit enter always
        adding_cpu).num_epilogue_jumps
      ≡ 0)
    × ((built toy_engine toy_engine-IsSljit no_net no_fp toy_jit enter always adding_cpu).insn_count
        ≡ 1)
    × (max_insns no_net toy_jit ≡ 1)
unfolding max_insns compile_body compile_word emit_word unpack is_disabled emit_insn ops_imm
    cpu_load load_at translate bus_load fast_load_ok host_hit within is_size read_bytes
cold_counts = (refl, refl, refl)

cold_agrees :
    AgreeAlong no_net no_fp
      (cold_insns toy_engine toy_engine-IsSljit no_net no_fp toy_jit enter always adding_cpu)
      (built toy_engine toy_engine-IsSljit no_net no_fp toy_jit enter always adding_cpu).cpu
cold_agrees =
    subst
      (λ (is : Insns).
        AgreeAlong no_net no_fp is
          (built toy_engine toy_engine-IsSljit no_net no_fp toy_jit enter always adding_cpu).cpu)
      (sym cold_is) (subst (AgreeAlong no_net no_fp add_insns) (sym cold_machine) add_agrees)

jit_exec-Interprets_example :
    let r = called toy_engine toy_engine-IsSljit no_net no_fp toy_jit enter always adding_cpu in
    let d = ran toy_engine toy_engine-IsSljit no_net no_fp toy_jit enter always adding_cpu in
    let at =
      (built toy_engine toy_engine-IsSljit no_net no_fp toy_jit enter always adding_cpu).cpu in
    (hart at ≡ hart adding_cpu)
    × Interprets no_net no_fp
        (cold_insns toy_engine toy_engine-IsSljit no_net no_fp toy_jit enter always adding_cpu)
        at
        d.1
        r.0
    × (r.2 ≡ record d.1 { instret = u64 (d.1.instret + r.0) })
jit_exec-Interprets_example =
    jit_exec-Interprets toy_engine toy_engine-IsSljit no_net no_fp toy_jit enter always adding_cpu
      refl refl (ground (arith, cold_counts)) refl (λ d. refl) (omega (arith, cold_counts))
      (omega (arith, cold_counts)) cold_agrees
