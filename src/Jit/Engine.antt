-- ===== src/Jit/Engine.antt =====
-- extension/sljit_src/sljitLir.h: what that header documents of the calls. The generated code does them
-- in the order in which they were made, and a jump goes on at its label. The operations are a
-- parameter, with the documented laws that the JIT relies on.
use pglinux.Base.{
  ℕ, ◌+◌, ◌<◌, ◌≡◌, Bool, true, false, Option, none, some, List, [], ◌∷◌, ◌==◌, ltb, not,
  if◌then◌else◌, update,
}
use pglinux.Base.Int.{signed, pattern_of, shift_right, ltb_ℤ}
use pglinux.Word.{u8, u16, u32, u64, sub64, sub32, ◌&&&◌, ◌|||◌, ◌^^^◌, ◌<<<◌, ◌>>>◌}
use pglinux.Ram.{Memory}
use pglinux.Virtio.{VirtioDev}
use pglinux.Cpu.{Cpu, Access}
use pglinux.Mem.{value, trapped, cpu_load, cpu_store}
use pglinux.Exec.{FpResult, fp_ok, fp_unimplemented, fp_trapped}
use pglinux.Jit.Calls.{
  Op1, Op2, Condition, Place, Call, emit_op1, emit_op2, emit_sub_set, emit_op_flags, get_local_base,
  icall_load, icall_store, icall_fp_exec, emit_cmp, emit_jump, emit_label,
}

-- The operations of the library on 64-bit patterns. The results of the 32-bit operations are in the
-- low half; a shift by a register of more than the width is not specified. `scratch` is what a
-- called function leaves in a scratch register.
pub record Sljit : Type 0 where
  pub op1 : Op1 → ℕ → ℕ
  pub op2 : Op2 → ℕ → ℕ → ℕ
  pub holds : Condition → ℕ → ℕ → Bool
  pub scratch : ℕ → ℕ
  pub pointer : ℕ

-- The documented results.
pub record IsSljit (s : Sljit) : Type 0 where
  pub mov : (a : ℕ) → s.op1 Op1.mov a ≡ a
  pub mov_s8 : (a : ℕ) → s.op1 Op1.mov_s8 a ≡ pattern_of 64 (signed 8 (u8 a))
  pub mov_s16 : (a : ℕ) → s.op1 Op1.mov_s16 a ≡ pattern_of 64 (signed 16 (u16 a))
  pub mov_s32 : (a : ℕ) → s.op1 Op1.mov_s32 a ≡ pattern_of 64 (signed 32 (u32 a))
  pub mov_u8 : (a : ℕ) → s.op1 Op1.mov_u8 a ≡ u8 a
  pub mov_u16 : (a : ℕ) → s.op1 Op1.mov_u16 a ≡ u16 a
  pub mov_u32 : (a : ℕ) → s.op1 Op1.mov_u32 a ≡ u32 a
  pub add : (a b : ℕ) → s.op2 Op2.add a b ≡ u64 (a + b)
  pub sub : (a b : ℕ) → s.op2 Op2.sub a b ≡ sub64 a b
  pub xor : (a b : ℕ) → s.op2 Op2.xor a b ≡ a ^^^ b
  pub or : (a b : ℕ) → s.op2 Op2.or a b ≡ a ||| b
  pub and : (a b : ℕ) → s.op2 Op2.and a b ≡ a &&& b
  pub shl : (a b : ℕ) → b < 64 → s.op2 Op2.shl a b ≡ u64 (a <<< b)
  pub lshr : (a b : ℕ) → b < 64 → s.op2 Op2.lshr a b ≡ a >>> b
  pub ashr : (a b : ℕ) → b < 64 → s.op2 Op2.ashr a b ≡ pattern_of 64 (shift_right (signed 64 a) b)
  pub add32 : (a b : ℕ) → u32 (s.op2 Op2.add32 a b) ≡ u32 (u32 a + u32 b)
  pub sub32 : (a b : ℕ) → u32 (s.op2 Op2.sub32 a b) ≡ sub32 (u32 a) (u32 b)
  pub shl32 : (a b : ℕ) → u32 b < 32 → u32 (s.op2 Op2.shl32 a b) ≡ u32 (u32 a <<< u32 b)
  pub lshr32 : (a b : ℕ) → u32 b < 32 → u32 (s.op2 Op2.lshr32 a b) ≡ u32 a >>> u32 b
  pub ashr32 :
      (a b : ℕ)
      → u32 b < 32
      → u32 (s.op2 Op2.ashr32 a b) ≡ pattern_of 32 (shift_right (signed 32 (u32 a)) (u32 b))
  pub equal : (a b : ℕ) → s.holds Condition.equal a b ≡ (a == b)
  pub not_equal : (a b : ℕ) → s.holds Condition.not_equal a b ≡ not (a == b)
  pub sig_less : (a b : ℕ) → s.holds Condition.sig_less a b ≡ ltb_ℤ (signed 64 a) (signed 64 b)
  pub sig_greater_equal :
      (a b : ℕ) → s.holds Condition.sig_greater_equal a b ≡ not (ltb_ℤ (signed 64 a) (signed 64 b))
  pub less : (a b : ℕ) → s.holds Condition.less a b ≡ ltb a b
  pub greater_equal : (a b : ℕ) → s.holds Condition.greater_equal a b ≡ not (ltb a b)

-- The state of the generated code: its registers, the counter, the local variable, the operands of
-- the last comparison and the guest's machine.
pub record Host : Type 0 where
  pub r0 : ℕ
  pub r1 : ℕ
  pub r2 : ℕ
  pub r3 : ℕ
  pub count : ℕ
  pub local : ℕ
  pub left : ℕ
  pub right : ℕ
  pub cpu : Cpu

module _ (s : Sljit) where
  unfoldable pub get : Place → Host → ℕ
  get Place.r0 h = h.r0
  get Place.r1 h = h.r1
  get Place.r2 h = h.r2
  get Place.r3 h = h.r3
  get Place.count_reg h = h.count
  get Place.cpu_reg h = s.pointer
  get Place.local h = h.local
  get Place.guest_pc h = h.cpu.pc
  get (Place.guest_x i) h = h.cpu.x i
  get (Place.imm v) h = v

  -- An immediate and CPU_REG are no destination.
  unfoldable pub put : Place → ℕ → Host → Host
  put Place.r0 v h = record h { r0 = v }
  put Place.r1 v h = record h { r1 = v }
  put Place.r2 v h = record h { r2 = v }
  put Place.r3 v h = record h { r3 = v }
  put Place.count_reg v h = record h { count = v }
  put Place.cpu_reg v h = h
  put Place.local v h = record h { local = v }
  put Place.guest_pc v h = record h { cpu = record h.cpu { pc = v } }
  put (Place.guest_x i) v h = record h { cpu = record h.cpu { x = update h.cpu.x i v } }
  put (Place.imm i) v h = h

  -- The state after a function that returned `r`.
  unfoldable pub returned : ℕ → Cpu → Host → Host
  returned r c h = record h {
    r0 = r;
    r1 = s.scratch 1;
    r2 = s.scratch 2;
    r3 = s.scratch 3;
    left = s.scratch 4;
    right = s.scratch 5;
    cpu = c;
  }

  module _ (net_process : VirtioDev → ℕ → Memory → ℕ → VirtioDev × Memory)
      (fp_exec : Cpu → ℕ → FpResult × Cpu) where
    -- helper_sljit_load, whose `val` is the local variable.
    unfoldable pub helper_sljit_load : Host → Host
    helper_sljit_load h =
        let (got, c1) = cpu_load net_process h.cpu h.r1 h.r2 Access.read in
        elim got [ value v ↦ returned 0 c1 (record h { local = v }) | trapped e ↦ returned e c1 h ]

    -- helper_sljit_store
    unfoldable pub helper_sljit_store : Host → Host
    helper_sljit_store h =
        let (r, c1) = cpu_store net_process h.cpu h.r1 h.r2 h.r3 in
        elim r [ none ↦ returned 0 c1 h | some e ↦ returned e c1 h ]

    -- rv64_fp_exec, whose results other than 0 count as 1.
    unfoldable pub helper_fp_exec : Host → Host
    helper_fp_exec h =
        let (r, c1) = fp_exec h.cpu h.r1 in
        elim r [
          | fp_ok ↦ returned 0 c1 h
          | fp_unimplemented ↦ returned 1 c1 h
          | fp_trapped ↦ returned 1 c1 h
        ]

    -- The calls in order, or, after a jump, from its label on.
    unfoldable pub run : Option ℕ → List Call → Host → Host
    run target [] h = h
    run none (emit_op1 op dst src ∷ cs) h = run none cs (put dst (s.op1 op (get src h)) h)
    run none (emit_op2 op dst a b ∷ cs) h = run none cs (put dst (s.op2 op (get a h) (get b h)) h)
    run none (emit_sub_set cond dst a b ∷ cs) h =
        run none cs (
          put dst (s.op2 Op2.sub (get a h) (get b h))
            (record h { left = get a h; right = get b h }))
    run none (emit_op_flags dst cond ∷ cs) h =
        run none cs (put dst (if s.holds cond h.left h.right then 1 else 0) h)
    run none (get_local_base dst ∷ cs) h = run none cs (put dst s.pointer h)
    run none (icall_load ∷ cs) h = run none cs (helper_sljit_load h)
    run none (icall_store ∷ cs) h = run none cs (helper_sljit_store h)
    run none (icall_fp_exec ∷ cs) h = run none cs (helper_fp_exec h)
    run none (emit_cmp cond a b l ∷ cs) h = elim (s.holds cond (get a h) (get b h)) [
      | true ↦ run (some l) cs h
      | false ↦ run none cs h
    ]
    run none (emit_jump l ∷ cs) h = run (some l) cs h
    run none (emit_label l ∷ cs) h = run none cs h
    run (some l) (emit_label m ∷ cs) h = elim (l == m) [
      | true ↦ run none cs h
      | false ↦ run (some l) cs h
    ]
    run (some l) (_ ∷ cs) h = run (some l) cs h
