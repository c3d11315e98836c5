-- ===== src/Jit/Calls.antt =====
-- extension/sljit_src/sljitLir.h: the calls of the sljit library that extension/rv64_sljit.c makes,
-- as it makes them. A jump names its label by a number; the library itself is not part of the model.
use pglinux.Base.{ℕ}

-- SLJIT_MOV, with the conversions of the low bits.
pub data Op1 : Type 0 where
  mov mov_s8 mov_s16 mov_s32 mov_u8 mov_u16 mov_u32 : Op1

pub data Op2 : Type 0 where
  add sub shl lshr ashr xor or and : Op2
  add32 sub32 shl32 lshr32 ashr32 : Op2

pub data Condition : Type 0 where
  equal not_equal sig_less sig_greater_equal less greater_equal : Condition

-- The operands: SLJIT_R0 to SLJIT_R3, COUNT_REG, CPU_REG, an immediate, SLJIT_MEM1(SLJIT_SP) with
-- offset 0, and SLJIT_MEM1(CPU_REG) with the offsets of `x[i]` and of `pc`.
pub data Place : Type 0 where
  r0 r1 r2 r3 count_reg cpu_reg local guest_pc : Place
  guest_x imm : ℕ → Place

-- sljit_emit_op1, sljit_emit_op2, the same with SLJIT_SUB and a flag, sljit_emit_op_flags,
-- sljit_get_local_base, sljit_emit_icall of the three helpers, sljit_emit_cmp, sljit_emit_jump and
-- sljit_emit_label.
pub data Call : Type 0 where
  emit_op1 : Op1 → Place → Place → Call
  emit_op2 : Op2 → Place → Place → Place → Call
  emit_sub_set : Condition → Place → Place → Place → Call
  emit_op_flags : Place → Condition → Call
  get_local_base : Place → Call
  icall_load icall_store icall_fp_exec : Call
  emit_cmp : Condition → Place → Place → ℕ → Call
  emit_jump emit_label : ℕ → Call
