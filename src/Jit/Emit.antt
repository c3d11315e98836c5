-- ===== src/Jit/Emit.antt =====
-- extension/rv64_sljit.c: the calls that `jit_compile_block` makes for one instruction. Immediates are
-- their `sljit_sw` patterns. Label 0 is the epilogue.
pub mod Ops
use pglinux.Base.{
  ℕ, ◌+◌, ◌-◌, ◌*◌, ◌/◌, ◌%◌, ◌^◌, Bool, true, false, ◌||◌, Option, none, some, List, [], ◌∷◌, ◌++◌,
  ◌==◌, if◌then◌else◌,
}
use pglinux.Base.Int.{signed, pattern_of, shift_right}
use pglinux.Word.{u32, u64, not64, nonzero, ◌&&&◌, ◌|||◌, ◌<<<◌, ◌>>>◌}
use pglinux.Decode.{opcode, rd, rs1, rs2, funct3}
use pglinux.Jit.Calls.{
  Op1, Op2, Condition, Place, Call, emit_op1, emit_op2, emit_sub_set, emit_op_flags, get_local_base,
  icall_load, icall_store, icall_fp_exec, emit_cmp, emit_jump, emit_label,
}
unfoldable pub use pglinux.Jit.Emit.Ops.{
  emit_load_guest, emit_store_guest, ops_reg, imm20, ops_imm, ops_reg32, ops_imm32,
}
pub use pglinux.Jit.Emit.Ops.{
  funct7, mov_to, Emitted, goes_on, ends, may_leave, unsupported, on_r0, set_less, computed,
  load_both, widen,
}

-- (int64_t)(int32_t)(insn & 0xFFFFF000)
unfoldable pub upper : ℕ → ℕ
upper insn = pattern_of 64 (signed 32 (insn &&& 0xFFFFF000))

-- An offset of `n` bits and its sign: `if (off & m) off -= 2 * m;` with m = 1 << (n - 1).
abbrev pub minus_sign : ℕ → ℕ → ℕ
minus_sign off n = if nonzero (off &&& 2 ^ (n - 1)) then off + 2 ^ 64 - 2 ^ n else off

unfoldable pub jal_off : ℕ → ℕ
jal_off insn =
    minus_sign
      ((insn >>> 31 &&& 1) <<< 20
        ||| (insn >>> 21 &&& 0x3FF) <<< 1
        ||| (insn >>> 20 &&& 1) <<< 11
        ||| (insn >>> 12 &&& 0xFF) <<< 12)
      21

unfoldable pub emit_jal : ℕ → ℕ → ℕ → Emitted
emit_jal pc insn len = ends (
    mov_to Place.r0 (Place.imm (u64 (pc + len)))
    ∷ (emit_store_guest (rd insn) Place.r0
        ++ (mov_to Place.guest_pc (Place.imm (u64 (pc + jal_off insn))) ∷ [])))

unfoldable pub emit_jalr : ℕ → ℕ → ℕ → Emitted
emit_jalr pc insn len = ends (
    emit_load_guest Place.r1 (rs1 insn)
    ++ (emit_op2 Op2.add Place.r1 Place.r1 (Place.imm (imm20 insn))
        ∷ emit_op2 Op2.and Place.r1 Place.r1 (Place.imm (not64 1))
        ∷ mov_to Place.r0 (Place.imm (u64 (pc + len)))
        ∷ (emit_store_guest (rd insn) Place.r0 ++ (mov_to Place.guest_pc Place.r1 ∷ []))))

unfoldable pub branch_off : ℕ → ℕ
branch_off insn =
    minus_sign
      ((insn >>> 31 &&& 1) <<< 12
        ||| (insn >>> 7 &&& 1) <<< 11
        ||| (insn >>> 25 &&& 0x3F) <<< 5
        ||| (insn >>> 8 &&& 0xF) <<< 1)
      13

unfoldable pub branch_type : ℕ → Option Condition
branch_type f3 =
    if f3 == 0
    then some Condition.equal
    else if f3 == 1
    then some Condition.not_equal
    else if f3 == 4
    then some Condition.sig_less
    else if f3 == 5
    then some Condition.sig_greater_equal
    else if f3 == 6
    then some Condition.less
    else if f3 == 7
    then some Condition.greater_equal
    else none

-- Label 1 is where the branch is taken, label 2 behind it.
unfoldable pub emit_branch : ℕ → ℕ → ℕ → Emitted
emit_branch pc insn len = elim (branch_type (funct3 insn)) [
  | none ↦ unsupported (load_both insn)
  | some type ↦ ends (
      load_both insn
      ++ (emit_cmp type Place.r0 Place.r1 1
          ∷ mov_to Place.guest_pc (Place.imm (u64 (pc + len)))
          ∷ emit_jump 2
          ∷ emit_label 1
          ∷ mov_to Place.guest_pc (Place.imm (u64 (pc + branch_off insn)))
          ∷ emit_label 2
          ∷ []))
]

-- The address of an access into R1.
unfoldable pub emit_address : ℕ → ℕ → List Call
emit_address base i =
    if base == 0
    then mov_to Place.r1 (Place.imm i) ∷ []
    else mov_to Place.r1 (Place.guest_x base)
      ∷ emit_op2 Op2.add Place.r1 Place.r1 (Place.imm i)
      ∷ []

-- The jump to the epilogue on a result that is not 0.
abbrev pub leave_on_error : Call
leave_on_error = emit_cmp Condition.not_equal Place.r0 (Place.imm 0) 0

unfoldable pub emit_memory_icall : Bool → ℕ → ℕ → ℕ → ℕ → List Call
emit_memory_icall true size base i src =
    emit_address base i
    ++ (mov_to Place.r0 Place.cpu_reg
        ∷ mov_to Place.r2 (Place.imm size)
        ∷ (emit_load_guest Place.r3 src ++ (icall_store ∷ leave_on_error ∷ [])))
emit_memory_icall false size base i src =
    emit_address base i
    ++ (mov_to Place.r0 Place.cpu_reg
        ∷ mov_to Place.r2 (Place.imm size)
        ∷ get_local_base Place.r3
        ∷ icall_load
        ∷ leave_on_error
        ∷ mov_to Place.r0 Place.local
        ∷ [])

-- The conversion of the loaded value.
unfoldable pub load_ops : ℕ → List Call
load_ops f3 =
    if f3 == 0
    then emit_op1 Op1.mov_s8 Place.r0 Place.r0 ∷ []
    else if f3 == 1
    then emit_op1 Op1.mov_s16 Place.r0 Place.r0 ∷ []
    else if f3 == 2
    then emit_op1 Op1.mov_s32 Place.r0 Place.r0 ∷ []
    else if f3 == 4
    then emit_op1 Op1.mov_u8 Place.r0 Place.r0 ∷ []
    else if f3 == 5
    then emit_op1 Op1.mov_u16 Place.r0 Place.r0 ∷ []
    else if f3 == 6
    then emit_op1 Op1.mov_u32 Place.r0 Place.r0 ∷ []
    else []

abbrev pub access_size : ℕ → ℕ
access_size f3 = 1 <<< (f3 &&& 3)

unfoldable pub emit_load : ℕ → ℕ → Emitted
emit_load pc insn = may_leave (
    mov_to Place.guest_pc (Place.imm pc)
    ∷ (emit_memory_icall false (access_size (funct3 insn)) (rs1 insn) (imm20 insn) 0
        ++ (load_ops (funct3 insn) ++ emit_store_guest (rd insn) Place.r0)))

unfoldable pub store_imm : ℕ → ℕ
store_imm insn = minus_sign ((insn >>> 25) <<< 5 ||| (insn >>> 7 &&& 0x1F)) 12

unfoldable pub emit_store : ℕ → ℕ → Emitted
emit_store pc insn = may_leave (
    mov_to Place.guest_pc (Place.imm pc)
    ∷ emit_memory_icall true (access_size (funct3 insn)) (rs1 insn) (store_imm insn) (rs2 insn))

unfoldable pub emit_fp : ℕ → ℕ → Emitted
emit_fp pc insn = may_leave (
    mov_to Place.guest_pc (Place.imm pc)
    ∷ mov_to Place.r0 Place.cpu_reg
    ∷ mov_to Place.r1 (Place.imm insn)
    ∷ icall_fp_exec
    ∷ leave_on_error
    ∷ [])

-- The switch on the opcode. `len` is 2 for a compressed instruction and 4 for another.
unfoldable pub emit_insn : ℕ → ℕ → ℕ → Emitted
emit_insn pc insn len =
    let op = opcode insn in
    if op == 0x33
    then computed insn (load_both insn) (ops_reg (funct3 insn) (funct7 insn)) []
    else if op == 0x13
    then computed insn (emit_load_guest Place.r0 (rs1 insn)) (ops_imm (funct3 insn) insn) []
    else if op == 0x3B
    then computed insn (load_both insn) (ops_reg32 (funct3 insn) (funct7 insn)) widen
    else if op == 0x1B
    then computed insn (emit_load_guest Place.r0 (rs1 insn)) (ops_imm32 (funct3 insn) insn) widen
    else if op == 0x37
    then goes_on (mov_to Place.r0 (Place.imm (upper insn)) ∷ emit_store_guest (rd insn) Place.r0)
    else if op == 0x17
    then goes_on
        (mov_to Place.r0 (Place.imm (u64 (pc + upper insn))) ∷ emit_store_guest (rd insn) Place.r0)
    else if op == 0x6F
    then emit_jal pc insn len
    else if op == 0x67
    then emit_jalr pc insn len
    else if op == 0x63
    then emit_branch pc insn len
    else if op == 0x03
    then emit_load pc insn
    else if op == 0x23
    then emit_store pc insn
    else if op == 0x07
        || op == 0x27
        || op == 0x43
        || op == 0x47
        || op == 0x4B
        || op == 0x4F
        || op == 0x53
    then emit_fp pc insn
    else unsupported []
