-- ===== src/Jit/Emit/Ops.antt =====
-- extension/rv64_sljit.c: the registers of the guest, and the operations that `jit_compile_block` selects
-- for an arithmetic instruction.
use pglinux.Base.{
  ℕ, Bool, true, false, Option, none, some, List, [], ◌∷◌, ◌++◌, ◌==◌, if◌then◌else◌,
}
use pglinux.Base.Int.{signed, pattern_of, shift_right}
use pglinux.Word.{◌&&&◌, ◌>>>◌}
use pglinux.Decode.{rd, rs1, rs2}
use pglinux.Jit.Calls.{
  Op1, Op2, Condition, Place, Call, emit_op1, emit_op2, emit_sub_set, emit_op_flags,
}

-- insn >> 25
abbrev pub funct7 : ℕ → ℕ
funct7 insn = insn >>> 25

abbrev pub mov_to : Place → Place → Call
mov_to dst src = emit_op1 Op1.mov dst src

unfoldable pub emit_load_guest : Place → ℕ → List Call
emit_load_guest dst grs =
    if grs == 0 then mov_to dst (Place.imm 0) ∷ [] else mov_to dst (Place.guest_x grs) ∷ []

unfoldable pub emit_store_guest : ℕ → Place → List Call
emit_store_guest grs src = if grs == 0 then [] else mov_to (Place.guest_x grs) src ∷ []

-- What the instruction emits, whether it is supported, whether it ends the block, and whether it adds
-- a jump to the epilogue.
pub record Emitted : Type 0 where
  pub calls : List Call
  pub supported : Bool
  pub ended : Bool
  pub jumps : Bool

abbrev pub goes_on : List Call → Emitted
goes_on calls = record { calls = calls; supported = true; ended = false; jumps = false }

abbrev pub ends : List Call → Emitted
ends calls = record { calls = calls; supported = true; ended = true; jumps = false }

abbrev pub may_leave : List Call → Emitted
may_leave calls = record { calls = calls; supported = true; ended = false; jumps = true }

abbrev pub unsupported : List Call → Emitted
unsupported calls = record { calls = calls; supported = false; ended = false; jumps = false }

-- An operation on R0 into R0.
abbrev pub on_r0 : Op2 → Place → List Call
on_r0 op b = emit_op2 op Place.r0 Place.r0 b ∷ []

abbrev pub set_less : Condition → Place → List Call
set_less cond b = emit_sub_set cond Place.r0 Place.r0 b ∷ emit_op_flags Place.r0 cond ∷ []

-- The operation, between the loads of R0 and R1 and the store of R0; `none` is `supported = 0`.
abbrev pub computed : ℕ → List Call → Option (List Call) → List Call → Emitted
computed insn loads ops after = elim ops [
  | none ↦ unsupported loads
  | some code ↦ goes_on (loads ++ ((code ++ after) ++ emit_store_guest (rd insn) Place.r0))
]

abbrev pub load_both : ℕ → List Call
load_both insn = emit_load_guest Place.r0 (rs1 insn) ++ emit_load_guest Place.r1 (rs2 insn)

-- op 0x33
unfoldable pub ops_reg : ℕ → ℕ → Option (List Call)
ops_reg f3 f7 =
    if f3 == 0
    then some (on_r0 (if f7 == 0x20 then Op2.sub else Op2.add) Place.r1)
    else if f3 == 1
    then some (on_r0 Op2.shl Place.r1)
    else if f3 == 2
    then some (set_less Condition.sig_less Place.r1)
    else if f3 == 3
    then some (set_less Condition.less Place.r1)
    else if f3 == 4
    then some (on_r0 Op2.xor Place.r1)
    else if f3 == 5
    then some (on_r0 (if f7 == 0x20 then Op2.ashr else Op2.lshr) Place.r1)
    else if f3 == 6
    then some (on_r0 Op2.or Place.r1)
    else if f3 == 7
    then some (on_r0 Op2.and Place.r1)
    else none

-- (int32_t)insn >> 20
unfoldable pub imm20 : ℕ → ℕ
imm20 insn = pattern_of 64 (shift_right (signed 32 insn) 20)

-- op 0x13
unfoldable pub ops_imm : ℕ → ℕ → Option (List Call)
ops_imm f3 insn =
    let i = imm20 insn in
    if f3 == 0
    then some (on_r0 Op2.add (Place.imm i))
    else if f3 == 2
    then some (set_less Condition.sig_less (Place.imm i))
    else if f3 == 3
    then some (set_less Condition.less (Place.imm i))
    else if f3 == 4
    then some (on_r0 Op2.xor (Place.imm i))
    else if f3 == 6
    then some (on_r0 Op2.or (Place.imm i))
    else if f3 == 7
    then some (on_r0 Op2.and (Place.imm i))
    else if f3 == 1
    then some (on_r0 Op2.shl (Place.imm (i &&& 0x3F)))
    else if f3 == 5
    then some (on_r0 (if insn >>> 26 == 0x10 then Op2.ashr else Op2.lshr) (Place.imm (i &&& 0x3F)))
    else none

-- op 0x3B
unfoldable pub ops_reg32 : ℕ → ℕ → Option (List Call)
ops_reg32 f3 f7 =
    if f3 == 0
    then some (on_r0 (if f7 == 0x20 then Op2.sub32 else Op2.add32) Place.r1)
    else if f3 == 1
    then some (on_r0 Op2.shl32 Place.r1)
    else if f3 == 5
    then some (on_r0 (if f7 == 0x20 then Op2.ashr32 else Op2.lshr32) Place.r1)
    else none

-- op 0x1B
unfoldable pub ops_imm32 : ℕ → ℕ → Option (List Call)
ops_imm32 f3 insn =
    let i = imm20 insn in
    if f3 == 0
    then some (on_r0 Op2.add32 (Place.imm i))
    else if f3 == 1
    then some (on_r0 Op2.shl32 (Place.imm (i &&& 0x1F)))
    else if f3 == 5
    then some
        (on_r0 (if funct7 insn == 0x20 then Op2.ashr32 else Op2.lshr32) (Place.imm (i &&& 0x1F)))
    else none

abbrev pub widen : List Call
widen = emit_op1 Op1.mov_s32 Place.r0 Place.r0 ∷ []
