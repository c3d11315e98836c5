-- ===== src/Fpu.antt =====
-- extension/rv64_fpu.c: `rv64_fp_exec`. A float and a double are their bit patterns. The arithmetic of
-- the host is a parameter; `a * b + c` is one operation of it, since the compiler may fuse it.
pub mod Boxed
pub mod Frame
pub mod Leak
pub mod Moves
use pglinux.Base.{
  ℕ, ◌+◌, ◌%◌, ◌^◌, Bool, not, ◌&&◌, ◌||◌, Option, none, some, ◌==◌, if◌then◌else◌, update,
}
use pglinux.Base.Int.{signed, pattern_of}
use pglinux.Word.{u32, u64, not32, not64, ◌&&&◌, ◌|||◌, ◌^^^◌, ◌<<<◌, ◌>>>◌}
use pglinux.Ram.{Memory}
use pglinux.Virtio.{VirtioDev}
use pglinux.Cpu.{Cpu, Access}
use pglinux.Mem.{Loaded, value, trapped, cpu_load, cpu_store}
use pglinux.Trap.{trap}
use pglinux.Decode.{opcode, rd, funct3, rs1, rs2, funct7, imm_i, imm_s}
use pglinux.Exec.{FpResult, fp_ok, fp_unimplemented, fp_trapped}

-- One format of the host's arithmetic. The conversions take and give two's complement patterns of
-- their widths.
pub record Format : Type 0 where
  pub add : ℕ → ℕ → ℕ
  pub sub : ℕ → ℕ → ℕ
  pub mul : ℕ → ℕ → ℕ
  pub div : ℕ → ℕ → ℕ
  pub mul_add : ℕ → ℕ → ℕ → ℕ
  pub mul_sub : ℕ → ℕ → ℕ → ℕ
  pub neg : ℕ → ℕ
  pub sqrt : ℕ → ℕ
  pub eq : ℕ → ℕ → Bool
  pub lt : ℕ → ℕ → Bool
  pub le : ℕ → ℕ → Bool
  pub isnan : ℕ → Bool
  pub isinf : ℕ → Bool
  pub signbit : ℕ → Bool
  pub zero : ℕ
  pub infinity : ℕ
  pub to_i32 : ℕ → ℕ
  pub to_u32 : ℕ → ℕ
  pub to_i64 : ℕ → ℕ
  pub to_u64 : ℕ → ℕ
  pub of_i32 : ℕ → ℕ
  pub of_u32 : ℕ → ℕ
  pub of_i64 : ℕ → ℕ
  pub of_u64 : ℕ → ℕ

-- float and double, the macro NAN as a float, and the casts between them.
pub record Host : Type 0 where
  pub float : Format
  pub double : Format
  pub nan : ℕ
  pub narrow : ℕ → ℕ
  pub widen : ℕ → ℕ

-- (uint64_t)(int64_t)(int32_t)bits
abbrev pub extend32 : ℕ → ℕ
extend32 bits = pattern_of 64 (signed 32 (u32 bits))

-- The NaN-box that `wr_f` writes.
unfoldable pub box : ℕ → ℕ
box bits = 0xFFFFFFFF00000000 ||| u32 bits

abbrev pub mark_fs_dirty : Cpu → Cpu
mark_fs_dirty c = record c { mstatus = c.mstatus ||| (3 <<< 13) }

-- cpu->f[rd] = v
abbrev pub put_f : Cpu → ℕ → ℕ → Cpu
put_f c rd v = record c { f = update c.f rd v }

-- cpu->x[rd] = v, without WR: x0 is not spared.
abbrev pub put_x : Cpu → ℕ → ℕ → Cpu
put_x c rd v = record c { x = update c.x rd v }

-- -1, or the write of a result.
abbrev pub write_f : Cpu → ℕ → Option ℕ → FpResult × Cpu
write_f c rd o = elim o [ none ↦ (fp_unimplemented, c) | some v ↦ (fp_ok, put_f c rd v) ]

abbrev pub write_x : Cpu → ℕ → Option ℕ → FpResult × Cpu
write_x c rd o = elim o [ none ↦ (fp_unimplemented, c) | some v ↦ (fp_ok, put_x c rd v) ]

-- FSGNJ, FSGNJN, FSGNJX on patterns whose sign bit is `sign`; `rest` are the other bits.
unfoldable pub sign_inject : ℕ → ℕ → (ℕ → ℕ) → ℕ → ℕ → ℕ → Option ℕ
sign_inject rest sign flip f3 a b =
    if f3 == 0
    then some (a &&& rest ||| (b &&& sign))
    else if f3 == 1
    then some (a &&& rest ||| (flip b &&& sign))
    else if f3 == 2
    then some (a &&& rest ||| ((a ^^^ b) &&& sign))
    else none

module _ (k : Format) where
  -- The four fused operations, by the opcode.
  pub fused : ℕ → ℕ → ℕ → ℕ → ℕ
  fused op a b c =
      if op == 0x43
      then k.mul_add a b c
      else if op == 0x47
      then k.mul_sub a b c
      else if op == 0x4B
      then k.mul_add (k.neg a) b c
      else k.mul_sub (k.neg a) b c

  pub min_max : ℕ → ℕ → ℕ → ℕ
  min_max f3 a b =
      if f3 == 0
      then (if k.lt a b || k.isnan b then a else b)
      else (if k.lt b a || k.isnan b then a else b)

  -- A value to an integer register, by rs2.
  pub to_int : ℕ → ℕ → ℕ
  to_int sel a =
      if sel == 0
      then extend32 (k.to_i32 a)
      else if sel == 1
      then u32 (k.to_u32 a)
      else if sel == 2
      then u64 (k.to_i64 a)
      else u64 (k.to_u64 a)

  -- An integer register to a value, by rs2.
  pub of_int : ℕ → ℕ → ℕ
  of_int sel x =
      if sel == 0
      then k.of_i32 (u32 x)
      else if sel == 1
      then k.of_u32 (u32 x)
      else if sel == 2
      then k.of_i64 x
      else k.of_u64 x

  pub classify : ℕ → ℕ
  classify a =
      let finite = not (k.isinf a) && not (k.isnan a) in
      if k.eq a (k.neg k.infinity)
      then 1 <<< 0
      else if k.lt a k.zero && finite
      then 1 <<< 1
      else if k.eq a k.zero && k.signbit a
      then 1 <<< 3
      else if k.eq a k.zero && not (k.signbit a)
      then 1 <<< 4
      else if k.lt k.zero a && finite
      then 1 <<< 6
      else if k.eq a k.infinity
      then 1 <<< 7
      else 1 <<< 9

  -- FEQ, FLT, FLE
  pub compare : ℕ → ℕ → ℕ → Option ℕ
  compare f3 a b =
      let flag = λ (t : Bool). (let v : Option ℕ = some (if t then 1 else 0) in v) in
      if f3 == 2
      then flag (k.eq a b)
      else if f3 == 1
      then flag (k.lt a b)
      else if f3 == 0
      then flag (k.le a b)
      else none

module _ (host : Host) where
  -- A register that is not a NaN-box reads as NaN.
  unfoldable pub rd_f : Cpu → ℕ → ℕ
  rd_f c r = if (c.f r >>> 32) == 0xFFFFFFFF then u32 (c.f r) else host.nan

  -- The cases of opcode 0x53 that write an integer register.
  unfoldable pub writes_int : ℕ → Bool
  writes_int f7 = f7 == 0x60 || f7 == 0x70 || f7 == 0x50 || f7 == 0x61 || f7 == 0x71 || f7 == 0x51

  unfoldable pub int_result : Cpu → ℕ → Option ℕ
  int_result c insn =
      let f7 = funct7 insn in
      let a = rd_f c (rs1 insn) in
      let d = c.f (rs1 insn) in
      if f7 == 0x60
      then some (to_int host.float (rs2 insn) a)
      else if f7 == 0x70
      then some (if funct3 insn == 0 then extend32 d else classify host.float a)
      else if f7 == 0x50
      then compare host.float (funct3 insn) a (rd_f c (rs2 insn))
      else if f7 == 0x61
      then some (to_int host.double (rs2 insn) d)
      else if f7 == 0x71
      then some (if funct3 insn == 0 then d else classify host.double d)
      else compare host.double (funct3 insn) d (c.f (rs2 insn))

  -- The cases that write a single-precision result.
  unfoldable pub writes_single : ℕ → Bool
  writes_single f7 =
      f7 == 0x00
      || f7 == 0x04
      || f7 == 0x08
      || f7 == 0x0C
      || f7 == 0x2C
      || f7 == 0x10
      || f7 == 0x14
      || f7 == 0x68
      || f7 == 0x78
      || f7 == 0x20

  unfoldable pub single_result : Cpu → ℕ → Option ℕ
  single_result c insn =
      let f7 = funct7 insn in
      let a = rd_f c (rs1 insn) in
      let b = rd_f c (rs2 insn) in
      if f7 == 0x00
      then some (host.float.add a b)
      else if f7 == 0x04
      then some (host.float.sub a b)
      else if f7 == 0x08
      then some (host.float.mul a b)
      else if f7 == 0x0C
      then some (host.float.div a b)
      else if f7 == 0x2C
      then some (host.float.sqrt a)
      else if f7 == 0x10
      then sign_inject 0x7FFFFFFF 0x80000000 not32 (funct3 insn) (u32 a) (u32 b)
      else if f7 == 0x14
      then some (min_max host.float (funct3 insn) a b)
      else if f7 == 0x68
      then some (of_int host.float (rs2 insn) (c.x (rs1 insn)))
      else if f7 == 0x78
      then some (c.x (rs1 insn))
      else some (host.narrow (c.f (rs1 insn)))

  -- The cases that write a double, and the default.
  unfoldable pub double_result : Cpu → ℕ → Option ℕ
  double_result c insn =
      let f7 = funct7 insn in
      let a = c.f (rs1 insn) in
      let b = c.f (rs2 insn) in
      if f7 == 0x01
      then some (host.double.add a b)
      else if f7 == 0x05
      then some (host.double.sub a b)
      else if f7 == 0x09
      then some (host.double.mul a b)
      else if f7 == 0x0D
      then some (host.double.div a b)
      else if f7 == 0x2D
      then some (host.double.sqrt a)
      else if f7 == 0x11
      then sign_inject 0x7FFFFFFFFFFFFFFF 0x8000000000000000 not64 (funct3 insn) a b
      else if f7 == 0x15
      then some (min_max host.double (funct3 insn) a b)
      else if f7 == 0x21
      then some (host.widen (rd_f c (rs1 insn)))
      else if f7 == 0x69
      then some (of_int host.double (rs2 insn) (c.x (rs1 insn)))
      else if f7 == 0x79
      then some (c.x (rs1 insn))
      else none

  -- wr_f of a result.
  abbrev pub write_s : Cpu → ℕ → Option ℕ → FpResult × Cpu
  write_s c rd o = elim o [
    | none ↦ (fp_unimplemented, c)
    | some bits ↦ (fp_ok, put_f c rd (box bits))
  ]

  -- Opcode 0x53.
  unfoldable pub fp_arith : Cpu → ℕ → FpResult × Cpu
  fp_arith c insn =
      let f7 = funct7 insn in
      if writes_int f7
      then write_x c (rd insn) (int_result c insn)
      else if writes_single f7
      then write_s c (rd insn) (single_result c insn)
      else write_f c (rd insn) (double_result c insn)

  -- Opcodes 0x43, 0x47, 0x4B and 0x4F.
  unfoldable pub fp_fused : Cpu → ℕ → FpResult × Cpu
  fp_fused c insn =
      let rs3 = insn >>> 27 &&& 0x1F in
      let fmt = insn >>> 25 &&& 0x3 in
      let op = opcode insn in
      if fmt == 0
      then (
        fp_ok,
        put_f c (rd insn)
            (box (fused host.float op (rd_f c (rs1 insn)) (rd_f c (rs2 insn)) (rd_f c rs3))),
      )
      else if fmt == 1
      then (
        fp_ok,
        put_f c (rd insn) (fused host.double op (c.f (rs1 insn)) (c.f (rs2 insn)) (c.f rs3)),
      )
      else (fp_unimplemented, c)

  module _ (net_process : VirtioDev → ℕ → Memory → ℕ → VirtioDev × Memory) where
    -- A loaded value put into f[rd], or the trap of its fault.
    abbrev pub put_loaded : Loaded × Cpu → ℕ → ℕ → (ℕ → ℕ) → FpResult × Cpu
    put_loaded r addr rd boxed = elim r.0 [
      | trapped e ↦ (fp_trapped, trap r.1 e addr)
      | value v ↦ (fp_ok, put_f r.1 rd (boxed v))
    ]

    -- FLW and FLD.
    unfoldable pub fp_load : Cpu → ℕ → FpResult × Cpu
    fp_load c insn =
        let addr = u64 (c.x (rs1 insn) + imm_i insn) in
        if funct3 insn == 2
        then put_loaded (cpu_load net_process c addr 4 Access.read) addr (rd insn) box
        else if funct3 insn == 3
        then put_loaded (cpu_load net_process c addr 8 Access.read) addr (rd insn) (λ v. v)
        else (fp_unimplemented, c)

    abbrev pub stored_at : Option ℕ × Cpu → ℕ → FpResult × Cpu
    stored_at r addr = elim r.0 [ some e ↦ (fp_trapped, trap r.1 e addr) | none ↦ (fp_ok, r.1) ]

    -- FSW and FSD.
    unfoldable pub fp_store : Cpu → ℕ → FpResult × Cpu
    fp_store c insn =
        let addr = u64 (c.x (rs1 insn) + imm_s insn) in
        let v = c.f (rs2 insn) in
        if funct3 insn == 2
        then stored_at (cpu_store net_process c addr 4 (v &&& 0xFFFFFFFF)) addr
        else if funct3 insn == 3
        then stored_at (cpu_store net_process c addr 8 v) addr
        else (fp_unimplemented, c)

    unfoldable pub fp_exec : Cpu → ℕ → FpResult × Cpu
    fp_exec c insn =
        let op = opcode insn in
        let c1 = mark_fs_dirty c in
        if op == 0x07
        then fp_load c1 insn
        else if op == 0x27
        then fp_store c1 insn
        else if op == 0x43 || op == 0x47 || op == 0x4B || op == 0x4F
        then fp_fused c1 insn
        else if op == 0x53
        then fp_arith c1 insn
        else (fp_unimplemented, c1)
