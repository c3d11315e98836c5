-- ===== src/Alu.antt =====
-- extension/rv64_cpu.c: the arithmetic of `rv64_step`, on `uint64_t` register values. Shift counts
-- and signed operations are as the compilers at hand define them: arithmetic `>>`, and wrapping
-- casts. `INT64_MIN / -1`, undefined in C, is the wrapped quotient here.
use pglinux.Base.{ℕ, ◌+◌, ◌-◌, ◌*◌, ◌/◌, ◌%◌, ◌^◌, Option, none, some, ◌==◌, ltb, if◌then◌else◌}
use pglinux.Base.Int.{pos, ◌*ℤ◌, ltb_ℤ, signed, pattern_of, shift_right, quotient, remainder}
use pglinux.Word.{u32, u64, sub64, sub32, nonzero, ◌&&&◌, ◌|||◌, ◌^^^◌, ◌<<<◌, ◌>>>◌}

-- (int64_t)a < (int64_t)b
abbrev pub less : ℕ → ℕ → ℕ
less a b = if ltb_ℤ (signed 64 a) (signed 64 b) then 1 else 0

abbrev pub less_u : ℕ → ℕ → ℕ
less_u a b = if ltb a b then 1 else 0

-- (uint64_t)((int64_t)a >> k)
abbrev pub sra64 : ℕ → ℕ → ℕ
sra64 a k = pattern_of 64 (shift_right (signed 64 a) k)

-- (uint64_t)(int64_t)result32, from the pattern of the 32-bit result.
abbrev pub widen32 : ℕ → ℕ
widen32 n = pattern_of 64 (signed 32 (u32 n))

abbrev pub sra32 : ℕ → ℕ → ℕ
sra32 a k = pattern_of 32 (shift_right (signed 32 a) k)

-- case 0x13. `imm` is the immediate as a `uint64_t`.
unfoldable pub alu_imm : ℕ → ℕ → ℕ → ℕ → ℕ → ℕ
alu_imm funct3 funct7 shamt src imm =
    if funct3 == 0
    then u64 (src + imm)
    else if funct3 == 1
    then u64 (src <<< shamt)
    else if funct3 == 2
    then less src imm
    else if funct3 == 3
    then less_u src imm
    else if funct3 == 4
    then src ^^^ imm
    else if funct3 == 5
    then (if nonzero (funct7 >>> 1) then sra64 src shamt else src >>> shamt)
    else if funct3 == 6
    then src ||| imm
    else src &&& imm

-- The multiplications and divisions of case 0x33.
pub mul_div : ℕ → ℕ → ℕ → ℕ
mul_div funct3 a b =
    if funct3 == 0
    then u64 (a * b)
    else if funct3 == 1
    then pattern_of 64 (shift_right (signed 64 a *ℤ signed 64 b) 64)
    else if funct3 == 2
    then pattern_of 64 (shift_right (signed 64 a *ℤ pos b) 64)
    else if funct3 == 3
    then a * b >>> 64
    else if funct3 == 4
    then (if nonzero b then pattern_of 64 (quotient (signed 64 a) (signed 64 b)) else 2 ^ 64 - 1)
    else if funct3 == 5
    then (if nonzero b then a / b else 2 ^ 64 - 1)
    else if funct3 == 6
    then (if nonzero b then pattern_of 64 (remainder (signed 64 a) (signed 64 b)) else a)
    else if nonzero b
    then a % b
    else a

-- case 0x33
unfoldable pub alu_reg : ℕ → ℕ → ℕ → ℕ → ℕ
alu_reg funct3 funct7 a b =
    if funct7 == 0x01
    then mul_div funct3 a b
    else if funct3 == 0
    then (if funct7 == 0x20 then sub64 a b else u64 (a + b))
    else if funct3 == 1
    then u64 (a <<< (b &&& 0x3F))
    else if funct3 == 2
    then less a b
    else if funct3 == 3
    then less_u a b
    else if funct3 == 4
    then a ^^^ b
    else if funct3 == 5
    then (if funct7 == 0x20 then sra64 a (b &&& 0x3F) else a >>> (b &&& 0x3F))
    else if funct3 == 6
    then a ||| b
    else a &&& b

-- case 0x1B: the value written, `none` for an illegal instruction.
unfoldable pub alu_imm32 : ℕ → ℕ → ℕ → ℕ → ℕ → Option ℕ
alu_imm32 funct3 funct7 shamt x imm =
    let src = u32 x in
    if funct3 == 0
    then some (widen32 (src + u32 imm))
    else if funct3 == 1
    then some (widen32 (src <<< shamt))
    else if funct3 == 5
    then some (widen32 (if funct7 == 0x20 then sra32 src shamt else src >>> shamt))
    else none

-- The multiplications and divisions of case 0x3B.
pub mul_div32 : ℕ → ℕ → ℕ → Option ℕ
mul_div32 funct3 a b =
    if funct3 == 0
    then some (widen32 (a * b))
    else if funct3 == 4
    then some (
        widen32
          (if nonzero b then pattern_of 32 (quotient (signed 32 a) (signed 32 b)) else 2 ^ 32 - 1))
    else if funct3 == 5
    then some (widen32 (if nonzero b then a / b else 2 ^ 32 - 1))
    else if funct3 == 6
    then some
        (widen32 (if nonzero b then pattern_of 32 (remainder (signed 32 a) (signed 32 b)) else a))
    else if funct3 == 7
    then some (widen32 (if nonzero b then a % b else a))
    else none

-- case 0x3B
unfoldable pub alu_reg32 : ℕ → ℕ → ℕ → ℕ → Option ℕ
alu_reg32 funct3 funct7 x y =
    let a = u32 x in
    let b = u32 y in
    if funct7 == 0x01
    then mul_div32 funct3 a b
    else if funct3 == 0
    then some (widen32 (if funct7 == 0x20 then sub32 a b else a + b))
    else if funct3 == 1
    then some (widen32 (a <<< (b &&& 0x1F)))
    else if funct3 == 5
    then some (widen32 (if funct7 == 0x20 then sra32 a (b &&& 0x1F) else a >>> (b &&& 0x1F)))
    else none

-- case 0x63: is the branch taken? `none` for an illegal instruction.
unfoldable pub branch_taken : ℕ → ℕ → ℕ → Option ℕ
branch_taken funct3 a b =
    if funct3 == 0
    then some (if a == b then 1 else 0)
    else if funct3 == 1
    then some (if a == b then 0 else 1)
    else if funct3 == 4
    then some (less a b)
    else if funct3 == 5
    then some (1 - less a b)
    else if funct3 == 6
    then some (less_u a b)
    else if funct3 == 7
    then some (1 - less_u a b)
    else none

-- The read-modify-write operations of case 0x2F; LR and SC are elsewhere.
pub amo : ℕ → ℕ → ℕ → Option ℕ
amo funct5 loaded b =
    if funct5 == 0x01
    then some b
    else if funct5 == 0x00
    then some (u64 (loaded + b))
    else if funct5 == 0x04
    then some (loaded ^^^ b)
    else if funct5 == 0x0C
    then some (loaded &&& b)
    else if funct5 == 0x08
    then some (loaded ||| b)
    else if funct5 == 0x10
    then some (if ltb_ℤ (signed 64 loaded) (signed 64 b) then loaded else b)
    else if funct5 == 0x14
    then some (if ltb_ℤ (signed 64 b) (signed 64 loaded) then loaded else b)
    else if funct5 == 0x18
    then some (if ltb loaded b then loaded else b)
    else if funct5 == 0x1C
    then some (if ltb b loaded then loaded else b)
    else none
