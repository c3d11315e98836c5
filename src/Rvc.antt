-- ===== src/Rvc.antt =====
-- extension/rv64_cpu.c and rv64_jit.c: the 32-bit forms of the compressed instructions. The
-- interpreter (`rv64_step`) and the JIT (`decompress`) have one text for each of them; `ci` is the
-- `uint16_t`, and a name here is that of the instruction.
pub mod Expand
pub mod Decompress
use pglinux.Base.{ℕ, ◌+◌, ◌-◌, ◌*◌, ◌/◌, ◌%◌, ◌^◌, ◌==◌, leb, if◌then◌else◌}
use pglinux.Word.{u32, ◌&&&◌, ◌|||◌, ◌<<<◌, ◌>>>◌}

-- ((ci >> from) & mask) << to
abbrev pub part : ℕ → ℕ → ℕ → ℕ → ℕ
part ci from mask to = (ci >>> from &&& mask) <<< to

-- The registers x8 to x15 in the short fields, and the full fields.
abbrev pub rs1_short : ℕ → ℕ
rs1_short ci = (ci >>> 7 &&& 7) + 8

abbrev pub rd_short : ℕ → ℕ
rd_short ci = (ci >>> 2 &&& 7) + 8

abbrev pub rd_full : ℕ → ℕ
rd_full ci = ci >>> 7 &&& 0x1F

abbrev pub rs2_full : ℕ → ℕ
rs2_full ci = ci >>> 2 &&& 0x1F

-- (imm << k) >> k of an `int32_t`, as its bit pattern.
unfoldable pub sext32 : ℕ → ℕ → ℕ
sext32 imm k =
    let s = u32 (imm <<< k) in
    if leb (2 ^ 31) s then s / 2 ^ k + (2 ^ 32 - 2 ^ (32 - k)) else s / 2 ^ k

abbrev pub i_type : ℕ → ℕ → ℕ → ℕ → ℕ → ℕ
i_type imm rs1 funct3 rd opcode =
    u32 (imm <<< 20) ||| rs1 <<< 15 ||| funct3 <<< 12 ||| rd <<< 7 ||| opcode

abbrev pub s_type : ℕ → ℕ → ℕ → ℕ → ℕ → ℕ
s_type off rs2 rs1 funct3 opcode =
    (off >>> 5 &&& 0x7F) <<< 25
    ||| rs2 <<< 20
    ||| rs1 <<< 15
    ||| funct3 <<< 12
    ||| (off &&& 0x1F) <<< 7
    ||| opcode

abbrev pub r_type : ℕ → ℕ → ℕ → ℕ → ℕ → ℕ → ℕ
r_type funct7 rs2 rs1 funct3 rd opcode =
    funct7 <<< 25 ||| rs2 <<< 20 ||| rs1 <<< 15 ||| funct3 <<< 12 ||| rd <<< 7 ||| opcode

abbrev pub addi4spn_imm : ℕ → ℕ
addi4spn_imm ci = part ci 5 1 3 ||| part ci 6 1 2 ||| part ci 7 0xF 6 ||| part ci 11 3 4

pub addi4spn : ℕ → ℕ
addi4spn ci = i_type (addi4spn_imm ci) 2 0 (rd_short ci) 0x13

abbrev pub off_w : ℕ → ℕ
off_w ci = part ci 5 1 6 ||| part ci 6 1 2 ||| part ci 10 7 3

abbrev pub off_d : ℕ → ℕ
off_d ci = part ci 5 3 6 ||| part ci 10 7 3

pub fld : ℕ → ℕ
fld ci = i_type (off_d ci) (rs1_short ci) 3 (rd_short ci) 0x07

pub lw : ℕ → ℕ
lw ci = i_type (off_w ci) (rs1_short ci) 2 (rd_short ci) 0x03

pub ld : ℕ → ℕ
ld ci = i_type (off_d ci) (rs1_short ci) 3 (rd_short ci) 0x03

pub sw : ℕ → ℕ
sw ci = s_type (off_w ci) (rd_short ci) (rs1_short ci) 2 0x23

pub fsd : ℕ → ℕ
fsd ci = s_type (off_d ci) (rd_short ci) (rs1_short ci) 3 0x27

pub sd : ℕ → ℕ
sd ci = s_type (off_d ci) (rd_short ci) (rs1_short ci) 3 0x23

-- The six-bit immediate, sign-extended, and its low twelve bits.
abbrev pub imm6 : ℕ → ℕ
imm6 ci = sext32 (part ci 12 1 5 ||| (ci >>> 2 &&& 0x1F)) 26 &&& 0xFFF

pub addi : ℕ → ℕ
addi ci = i_type (imm6 ci) (rd_full ci) 0 (rd_full ci) 0x13

pub addiw : ℕ → ℕ
addiw ci = i_type (imm6 ci) (rd_full ci) 0 (rd_full ci) 0x1B

unfoldable pub li : ℕ → ℕ
li ci = i_type (imm6 ci) 0 0 (rd_full ci) 0x13

pub addi16sp : ℕ → ℕ
addi16sp ci =
    i_type
      (sext32
          (part ci 12 1 9 ||| part ci 3 3 7 ||| part ci 5 1 6 ||| part ci 2 1 5 ||| part ci 6 1 4)
          22
        &&& 0xFFF)
      2 0 2 0x13

pub lui : ℕ → ℕ
lui ci =
    (sext32 (part ci 12 1 17 ||| part ci 2 0x1F 12) 14 &&& 0xFFFFF000) ||| rd_full ci <<< 7 ||| 0x37

abbrev pub shamt : ℕ → ℕ
shamt ci = part ci 12 1 5 ||| (ci >>> 2 &&& 0x1F)

pub srli : ℕ → ℕ
srli ci = i_type (shamt ci) (rs1_short ci) 5 (rs1_short ci) 0x13

pub srai : ℕ → ℕ
srai ci = i_type (0x20 <<< 5 ||| shamt ci) (rs1_short ci) 5 (rs1_short ci) 0x13

pub andi : ℕ → ℕ
andi ci = i_type (imm6 ci) (rs1_short ci) 7 (rs1_short ci) 0x13

-- C.SUB, C.XOR, C.OR, C.AND, C.SUBW, C.ADDW
pub arith_short : ℕ → ℕ → ℕ → ℕ → ℕ
arith_short funct7 funct3 opcode ci =
    r_type funct7 (rd_short ci) (rs1_short ci) funct3 (rs1_short ci) opcode

pub jump : ℕ → ℕ
jump ci =
    let imm =
      sext32
        (part ci 12 1 11
          ||| part ci 11 1 4
          ||| part ci 9 3 8
          ||| part ci 8 1 10
          ||| part ci 7 1 6
          ||| part ci 6 1 7
          ||| part ci 3 7 1
          ||| part ci 2 1 5)
        20 in
    part imm 20 1 31 ||| part imm 1 0x3FF 21 ||| part imm 11 1 20 ||| part imm 12 0xFF 12 ||| 0x6F

unfoldable pub branch : ℕ → ℕ → ℕ
branch funct3 ci =
    let off =
      sext32
        (part ci 12 1 8 ||| part ci 10 3 3 ||| part ci 5 3 6 ||| part ci 3 3 1 ||| part ci 2 1 5)
        23 in
    part off 12 1 31
    ||| part off 5 0x3F 25
    ||| part off 1 0xF 8
    ||| part off 11 1 7
    ||| rs1_short ci <<< 15
    ||| funct3 <<< 12
    ||| 0x63

pub slli : ℕ → ℕ
slli ci = i_type (shamt ci) (rd_full ci) 1 (rd_full ci) 0x13

pub lwsp : ℕ → ℕ
lwsp ci = i_type (part ci 12 1 5 ||| part ci 4 7 2 ||| part ci 2 3 6) 2 2 (rd_full ci) 0x03

pub load_sp : ℕ → ℕ → ℕ
load_sp opcode ci =
    i_type (part ci 12 1 5 ||| part ci 5 3 3 ||| part ci 2 7 6) 2 3 (rd_full ci) opcode

pub swsp : ℕ → ℕ
swsp ci = s_type (part ci 9 0xF 2 ||| part ci 7 3 6) (rs2_full ci) 2 2 0x23

pub store_sp : ℕ → ℕ → ℕ
store_sp opcode ci = s_type (part ci 10 7 3 ||| part ci 7 7 6) (rs2_full ci) 2 3 opcode

-- C.JR, C.MV, C.EBREAK, C.JALR, C.ADD
pub jr_mv_add : ℕ → ℕ
jr_mv_add ci =
    if (ci >>> 12 &&& 1) == 0
    then (if rs2_full ci == 0
        then rd_full ci <<< 15 ||| 0x67
        else rs2_full ci <<< 20 ||| rd_full ci <<< 7 ||| 0x33)
    else if rs2_full ci == 0
    then (if rd_full ci == 0 then 0x00100073 else rd_full ci <<< 15 ||| 1 <<< 7 ||| 0x67)
    else r_type 0 (rs2_full ci) (rd_full ci) 0 (rd_full ci) 0x33
