-- ===== src/Decode.antt =====
-- extension/rv64_cpu.c: the fields and immediates of a 32-bit instruction in `rv64_step`.
use pglinux.Base.{ℕ}
use pglinux.Word.{◌&&&◌, ◌|||◌, ◌<<<◌, ◌>>>◌}
use pglinux.Cpu.{sign_extend}

abbrev pub opcode : ℕ → ℕ
opcode insn = insn &&& 0x7F

abbrev pub rd : ℕ → ℕ
rd insn = insn >>> 7 &&& 0x1F

abbrev pub funct3 : ℕ → ℕ
funct3 insn = insn >>> 12 &&& 0x7

abbrev pub rs1 : ℕ → ℕ
rs1 insn = insn >>> 15 &&& 0x1F

abbrev pub rs2 : ℕ → ℕ
rs2 insn = insn >>> 20 &&& 0x1F

abbrev pub funct7 : ℕ → ℕ
funct7 insn = insn >>> 25 &&& 0x7F

unfoldable pub imm_i : ℕ → ℕ
imm_i insn = sign_extend (insn >>> 20) 12

unfoldable pub imm_s : ℕ → ℕ
imm_s insn = sign_extend ((insn >>> 25) <<< 5 ||| (insn >>> 7 &&& 0x1F)) 12

unfoldable pub imm_b : ℕ → ℕ
imm_b insn =
    sign_extend
      ((insn >>> 31 &&& 1) <<< 12
        ||| (insn >>> 7 &&& 1) <<< 11
        ||| (insn >>> 25 &&& 0x3F) <<< 5
        ||| (insn >>> 8 &&& 0xF) <<< 1)
      13

unfoldable pub imm_u : ℕ → ℕ
imm_u insn = sign_extend (insn &&& 0xFFFFF000) 32

unfoldable pub imm_j : ℕ → ℕ
imm_j insn =
    sign_extend
      ((insn >>> 31 &&& 1) <<< 20
        ||| (insn >>> 12 &&& 0xFF) <<< 12
        ||| (insn >>> 20 &&& 1) <<< 11
        ||| (insn >>> 21 &&& 0x3FF) <<< 1)
      21
