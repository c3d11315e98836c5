-- ===== src/Rvc/Decompress.antt =====
-- extension/rv64_jit.c: `decompress`. 0 stands for an instruction that is left to the interpreter.
pub mod Agree
use pglinux.Base.{ℕ, ◌==◌, if◌then◌else◌}
use pglinux.Word.{◌&&&◌, ◌|||◌, ◌>>>◌}
use pglinux.Rvc.{
  rd_full, addi4spn_imm, addi4spn, lw, ld, sw, sd, addi, addiw, li, addi16sp, lui, srli, srai, andi,
  arith_short, jump, branch, slli, lwsp, load_sp, swsp, store_sp, jr_mv_add,
}
use pglinux.Rvc.Expand.{funct3c}

unfoldable pub decompress0 : ℕ → ℕ
decompress0 ci =
    if funct3c ci == 0
    then (if addi4spn_imm ci == 0 then 0 else addi4spn ci)
    else if funct3c ci == 2
    then lw ci
    else if funct3c ci == 3
    then ld ci
    else if funct3c ci == 6
    then sw ci
    else if funct3c ci == 7
    then sd ci
    else 0

pub decompress_ops : ℕ → ℕ
decompress_ops ci =
    let f2b = ci >>> 5 &&& 3 in
    if (ci >>> 12 &&& 1) == 0
    then (if f2b == 0
        then arith_short 0x20 0 0x33 ci
        else if f2b == 1
        then arith_short 0 4 0x33 ci
        else if f2b == 2
        then arith_short 0 6 0x33 ci
        else if f2b == 3
        then arith_short 0 7 0x33 ci
        else 0)
    else if f2b == 0
    then arith_short 0x20 0 0x3B ci
    else if f2b == 1
    then arith_short 0 0 0x3B ci
    else 0

unfoldable pub decompress1 : ℕ → ℕ
decompress1 ci =
    let funct2 = ci >>> 10 &&& 3 in
    if funct3c ci == 0
    then addi ci
    else if funct3c ci == 1
    then addiw ci
    else if funct3c ci == 2
    then li ci
    else if funct3c ci == 3
    then (if rd_full ci == 2 then addi16sp ci else lui ci)
    else if funct3c ci == 4
    then (if funct2 == 0
        then srli ci
        else if funct2 == 1
        then srai ci
        else if funct2 == 2
        then andi ci
        else if funct2 == 3
        then decompress_ops ci
        else 0)
    else if funct3c ci == 5
    then jump ci
    else if funct3c ci == 6
    then branch 0 ci
    else if funct3c ci == 7
    then branch 1 ci
    else 0

unfoldable pub decompress2 : ℕ → ℕ
decompress2 ci =
    if funct3c ci == 0
    then slli ci
    else if funct3c ci == 2
    then lwsp ci
    else if funct3c ci == 3
    then load_sp 0x03 ci
    else if funct3c ci == 4
    then jr_mv_add ci
    else if funct3c ci == 6
    then swsp ci
    else if funct3c ci == 7
    then store_sp 0x23 ci
    else 0

unfoldable pub decompress : ℕ → ℕ
decompress ci =
    let quad = ci &&& 3 in
    if quad == 0
    then decompress0 ci
    else if quad == 1
    then decompress1 ci
    else if quad == 2
    then decompress2 ci
    else 0
