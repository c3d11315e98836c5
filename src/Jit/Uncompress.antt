-- ===== src/Jit/Uncompress.antt =====
-- extension/rv64_sljit.c: `sljit_uncompress`. 0 stands for an instruction that is left to the
-- interpreter. The expansions other than the two branches have the interpreter's text.
pub mod Agree
use pglinux.Base.{ℕ, ◌+◌, ◌-◌, ◌^◌, ◌==◌, if◌then◌else◌}
use pglinux.Word.{nonzero, ◌&&&◌, ◌|||◌, ◌<<<◌, ◌>>>◌}
use pglinux.Rvc.{
  part, rs1_short, rd_full, addi4spn, fld, lw, ld, sw, fsd, sd, addi, addiw, li, addi16sp, lui,
  srli, srai, andi, arith_short, jump, slli, lwsp, load_sp, swsp, store_sp, jr_mv_add,
}
use pglinux.Rvc.Expand.{funct3c}

unfoldable pub uncompress0 : ℕ → ℕ
uncompress0 ci =
    if funct3c ci == 0
    then addi4spn ci
    else if funct3c ci == 1
    then fld ci
    else if funct3c ci == 2
    then lw ci
    else if funct3c ci == 3
    then ld ci
    else if funct3c ci == 6
    then sw ci
    else if funct3c ci == 5
    then fsd ci
    else if funct3c ci == 7
    then sd ci
    else 0

-- case 4, funct2 3.
unfoldable pub uncompress_ops : ℕ → ℕ
uncompress_ops ci =
    let funct2b = ci >>> 5 &&& 3 in
    if (ci >>> 12 &&& 1) == 0
    then (if funct2b == 0
        then arith_short 0x20 0 0x33 ci
        else if funct2b == 1
        then arith_short 0 4 0x33 ci
        else if funct2b == 2
        then arith_short 0 6 0x33 ci
        else if funct2b == 3
        then arith_short 0 7 0x33 ci
        else 0)
    else if funct2b == 0
    then arith_short 0x20 0 0x3B ci
    else if funct2b == 1
    then arith_short 0 0 0x3B ci
    else 0

-- The offset of C.BEQZ and C.BNEZ, with `if (off & 0x100) off -= 0x200;` on an `int32_t`.
unfoldable pub branch_off : ℕ → ℕ
branch_off ci =
    let off =
      part ci 12 1 8 ||| part ci 10 3 3 ||| part ci 5 3 6 ||| part ci 3 3 1 ||| part ci 2 1 5 in
    if nonzero (off &&& 0x100) then off + 2 ^ 32 - 0x200 else off

unfoldable pub branch_sub : ℕ → ℕ → ℕ
branch_sub funct3 ci =
    let off = branch_off ci in
    part off 12 1 31
    ||| part off 5 0x3F 25
    ||| part off 1 0xF 8
    ||| part off 11 1 7
    ||| rs1_short ci <<< 15
    ||| funct3 <<< 12
    ||| 0x63

unfoldable pub uncompress1 : ℕ → ℕ
uncompress1 ci =
    let funct2 = ci >>> 10 &&& 3 in
    if funct3c ci == 0
    then addi ci
    else if funct3c ci == 1
    then addiw ci
    else if funct3c ci == 2
    then li ci
    else if funct3c ci == 3
    then (if rd_full ci == 2 then addi16sp ci else lui ci)
    else if funct3c ci == 4
    then (if funct2 == 0
        then srli ci
        else if funct2 == 1
        then srai ci
        else if funct2 == 2
        then andi ci
        else if funct2 == 3
        then uncompress_ops ci
        else 0)
    else if funct3c ci == 5
    then jump ci
    else if funct3c ci == 6
    then branch_sub 0 ci
    else if funct3c ci == 7
    then branch_sub 1 ci
    else 0

unfoldable pub uncompress2 : ℕ → ℕ
uncompress2 ci =
    if funct3c ci == 0
    then slli ci
    else if funct3c ci == 2
    then lwsp ci
    else if funct3c ci == 1
    then load_sp 0x07 ci
    else if funct3c ci == 3
    then load_sp 0x03 ci
    else if funct3c ci == 4
    then jr_mv_add ci
    else if funct3c ci == 6
    then swsp ci
    else if funct3c ci == 5
    then store_sp 0x27 ci
    else if funct3c ci == 7
    then store_sp 0x23 ci
    else 0

unfoldable pub sljit_uncompress : ℕ → ℕ
sljit_uncompress ci =
    let quad = ci &&& 3 in
    if quad == 0
    then uncompress0 ci
    else if quad == 1
    then uncompress1 ci
    else if quad == 2
    then uncompress2 ci
    else 0
