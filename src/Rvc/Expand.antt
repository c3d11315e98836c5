-- ===== src/Rvc/Expand.antt =====
-- extension/rv64_cpu.c: the expansion of a compressed instruction in `rv64_step`. `none` is the jump
-- to `illegal_compressed`.
use pglinux.Base.{ℕ, Option, none, some, ◌==◌, if◌then◌else◌}
use pglinux.Word.{◌&&&◌, ◌>>>◌}
use pglinux.Rvc.{
  rd_full, addi4spn, fld, lw, ld, sw, fsd, sd, addi, addiw, li, addi16sp, lui, srli, srai, andi,
  arith_short, jump, branch, slli, lwsp, load_sp, swsp, store_sp, jr_mv_add,
}

abbrev pub funct3c : ℕ → ℕ
funct3c ci = ci >>> 13 &&& 7

unfoldable pub quadrant0 : ℕ → Option ℕ
quadrant0 ci =
    if funct3c ci == 0
    then some (addi4spn ci)
    else if funct3c ci == 1
    then some (fld ci)
    else if funct3c ci == 2
    then some (lw ci)
    else if funct3c ci == 3
    then some (ld ci)
    else if funct3c ci == 6
    then some (sw ci)
    else if funct3c ci == 5
    then some (fsd ci)
    else if funct3c ci == 7
    then some (sd ci)
    else none

-- case 4, funct2 3: the arithmetic on two short registers.
unfoldable pub register_ops : ℕ → Option ℕ
register_ops ci =
    let funct2b = ci >>> 5 &&& 3 in
    if (ci >>> 12 &&& 1) == 0
    then (if funct2b == 0
        then some (arith_short 0x20 0 0x33 ci)
        else if funct2b == 1
        then some (arith_short 0 4 0x33 ci)
        else if funct2b == 2
        then some (arith_short 0 6 0x33 ci)
        else some (arith_short 0 7 0x33 ci))
    else if funct2b == 0
    then some (arith_short 0x20 0 0x3B ci)
    else if funct2b == 1
    then some (arith_short 0 0 0x3B ci)
    else none

unfoldable pub quadrant1 : ℕ → Option ℕ
quadrant1 ci =
    let funct2 = ci >>> 10 &&& 3 in
    if funct3c ci == 0
    then some (addi ci)
    else if funct3c ci == 1
    then some (addiw ci)
    else if funct3c ci == 2
    then some (li ci)
    else if funct3c ci == 3
    then (if rd_full ci == 2 then some (addi16sp ci) else some (lui ci))
    else if funct3c ci == 4
    then (if funct2 == 0
        then some (srli ci)
        else if funct2 == 1
        then some (srai ci)
        else if funct2 == 2
        then some (andi ci)
        else register_ops ci)
    else if funct3c ci == 5
    then some (jump ci)
    else if funct3c ci == 6
    then some (branch 0 ci)
    else some (branch 1 ci)

unfoldable pub quadrant2 : ℕ → Option ℕ
quadrant2 ci =
    if funct3c ci == 0
    then some (slli ci)
    else if funct3c ci == 2
    then some (lwsp ci)
    else if funct3c ci == 1
    then some (load_sp 0x07 ci)
    else if funct3c ci == 3
    then some (load_sp 0x03 ci)
    else if funct3c ci == 4
    then some (jr_mv_add ci)
    else if funct3c ci == 6
    then some (swsp ci)
    else if funct3c ci == 5
    then some (store_sp 0x27 ci)
    else if funct3c ci == 7
    then some (store_sp 0x23 ci)
    else none

-- The switch on the quadrant; it is entered with the low two bits not 3.
unfoldable pub expand : ℕ → Option ℕ
expand ci =
    let quad = ci &&& 3 in
    if quad == 0
    then quadrant0 ci
    else if quad == 1
    then quadrant1 ci
    else if quad == 2
    then quadrant2 ci
    else none
