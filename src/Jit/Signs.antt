-- ===== src/Jit/Signs.antt =====
-- extension/rv64_sljit.c and rv64_cpu.c: the immediates of the JIT are those of the interpreter.
use pglinux.Base.{ℕ, ◌+◌, ◌-◌, ◌/◌, ◌^◌, ◌<◌, ◌≡◌, ap, ◌∙◌, sym, ltb, if◌then◌else◌, arith}
use pglinux.Word.{◌&&&◌, ◌|||◌, ◌<<<◌, ◌>>>◌}
use pglinux.Word.Bits.{bits_ext, bit-or}
use pglinux.Word.Bits.Fields.{and_mask}
use pglinux.Word.Bits.Single.{test_bit}
use pglinux.Word.Bits.Top.{xor_top}
use pglinux.Word.Bits.Put.{or_lt, and_lt}
use pglinux.Cpu.{sign_extend}
use pglinux.Decode.{imm_i, imm_s, imm_b, imm_u, imm_j}
use pglinux.Jit.Emit.{imm20, upper, jal_off, branch_off, store_imm, minus_sign}

-- The interpreter's extension of `n + 1` bits.
extended :
    (v : ℕ) → v < 2 ^ 12 → sign_extend v 12 ≡ (if ltb v (2 ^ 11) then v else v + 2 ^ 64 - 2 ^ 12)
unfolding sign_extend
extended v h = ground (arith, h, xor_top 11 v)

extended13 :
    (v : ℕ) → v < 2 ^ 13 → sign_extend v 13 ≡ (if ltb v (2 ^ 12) then v else v + 2 ^ 64 - 2 ^ 13)
unfolding sign_extend
extended13 v h = ground (arith, h, xor_top 12 v)

extended21 :
    (v : ℕ) → v < 2 ^ 21 → sign_extend v 21 ≡ (if ltb v (2 ^ 20) then v else v + 2 ^ 64 - 2 ^ 21)
unfolding sign_extend
extended21 v h = ground (arith, h, xor_top 20 v)

extended32 :
    (v : ℕ) → v < 2 ^ 32 → sign_extend v 32 ≡ (if ltb v (2 ^ 31) then v else v + 2 ^ 64 - 2 ^ 32)
unfolding sign_extend
extended32 v h = ground (arith, h, xor_top 31 v)

pub imm20-imm_i : (insn : ℕ) → insn < 2 ^ 32 → imm20 insn ≡ imm_i insn
unfolding imm20 imm_i
imm20-imm_i insn h = ground (arith, h, extended (insn / 2 ^ 20))

pub upper-imm_u : (insn : ℕ) → insn < 2 ^ 32 → upper insn ≡ imm_u insn
unfolding upper imm_u
upper-imm_u insn h =
    ground (arith, h, extended32 (insn &&& 0xFFFFF000), and_lt 32 insn 0xFFFFF000 (omega arith))

minus_sign12 :
    (v : ℕ) → v < 2 ^ 12 → minus_sign v 12 ≡ (if ltb v (2 ^ 11) then v else v + 2 ^ 64 - 2 ^ 12)
minus_sign12 v h = ground (arith, h, test_bit 11 v)

minus_sign13 :
    (v : ℕ) → v < 2 ^ 13 → minus_sign v 13 ≡ (if ltb v (2 ^ 12) then v else v + 2 ^ 64 - 2 ^ 13)
minus_sign13 v h = ground (arith, h, test_bit 12 v)

minus_sign21 :
    (v : ℕ) → v < 2 ^ 21 → minus_sign v 21 ≡ (if ltb v (2 ^ 20) then v else v + 2 ^ 64 - 2 ^ 21)
minus_sign21 v h = ground (arith, h, test_bit 20 v)

pub store_imm-imm_s : (insn : ℕ) → insn < 2 ^ 32 → store_imm insn ≡ imm_s insn
unfolding store_imm imm_s
store_imm-imm_s insn h =
    let v = (insn >>> 25) <<< 5 ||| (insn >>> 7 &&& 0x1F) in
    let fits : v < 2 ^ 12 =
      or_lt 12 ((insn >>> 25) <<< 5) (insn >>> 7 &&& 0x1F) (omega (arith, h))
        (omega (arith, and_mask 5 (insn >>> 7))) in
    minus_sign12 v fits ∙ sym (extended v fits)

pub branch_off-imm_b : (insn : ℕ) → branch_off insn ≡ imm_b insn
unfolding branch_off imm_b
branch_off-imm_b insn = minus_sign13 _ fits ∙ sym (extended13 _ fits)
  where
    fits :
        ((insn >>> 31 &&& 1) <<< 12
          ||| (insn >>> 7 &&& 1) <<< 11
          ||| (insn >>> 25 &&& 0x3F) <<< 5
          ||| (insn >>> 8 &&& 0xF) <<< 1)
        < 2 ^ 13
    fits =
        or_lt 13 _ _
          (or_lt 13 _ _
            (or_lt 13 _ _ (omega (arith, and_mask 1 (insn >>> 31)))
              (omega (arith, and_mask 1 (insn >>> 7))))
            (omega (arith, and_mask 6 (insn >>> 25))))
          (omega (arith, and_mask 4 (insn >>> 8)))

-- The fields of the offset of JAL, in the order of the interpreter.
reorder : (a b c d : ℕ) → (a ||| b ||| c ||| d) ≡ (a ||| d ||| c ||| b)
reorder a b c d = bits_ext _ _ λ k. omega (
  arith,
  bit-or k (a ||| b ||| c) d,
  bit-or k (a ||| b) c,
  bit-or k a b,
  bit-or k (a ||| d ||| c) b,
  bit-or k (a ||| d) c,
  bit-or k a d,
)

pub jal_off-imm_j : (insn : ℕ) → jal_off insn ≡ imm_j insn
unfolding jal_off imm_j
jal_off-imm_j insn =
    ap (λ (v : ℕ). minus_sign v 21)
      (reorder ((insn >>> 31 &&& 1) <<< 20) ((insn >>> 21 &&& 0x3FF) <<< 1)
        ((insn >>> 20 &&& 1) <<< 11) ((insn >>> 12 &&& 0xFF) <<< 12))
    ∙ minus_sign21 _ fits
    ∙ sym (extended21 _ fits)
  where
    fits :
        ((insn >>> 31 &&& 1) <<< 20
          ||| (insn >>> 12 &&& 0xFF) <<< 12
          ||| (insn >>> 20 &&& 1) <<< 11
          ||| (insn >>> 21 &&& 0x3FF) <<< 1)
        < 2 ^ 21
    fits =
        or_lt 21 _ _
          (or_lt 21 _ _
            (or_lt 21 _ _ (omega (arith, and_mask 1 (insn >>> 31)))
              (omega (arith, and_mask 8 (insn >>> 12))))
            (omega (arith, and_mask 1 (insn >>> 20))))
          (omega (arith, and_mask 10 (insn >>> 21)))

pub store_imm-lt : (insn : ℕ) → insn < 2 ^ 32 → store_imm insn < 2 ^ 64
unfolding store_imm
store_imm-lt insn h =
    let v = (insn >>> 25) <<< 5 ||| (insn >>> 7 &&& 0x1F) in
    let fits : v < 2 ^ 12 =
      or_lt 12 ((insn >>> 25) <<< 5) (insn >>> 7 &&& 0x1F) (omega (arith, h))
        (omega (arith, and_mask 5 (insn >>> 7))) in
    ground (arith, fits)
