-- ===== src/Irq/Storm.antt =====
-- extension/rv64_cpu.c: an interrupt that was taken does not interrupt its own handler.
use pglinux.Base.{
  ℕ, ◌*◌, ◌≡◌, refl, ◌∙◌, Bool, true, false, ◌&&◌, ◌||◌, not, ◌==◌, ltb, ap, sym, arith, inl, inr,
  ◌^◌, ◌≤◌, ◌<◌, ◌%◌, ◌/◌,
}
use pglinux.Word.{nonzero, ◌&&&◌, ◌>>>◌}
use pglinux.Cpu.{Cpu, priv_s, priv_m}
use pglinux.Base.{Bool-cases}
use pglinux.Word.Bits.{bit}
use pglinux.Word.Bits.Fields.{and_mask}
use pglinux.Word.Bits.Single.{test_bit}
use pglinux.Trap.{trap, delegated, is_interrupt, cause_code}
use pglinux.Trap.Status.{low_bit}
use pglinux.Trap.Return.{bit-enter_s}
use pglinux.Trap.Machine.{bit-enter_m}
use pglinux.Irq.{IrqLine, mask, cause, takes}

-- Is the line delegated to supervisor mode?
to_s : Cpu → IrqLine → Bool
to_s c l = nonzero (c.mideleg &&& mask l)

code_lem : (l : IrqLine) → l.code < 63 → cause_code (cause l) ≡ l.code
code_lem l h = and_mask 63 (cause l) ∙ omega (arith, h)

interrupt_lem : (l : IrqLine) → l.code < 63 → is_interrupt (cause l) ≡ true
interrupt_lem l h =
    ap nonzero
      (low_bit (cause l / 2 ^ 63) ∙ (let e : cause l / 2 ^ 63 % 2 ≡ 1 = omega (arith, h) in e))

-- `trap` looks at the bit that `check_interrupts` looked at.
delegated_lem :
    (c : Cpu) (l : IrqLine)
    → l.code < 63
    → (c.priv == priv_m) ≡ false
    → delegated c (cause l) ≡ to_s c l
unfolding delegated to_s
delegated_lem c l h p =
    rw (p, interrupt_lem l h, code_lem l h)
      (ap not (
        ap (λ (t : ℕ). t == 0) (low_bit (c.mideleg / 2 ^ l.code))
        ∙ sym (test_bit l.code c.mideleg)
        ∙ ap (λ (t : ℕ). c.mideleg &&& t == 0)
            (let e : 2 ^ l.code ≡ 1 * 2 ^ l.code = omega arith in e)))

-- With SIE clear in supervisor mode a delegated line is not taken.
quiet_s :
    (c : Cpu) (l : IrqLine) → c.priv ≡ 1 → bit 1 c.mstatus ≡ 0 → to_s c l ≡ true → takes c l ≡ false
unfolding takes to_s
quiet_s c l p s d = rw (d, p, low_bit (c.mstatus / 2 ^ 1), s) (none_left l.to_m)
  where
    none_left : (a : Bool) → ((a && false && true) || false) ≡ false
    none_left true = refl
    none_left false = refl

-- With MIE clear in machine mode a line that is not delegated is not taken.
quiet_m :
    (c : Cpu) (l : IrqLine)
    → c.priv ≡ 3
    → bit 3 c.mstatus ≡ 0
    → to_s c l ≡ false
    → takes c l ≡ false
unfolding takes to_s
quiet_m c l p s d = rw (d, p, low_bit (c.mstatus / 2 ^ 3), s) (none_left l.to_m)
  where
    none_left : (a : Bool) → ((a && true && false) || false) ≡ false
    none_left true = refl
    none_left false = refl

below_lem :
    (a u v : Bool) (p : ℕ)
    → ((a && false && u) || (true && (ltb p 1 || (p == 1 && v)))) ≡ true
    → p ≤ 1
below_lem true u true p h = ground arith
below_lem true u false p h = ground arith
below_lem false u true p h = ground arith
below_lem false u false p h = ground arith

-- A delegated line is taken below machine mode alone.
takes_below : (c : Cpu) (l : IrqLine) → takes c l ≡ true → to_s c l ≡ true → c.priv ≤ 1
unfolding takes to_s
takes_below c l t d = below_lem l.to_m _ _ c.priv (
    sym (
      ap
        (λ (b : Bool).
          (l.to_m
            && not b
            && (ltb c.priv priv_m || (c.priv == priv_m && nonzero (c.mstatus >>> 3 &&& 1))))
          || (b && (ltb c.priv priv_s || (c.priv == priv_s && nonzero (c.mstatus >>> 1 &&& 1)))))
        d)
    ∙ t)

again_s :
    (c : Cpu) (l : IrqLine)
    → c.mstatus < 2 ^ 64
    → c.priv ≤ 1
    → delegated c (cause l) ≡ true
    → to_s c l ≡ true
    → takes (trap c (cause l) 0) l ≡ false
unfolding trap to_s
again_s c l h p del d = rw (del) (quiet_s _ l refl (bit-enter_s 1 c.mstatus c.priv h p) d)

again_m :
    (c : Cpu) (l : IrqLine)
    → c.mstatus < 2 ^ 64
    → c.priv ≤ 3
    → delegated c (cause l) ≡ false
    → to_s c l ≡ false
    → takes (trap c (cause l) 0) l ≡ false
unfolding trap to_s
again_m c l h p del d = rw (del) (quiet_m _ l refl (bit-enter_m 3 c.mstatus c.priv h p) d)

machine_stays : (c : Cpu) (cause : ℕ) → (c.priv == priv_m) ≡ true → delegated c cause ≡ false
unfolding delegated
machine_stays c cause p = rw (p) refl

-- A line with a code below 63 that is taken, at a 64-bit mstatus, is not taken again in the state
-- that its trap leaves.
pub takes-trap :
    (c : Cpu) (l : IrqLine)
    → l.code < 63
    → c.mstatus < 2 ^ 64
    → c.priv ≤ 3
    → takes c l ≡ true
    → takes (trap c (cause l) 0) l ≡ false
takes-trap c l small h p t = elim (Bool-cases (to_s c l)) [
  | inl to_super ↦
      let low = takes_below c l t to_super in
      again_s c l h low (delegated_lem c l small (ground arith) ∙ to_super) to_super
  | inr kept_back ↦ elim (Bool-cases (c.priv == priv_m)) [
    | inl machine ↦ again_m c l h p (machine_stays c (cause l) machine) kept_back
    | inr lower ↦ again_m c l h p (delegated_lem c l small lower ∙ kept_back) kept_back
  ]
]
