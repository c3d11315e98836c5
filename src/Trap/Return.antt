-- ===== src/Trap/Return.antt =====
-- extension/rv64_cpu.c: a trap followed by the return instruction of its mode.
use pglinux.Base.{
  ℕ, ◌*◌, ◌/◌, ◌^◌, ◌≤◌, ◌<◌, ◌≡◌, ap, arith, true, ◌==◌, if◌then◌else◌, Bool-cases, inl, inr,
  ==→eq, refl, ◌∙◌,
}
use pglinux.Word.{not64, ◌&&&◌, ◌|||◌, ◌<<<◌, ◌>>>◌}
use pglinux.Word.Bits.{bit, bit-le-one}
use pglinux.Word.Bits.Fields.{pow_mono}
use pglinux.Word.Bits.Shift.{bit_of_lt}
use pglinux.Word.Bits.Single.{bit-set, bit-clear}
use pglinux.Word.Bits.Put.{lt_of_bits}
use pglinux.Cpu.{Cpu}
use pglinux.Trap.{enter_s, delegated, trap, sret, set_field}
use pglinux.Trap.Status.{put1, put1-lt, clear-lt, set-lt, low_bit}

enter_bits :
    (k m d p : ℕ)
    → m < 2 ^ 64
    → d ≤ 1
    → p ≤ 1
    → bit k (set_field (set_field m (2 ^ 5) (d * 2 ^ 5) &&& not64 (2 ^ 1)) (2 ^ 8) (p * 2 ^ 8))
      ≡ (if k == 1 then 0 else if k == 5 then d else if k == 8 then p else bit k m)
enter_bits k m d p h g f =
    let saved = set_field m (2 ^ 5) (d * 2 ^ 5) in
    let fits = put1-lt 5 m d h g (omega arith) in
    ground (
      arith,
      put1 k 8 (saved &&& not64 (2 ^ 1)) p (clear-lt 1 saved fits (omega arith)) f (omega arith),
      bit-clear k 1 64 saved fits (omega arith),
      put1 k 5 m d h g (omega arith),
    )

leave_bits :
    (k m d : ℕ)
    → m < 2 ^ 64
    → d ≤ 1
    → bit k ((set_field m (2 ^ 1) (d * 2 ^ 1) ||| 2 ^ 5) &&& not64 (2 ^ 8))
      ≡ (if k == 1 then d else if k == 5 then 1 else if k == 8 then 0 else bit k m)
leave_bits k m d h g =
    let restored = set_field m (2 ^ 1) (d * 2 ^ 1) in
    ground (
      arith,
      bit-clear k 8 64 (restored ||| 2 ^ 5)
          (set-lt 5 restored (put1-lt 1 m d h g (omega arith)) (omega arith)) (omega arith),
      bit-set k 5 restored,
      put1 k 1 m d h g (omega arith),
    )

-- Entering supervisor mode moves SIE to SPIE, clears SIE, records the privilege in SPP and keeps
-- the other bits.
pub bit-enter_s :
    (k m priv : ℕ)
    → m < 2 ^ 64
    → priv ≤ 1
    → bit k (enter_s m priv)
      ≡ (if k == 1 then 0 else if k == 5 then bit 1 m else if k == 8 then priv else bit k m)
unfolding enter_s
bit-enter_s k m priv h g =
    enter_bits k m _ priv h (omega (arith, low_bit (m / 2 ^ 1), bit-le-one 1 m)) g
    ∙ ap (λ (t : ℕ). if k == 1 then 0 else if k == 5 then t else if k == 8 then priv else bit k m)
        (low_bit (m / 2 ^ 1))

enter_s-lt : (m priv : ℕ) → m < 2 ^ 64 → priv ≤ 1 → enter_s m priv < 2 ^ 64
enter_s-lt m priv h g = lt_of_bits 64 _ λ k l.
    ground (arith, bit-enter_s k m priv h g, bit_of_lt k m (omega (arith, h, pow_mono 64 k l)))

-- mstatus after SRET.
leave_s : ℕ → ℕ
leave_s m = (set_field m (2 ^ 1) ((m >>> 5 &&& 1) <<< 1) ||| 2 ^ 5) &&& not64 (2 ^ 8)

bit-leave_s :
    (k m : ℕ)
    → m < 2 ^ 64
    → bit k (leave_s m)
      ≡ (if k == 1 then bit 5 m else if k == 5 then 1 else if k == 8 then 0 else bit k m)
unfolding leave_s
bit-leave_s k m h =
    leave_bits k m _ h (omega (arith, low_bit (m / 2 ^ 5), bit-le-one 5 m))
    ∙ ap (λ (t : ℕ). if k == 1 then t else if k == 5 then 1 else if k == 8 then 0 else bit k m)
        (low_bit (m / 2 ^ 5))

bit-leave_s-enter_s :
    (k m priv : ℕ)
    → m < 2 ^ 64
    → priv ≤ 1
    → bit k (leave_s (enter_s m priv)) ≡ (if k == 5 then 1 else if k == 8 then 0 else bit k m)
bit-leave_s-enter_s k m priv h g = elim (Bool-cases (k == 1)) [
  | inl same ↦ ground (
    arith,
    bit-leave_s k (enter_s m priv) (enter_s-lt m priv h g),
    bit-enter_s 5 m priv h g,
    ap (λ (t : ℕ). bit t m) (==→eq k 1 same),
  )
  | inr other ↦
      ground
        (arith, bit-leave_s k (enter_s m priv) (enter_s-lt m priv h g), bit-enter_s k m priv h g)
]

spp-enter_s : (m priv : ℕ) → m < 2 ^ 64 → priv ≤ 1 → (enter_s m priv >>> 8 &&& 1) ≡ priv
spp-enter_s m priv h g = low_bit (enter_s m priv / 2 ^ 8) ∙ ground (arith, bit-enter_s 8 m priv h g)

-- A trap from user or supervisor mode that is delegated to supervisor mode, then SRET: the pc, the
-- privilege and the registers come back; so does a 64-bit mstatus, but for SPIE, which is set, and
-- SPP, which is cleared.
pub trap-sret :
    (k cause tval : ℕ) (c : Cpu)
    → c.mstatus < 2 ^ 64
    → c.priv ≤ 1
    → delegated c cause ≡ true
    → ((sret (trap c cause tval)).1 ≡ c.pc)
      × ((sret (trap c cause tval)).0.priv ≡ c.priv)
      × ((sret (trap c cause tval)).0.x ≡ c.x)
      × (bit k (sret (trap c cause tval)).0.mstatus
          ≡ (if k == 5 then 1 else if k == 8 then 0 else bit k c.mstatus))
unfolding trap sret leave_s
trap-sret k cause tval c h g del =
    rw (del)
      (refl, spp-enter_s c.mstatus c.priv h g, refl, bit-leave_s-enter_s k c.mstatus c.priv h g)
