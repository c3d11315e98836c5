-- ===== src/Trap/Machine.antt =====
-- extension/rv64_cpu.c: a trap to machine mode followed by MRET.
use pglinux.Base.{
  ℕ, ◌+◌, ◌-◌, ◌*◌, ◌≡◌, refl, ◌∙◌, false, ◌&&◌, ◌==◌, leb, ltb, ap, if◌then◌else◌, arith, inl, inr,
  ◌^◌, ◌≤◌, ◌<◌, ◌/◌,
}
use pglinux.Word.{◌&&&◌, ◌|||◌, not64, ◌>>>◌, ◌<<<◌}
use pglinux.Cpu.{Cpu}
use pglinux.Word.Bits.{bit, bit-le-one, bit-or, bits_ext}
use pglinux.Base.{Bool-cases, ==→eq}
use pglinux.Word.Bits.Fields.{and_mask, pow_mono}
use pglinux.Word.Bits.Shift.{bit_of_lt, bit-zero, bit-mod, bit-shr}
use pglinux.Word.Bits.Single.{bit-set, bit-clear}
use pglinux.Word.Bits.Put.{bit-put, put-lt}
use pglinux.Trap.Status.{put1, put1-lt, clear-lt, set-lt, low_bit}
use pglinux.Trap.{enter_m, delegated, trap, mret, set_field}

-- MPP replaced.
put_mpp :
    (k m p : ℕ)
    → m < 2 ^ 64
    → p ≤ 3
    → bit k (set_field m (3 * 2 ^ 11) (p * 2 ^ 11))
      ≡ (if leb 11 k && ltb k 13 then bit (k - 11) p else bit k m)
put_mpp k m p h g = bit-put k 11 2 64 m p h (omega (arith, g)) (omega arith)

put_mpp-lt : (m p : ℕ) → m < 2 ^ 64 → p ≤ 3 → set_field m (3 * 2 ^ 11) (p * 2 ^ 11) < 2 ^ 64
put_mpp-lt m p h g = put-lt 11 2 64 m p h (omega (arith, g)) (omega arith)

-- Entering machine mode moves MIE to MPIE, clears MIE and records the privilege in MPP.
pub bit-enter_m :
    (k m priv : ℕ)
    → m < 2 ^ 64
    → priv ≤ 3
    → bit k (enter_m m priv) ≡ (
        if k == 3
        then 0
        else if k == 7
        then bit 3 m
        else if leb 11 k && ltb k 13
        then bit (k - 11) priv
        else bit k m)
unfolding enter_m
bit-enter_m k m priv h g =
    let mie = m >>> 3 &&& 1 in
    let is_bit : mie ≤ 1 = omega (arith, low_bit (m / 2 ^ 3), bit-le-one 3 m) in
    let saved = set_field m (2 ^ 7) (mie * 2 ^ 7) in
    let fits = put1-lt 7 m mie h is_bit (omega arith) in
    ground (
      arith,
      put_mpp k (saved &&& not64 (2 ^ 3)) priv (clear-lt 3 saved fits (omega arith)) g,
      bit-clear k 3 64 saved fits (omega arith),
      put1 k 7 m mie h is_bit (omega arith),
      low_bit (m / 2 ^ 3),
    )

pub enter_m-lt : (m priv : ℕ) → m < 2 ^ 64 → priv ≤ 3 → enter_m m priv < 2 ^ 64
unfolding enter_m
enter_m-lt m priv h g =
    let mie = m >>> 3 &&& 1 in
    let is_bit : mie ≤ 1 = omega (arith, low_bit (m / 2 ^ 3), bit-le-one 3 m) in
    put_mpp-lt _ priv (clear-lt 3 _ (put1-lt 7 m mie h is_bit (omega arith)) (omega arith)) g

-- MPP cleared.
bit-drop_mpp :
    (k m : ℕ)
    → m < 2 ^ 64
    → bit k (m &&& not64 (3 * 2 ^ 11)) ≡ (if leb 11 k && ltb k 13 then 0 else bit k m)
bit-drop_mpp k m h = ground (
  arith,
  bit-or k (m &&& not64 (3 * 2 ^ 11)) (0 * 2 ^ 11),
  put_mpp k m 0 h (omega arith),
  bit-zero k,
  bit-zero (k - 11),
)

-- mstatus after MRET.
leave_m : ℕ → ℕ
leave_m m = (set_field m (2 ^ 3) ((m >>> 7 &&& 1) <<< 3) ||| 2 ^ 7) &&& not64 (3 * 2 ^ 11)

bit-leave_m :
    (k m : ℕ)
    → m < 2 ^ 64
    → bit k (leave_m m) ≡ (
        if k == 3
        then bit 7 m
        else if k == 7
        then 1
        else if leb 11 k && ltb k 13
        then 0
        else bit k m)
unfolding leave_m
bit-leave_m k m h =
    let mpie = m >>> 7 &&& 1 in
    let is_bit : mpie ≤ 1 = omega (arith, low_bit (m / 2 ^ 7), bit-le-one 7 m) in
    let restored = set_field m (2 ^ 3) (mpie * 2 ^ 3) in
    let fits = set-lt 7 restored (put1-lt 3 m mpie h is_bit (omega arith)) (omega arith) in
    ground (
      arith,
      bit-drop_mpp k (restored ||| 2 ^ 7) fits,
      bit-set k 7 restored,
      put1 k 3 m mpie h is_bit (omega arith),
      low_bit (m / 2 ^ 7),
    )

bit-leave_m-enter_m :
    (k m priv : ℕ)
    → m < 2 ^ 64
    → priv ≤ 3
    → bit k (leave_m (enter_m m priv))
      ≡ (if k == 7 then 1 else if leb 11 k && ltb k 13 then 0 else bit k m)
bit-leave_m-enter_m k m priv h g =
    let e = bit-leave_m k (enter_m m priv) (enter_m-lt m priv h g) in
    elim (Bool-cases (k == 3)) [
      | inl same ↦
          ground (arith, e, bit-enter_m 7 m priv h g, ap (λ (t : ℕ). bit t m) (==→eq k 3 same))
      | inr other ↦ ground (arith, e, bit-enter_m k m priv h g)
    ]

mpp-enter_m : (m priv : ℕ) → m < 2 ^ 64 → priv ≤ 3 → (enter_m m priv >>> 11 &&& 3) ≡ priv
mpp-enter_m m priv h g =
    let e = enter_m m priv in
    and_mask 2 (e / 2 ^ 11)
    ∙ bits_ext _ _ λ k. elim (Bool-cases (ltb k 2)) [
      | inl lt ↦
          ground (arith, bit-mod k 2 (e / 2 ^ 11), bit-shr k 11 e, bit-enter_m (k + 11) m priv h g)
      | inr ge ↦ ground (
        arith,
        bit-mod k 2 (e / 2 ^ 11),
        bit_of_lt k priv (omega (arith, g, pow_mono 2 k (ground arith))),
      )
    ]

-- A trap that is not delegated, then MRET: the pc, the privilege and the registers come back; so
-- does a 64-bit mstatus, but for MPIE, which is set, and MPP, which is cleared.
pub trap-mret :
    (k cause tval : ℕ) (c : Cpu)
    → c.mstatus < 2 ^ 64
    → c.priv ≤ 3
    → delegated c cause ≡ false
    → ((mret (trap c cause tval)).1 ≡ c.pc)
      × ((mret (trap c cause tval)).0.priv ≡ c.priv)
      × ((mret (trap c cause tval)).0.x ≡ c.x)
      × (bit k (mret (trap c cause tval)).0.mstatus
          ≡ (if k == 7 then 1 else if leb 11 k && ltb k 13 then 0 else bit k c.mstatus))
unfolding trap mret leave_m
trap-mret k cause tval c h g del =
    rw (del)
      (refl, mpp-enter_m c.mstatus c.priv h g, refl, bit-leave_m-enter_m k c.mstatus c.priv h g)
