-- ===== src/Pit/Calendar.antt =====
-- The calendar: ranges, one name for each day of the cycle, the step from day to day.
use Prim.Native.String.{String}
use native.Mathlib.Nat.{div-add-mod, mod-lt}
use quetzal_os.Base.{
  ◌↔◌, ℕ, zero, suc, ◌+◌, ◌*◌, ◌/◌, ◌%◌, ◌^◌, ◌≤◌, ◌<◌, ◌≡◌, refl, List, [], ◌∷◌, some, arith, u64,
  length, u8,
}
use quetzal_os.Io.{outb}
use quetzal_os.Pit.{pit_init, pit_handler, pit_get_tonal_time, after_ticks, day_signs, sign_at}

sign_at-some : (xs : List String) (i : ℕ) → i < length xs → (x : String) × (sign_at xs i ≡ some x)
sign_at-some [] i h = absurd (omega arith)
sign_at-some (x ∷ xs) zero h = (x, refl)
sign_at-some (x ∷ xs) (suc i) h = sign_at-some xs i (omega arith)

-- The trecena number is 1 to 13, the day sign 0 to 19 and has a name, and the day is below 260.
pub tonal_bounds :
    (now : ℕ)
    → let t = pit_get_tonal_time now in
      (1 ≤ t.trecena_num)
      × (t.trecena_num ≤ 13)
      × (t.veintena_sign < 20)
      × (t.total_tonal_days < 260)
      × ((name : String) × (t.sign_name ≡ some name))
unfolding pit_get_tonal_time
tonal_bounds now = (
  omega arith,
  omega arith,
  omega arith,
  omega arith,
  sign_at-some day_signs (now / 100 % 260 % 2 ^ 32 % 20) (omega arith),
)

-- Number and sign together name the day of the 260-day cycle: two moments that show the same
-- number and the same sign lie on the same day of the cycle.
pub tonal_day_unique :
    (now later : ℕ)
    → (pit_get_tonal_time now).trecena_num ≡ (pit_get_tonal_time later).trecena_num
    → (pit_get_tonal_time now).veintena_sign ≡ (pit_get_tonal_time later).veintena_sign
    → (pit_get_tonal_time now).total_tonal_days ≡ (pit_get_tonal_time later).total_tonal_days
unfolding pit_get_tonal_time
tonal_day_unique now later h k = omega arith

after_ticks-mod : (n ticks : ℕ) → ticks < 2 ^ 64 → after_ticks n ticks ≡ u64 (ticks + n)
unfolding after_ticks pit_handler
after_ticks-mod zero ticks h = omega arith
after_ticks-mod (suc n) ticks h = omega (arith, after_ticks-mod n (u64 (ticks + 1)) (omega arith))

-- While the 64-bit counter does not wrap: 100 interrupts after a moment the number has moved on by
-- one, from 13 to 1, and the sign by one, from 19 to 0.
pub tonal_next_day :
    (ticks : ℕ)
    → ticks + 100 < 2 ^ 64
    → let t = pit_get_tonal_time ticks in
      let u = pit_get_tonal_time (after_ticks 100 ticks) in
      (u.trecena_num ≡ t.trecena_num % 13 + 1)
      × (u.veintena_sign ≡ (t.veintena_sign + 1) % 20)
      × (u.total_tonal_days ≡ (t.total_tonal_days + 1) % 260)
unfolding pit_get_tonal_time
tonal_next_day ticks h =
    let moved : after_ticks 100 ticks ≡ ticks + 100 =
      omega (arith, after_ticks-mod 100 ticks (omega arith)) in
    rw moved (omega arith)

-- While the counter does not wrap: among 1 to 260 whole days of 100 interrupts, the day of the
-- cycle comes round after 260 and no fewer.
pub tonal_cycle :
    (ticks days : ℕ)
    → ticks + 100 * days < 2 ^ 64
    → 0 < days
    → days ≤ 260
    → ((pit_get_tonal_time (after_ticks (100 * days) ticks)).total_tonal_days
        ≡ (pit_get_tonal_time ticks).total_tonal_days)
      ↔ (days ≡ 260)
unfolding pit_get_tonal_time
tonal_cycle ticks days h pos le = (
  λ e. omega (arith, after_ticks-mod (100 * days) ticks (omega arith)),
  λ e. omega (arith, after_ticks-mod (100 * days) ticks (omega arith)),
)

divisor-mul :
    (hz : ℕ) → 0 < hz → (1193182 / hz * hz ≤ 1193182) × (1193182 < (1193182 / hz + 1) * hz)
divisor-mul hz h = grind (arith, div-add-mod 1193182 hz, mod-lt)

divisor-lt : (hz : ℕ) → 19 ≤ hz → 1193182 / hz < 65536
divisor-lt hz h = grind (arith, divisor-mul hz (omega arith))

-- From 19 Hz on, `pit_init` writes the command byte and then the low and the high byte of the
-- largest divisor whose product with the frequency is at most 1193182.
pub pit_init_lem :
    (hz : ℕ)
    → 19 ≤ hz
    → (lo : ℕ) × (hi : ℕ) × (pit_init hz ≡ some (outb 0x43 0x36 ∷ outb 0x40 lo ∷ outb 0x40 hi ∷ []))
      × (lo < 256)
      × (hi < 256)
      × ((lo + 256 * hi) * hz ≤ 1193182)
      × (1193182 < (lo + 256 * hi + 1) * hz)
unfolding pit_init
pit_init_lem hz h = (
  u8 (1193182 / hz % 256),
  u8 (1193182 / hz / 256 % 256),
  ground arith,
  omega arith,
  omega arith,
  rw divisor_is (divisor-mul hz (omega arith)).0,
  rw divisor_is (divisor-mul hz (omega arith)).1,
)
  where
    divisor_is : u8 (1193182 / hz % 256) + 256 * u8 (1193182 / hz / 256 % 256) ≡ 1193182 / hz
    divisor_is = omega (arith, divisor-lt hz h)
