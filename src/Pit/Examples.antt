-- ===== src/Pit/Examples.antt =====
-- The calendar at concrete moments.
use quetzal_os.Base.{ℕ, ◌+◌, ◌*◌, ◌%◌, ◌≤◌, ◌<◌, ◌≡◌, refl, [], ◌∷◌, some, arith}
use quetzal_os.Io.{outb}
use quetzal_os.Pit.{pit_init, pit_get_tonal_time, after_ticks}
use quetzal_os.Pit.Calendar.{tonal_next_day, pit_init_lem}

day_428 : (pit_get_tonal_time 428).sign_name ≡ some "Coatl (Serpent)"
unfolding pit_get_tonal_time
day_428 = refl

init_100_hz : pit_init 100 ≡ some (outb 0x43 0x36 ∷ outb 0x40 0x9b ∷ outb 0x40 0x2e ∷ [])
unfolding pit_init
init_100_hz = refl

tonal_next_day_example :
    let t = pit_get_tonal_time 1250 in
    let u = pit_get_tonal_time (after_ticks 100 1250) in
    (u.trecena_num ≡ t.trecena_num % 13 + 1)
    × (u.veintena_sign ≡ (t.veintena_sign + 1) % 20)
    × (u.total_tonal_days ≡ (t.total_tonal_days + 1) % 260)
tonal_next_day_example = tonal_next_day 1250 (omega arith)

pit_init_lem_example :
    (lo : ℕ) × (hi : ℕ) × (pit_init 100 ≡ some (outb 0x43 0x36 ∷ outb 0x40 lo ∷ outb 0x40 hi ∷ []))
    × (lo < 256)
    × (hi < 256)
    × ((lo + 256 * hi) * 100 ≤ 1193182)
    × (1193182 < (lo + 256 * hi + 1) * 100)
pit_init_lem_example = pit_init_lem 100 (omega arith)
