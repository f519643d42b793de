-- ===== src/Base/Or.antt =====
-- `|` of a shifted value and a nibble is their sum. The native operation stands for a recursion on
-- binary digits; one digit is taken off at a time.
use Prim.Native.Nat.{
  ℕ, zero, suc, ◌+◌, ◌*◌, ◌/◌, ◌%◌, ◌-◌, ◌^◌, ◌≤◌, ◌<◌, max, bit_or, digits, bit_or-bitwise,
}
use mathlib.Core.Path.{◌≡◌, refl, sym, ◌∙◌}
use native.Mathlib.Omega.{arith}

-- The recursion, with the digits it may read.
abbrev joined : ℕ → ℕ → ℕ → ℕ
joined fuel = digits (λ y. y) max fuel

joined_zero : (fuel b : ℕ) → joined fuel 0 b ≡ b
joined_zero (suc fuel) b = refl
joined_zero zero b = refl

-- Digits to spare change nothing.
joined_spare : (k fuel a b : ℕ) → a ≤ fuel → joined (fuel + k) a b ≡ joined fuel a b
joined_spare k fuel zero b h = joined_zero (fuel + k) b ∙ sym (joined_zero fuel b)
joined_spare k zero (suc a) b h = absurd (omega arith)
joined_spare k (suc fuel) (suc a) b h =
    let more : suc fuel + k ≡ suc (fuel + k) = omega arith in
    let rest = joined_spare k fuel (suc a / 2) (b / 2) (omega arith) in
    rw more (omega (arith, rest))

joined_enough : (fuel a b : ℕ) → a ≤ fuel → joined fuel a b ≡ bit_or a b
joined_enough fuel a b h =
    let split : fuel ≡ a + (fuel - a) = omega arith in
    rw (bit_or-bitwise a b) (rw split (joined_spare (fuel - a) a a b (omega arith)))

or_last : (a b : ℕ) → bit_or a b ≡ bit_or (a / 2) (b / 2) * 2 + max (a % 2) (b % 2)
or_last (suc a) b = omega (
  arith,
  joined_enough (suc a) (suc a) b (omega arith),
  joined_enough a (suc a / 2) (b / 2) (omega arith),
)
or_last zero b =
    omega (arith, joined_enough 0 0 b (omega arith), joined_enough 0 0 (b / 2) (omega arith))

or_zero_upto : (n a : ℕ) → a ≤ n → bit_or a 0 ≡ a
or_zero_upto n zero h = refl
or_zero_upto zero (suc a) h = absurd (omega arith)
or_zero_upto (suc n) (suc a) h =
    omega (arith, or_last (suc a) 0, or_zero_upto n (suc a / 2) (omega arith))

or_shifted : (m d : ℕ) → bit_or (m * 2) d ≡ bit_or m (d / 2) * 2 + d % 2
or_shifted m d =
    let half : m * 2 / 2 ≡ m = omega arith in
    let step = or_last (m * 2) d in let step' = rw half at step in omega (arith, step')

-- `(m << 4) | d` for a digit `d`.
pub or_nibble : (m d : ℕ) → d < 16 → bit_or (m * 16) d ≡ m * 16 + d
or_nibble m d h =
    let split : m * 16 ≡ m * 2 * 2 * 2 * 2 = omega arith in
    let none_left : d / 2 / 2 / 2 / 2 ≡ 0 = omega arith in
    let top : bit_or m (d / 2 / 2 / 2 / 2) ≡ m = rw none_left (or_zero_upto m m (omega arith)) in
    rw split (
      omega (
        arith,
        or_shifted (m * 2 * 2 * 2) d,
        or_shifted (m * 2 * 2) (d / 2),
        or_shifted (m * 2) (d / 2 / 2),
        or_shifted m (d / 2 / 2 / 2),
        top,
      ))

pow_suc : (n : ℕ) → 2 ^ suc n ≡ 2 ^ n * 2
pow_suc n = omega arith

-- `(m << n) | d` for a `d` of `n` bits.
pub or_shift : (n m d : ℕ) → d < 2 ^ n → bit_or (m * 2 ^ n) d ≡ m * 2 ^ n + d
or_shift zero m d h =
    let nothing : d ≡ 0 = omega arith in
    let one : m * 2 ^ 0 ≡ m = omega arith in
    rw (nothing, one) (or_zero_upto m m (omega arith) ∙ omega arith)
or_shift (suc n) m d h =
    let twice : 2 ^ suc n ≡ 2 ^ n * 2 = pow_suc n in
    let split : m * 2 ^ suc n ≡ m * 2 ^ n * 2 = rw twice (grind arith) in
    let fits : d / 2 < 2 ^ n = omega (arith, twice) in
    let rest = or_shift n m (d / 2) fits in
    rw split (or_shifted (m * 2 ^ n) d ∙ omega (arith, rest))

max_comm : (a b : ℕ) → max a b ≡ max b a
max_comm a b = omega arith

pub or_comm_upto : (n a b : ℕ) → a ≤ n → b ≤ n → bit_or a b ≡ bit_or b a
or_comm_upto zero a b ha hb =
    let x : a ≡ 0 = omega arith in let y : b ≡ 0 = omega arith in rw (x, y) refl
or_comm_upto (suc n) a b ha hb = omega (
  arith,
  or_last a b,
  or_last b a,
  or_comm_upto n (a / 2) (b / 2) (omega arith) (omega arith),
  max_comm (a % 2) (b % 2),
)
