-- ===== src/Base/Bits.antt =====
-- The bits of a byte by evaluation, and `|` of disjoint fields as a sum.
use Prim.Native.Nat.{ℕ, zero, suc, ◌%◌, ◌-◌, ◌^◌, ◌<◌}
use Prim.Native.Nat.{bit_and, bit_or}
use mathlib.Core.Path.{◌≡◌, refl}
use mathlib.Core.Bool.{Bool, true, false, not, ◌&&◌, ◌||◌}
use native.Mathlib.Omega.{arith}
use quetzal_os.Base.Tests.{◌==◌}

-- A test of every value below a bound, by evaluation.
unfoldable pub all_below : ℕ → (ℕ → Bool) → Bool
all_below (suc n) p = all_below n p && p n
all_below zero p = true

pub all_below_sound :
    (bound : ℕ) (p : ℕ → Bool) (i : ℕ) → all_below bound p ≡ true → i < bound → p i ≡ true
unfolding all_below
all_below_sound (suc n) p i h lt = ground (arith, all_below_sound n p i)
all_below_sound zero p i h lt = absurd (omega arith)

-- `b |= 1u << k`, `b &= ~(1u << k)` and `(b & (1u << k)) != 0` at a byte; `~` is on 32 bits.
unfoldable pub byte_set : ℕ → ℕ → ℕ
byte_set b k = bit_or b (2 ^ k) % 256

unfoldable pub byte_clear : ℕ → ℕ → ℕ
byte_clear b k = bit_and b (2 ^ 32 - 1 - 2 ^ k) % 256

unfoldable pub byte_test : ℕ → ℕ → Bool
byte_test b k = not (bit_and b (2 ^ k) == 0)

abbrev same : Bool → Bool → Bool
same true y = y
same false y = not y

same→≡ : (x y : Bool) → same x y ≡ true → x ≡ y
same→≡ x y h = ground arith

abbrev holds_for_bytes : (ℕ → ℕ → ℕ → Bool) → Bool
holds_for_bytes p = all_below 256 (λ b. all_below 8 (λ j. all_below 8 (λ k. p b j k)))

for_bytes :
    (p : ℕ → ℕ → ℕ → Bool)
    → holds_for_bytes p ≡ true
    → (b j k : ℕ) → b < 256
    → j < 8
    → k < 8
    → p b j k ≡ true
for_bytes p h b j k hb hj hk =
    all_below_sound 8 _ k (all_below_sound 8 _ j (all_below_sound 256 _ b h hb) hj) hk

set_law : ℕ → ℕ → ℕ → Bool
set_law b j k = same (byte_test (byte_set b j) k) (j == k || byte_test b k)

clear_law : ℕ → ℕ → ℕ → Bool
clear_law b j k = same (byte_test (byte_clear b j) k) (not (j == k) && byte_test b k)

set_table : holds_for_bytes set_law ≡ true
unfolding all_below set_law byte_set byte_test
set_table = refl

clear_table : holds_for_bytes clear_law ≡ true
unfolding all_below clear_law byte_clear byte_test
clear_table = refl

full_table : all_below 8 (byte_test 255) ≡ true
unfolding all_below byte_test
full_table = refl

module _ (b j k : ℕ) (hb : b < 256) (hj : j < 8) (hk : k < 8) where
  pub test-byte_set : byte_test (byte_set b j) k ≡ (j == k || byte_test b k)
  unfolding set_law
  test-byte_set = same→≡ _ _ (for_bytes set_law set_table b j k hb hj hk)

  pub test-byte_clear : byte_test (byte_clear b j) k ≡ (not (j == k) && byte_test b k)
  unfolding clear_law
  test-byte_clear = same→≡ _ _ (for_bytes clear_law clear_table b j k hb hj hk)

pub test-full : (k : ℕ) → k < 8 → byte_test 255 k ≡ true
test-full k h = all_below_sound 8 _ k full_table h

pub byte_set-lt : (b k : ℕ) → byte_set b k < 256
unfolding byte_set
byte_set-lt b k = omega arith

pub byte_clear-lt : (b k : ℕ) → byte_clear b k < 256
unfolding byte_clear
byte_clear-lt b k = omega arith
