-- ===== src/Phys/Bitmap.antt =====
-- What one page's bit says after another page's bit was written.
use quetzal_os.Base.{
  ℕ, ◌/◌, ◌%◌, ◌≤◌, ◌<◌, ◌≡◌, true, not, ◌&&◌, ◌||◌, ◌==◌, test-byte_set, test-byte_clear,
  test-full, byte_set-lt, byte_clear-lt, arith,
}
use quetzal_os.Phys.{total_pages, set_bit, clear_bit, test_bit}

-- Every cell of the bitmap holds a byte.
abbrev pub IsBytes : (ℕ → ℕ) → Type 0
IsBytes bm = (i : ℕ) → bm i < 256

pub set_bit-IsBytes : (bm : ℕ → ℕ) (p : ℕ) → IsBytes bm → IsBytes (set_bit bm p)
unfolding set_bit
set_bit-IsBytes bm p v i = ground (arith, v i, byte_set-lt (bm (p / 8)) (p % 8))

pub clear_bit-IsBytes : (bm : ℕ → ℕ) (p : ℕ) → IsBytes bm → IsBytes (clear_bit bm p)
unfolding clear_bit
clear_bit-IsBytes bm p v i = ground (arith, v i, byte_clear-lt (bm (p / 8)) (p % 8))

module _ (bm : ℕ → ℕ) (p q : ℕ) (v : IsBytes bm) where
  pub test_bit-set_bit : test_bit (set_bit bm p) q ≡ (p == q || test_bit bm q)
  unfolding set_bit test_bit
  test_bit-set_bit =
      ground
        (arith, test-byte_set (bm (p / 8)) (p % 8) (q % 8) (v (p / 8)) (omega arith) (omega arith))

  pub test_bit-clear_bit :
      p < total_pages → test_bit (clear_bit bm p) q ≡ (not (p == q) && test_bit bm q)
  unfolding clear_bit test_bit
  test_bit-clear_bit h =
      ground (
        arith,
        test-byte_clear (bm (p / 8)) (p % 8) (q % 8) (v (p / 8)) (omega arith) (omega arith),
      )

-- A page past the end counts as reserved.
pub test_bit_past : (bm : ℕ → ℕ) (q : ℕ) → total_pages ≤ q → test_bit bm q ≡ true
unfolding test_bit
test_bit_past bm q h = ground arith

pub test_bit_full : (q : ℕ) → test_bit (λ _. 0xff) q ≡ true
unfolding test_bit
test_bit_full q = ground (arith, test-full (q % 8) (omega arith))
