-- ===== src/Vbe/Arc/Error.antt =====
-- The error term of the circles as a difference of natural numbers.
use quetzal_os.Base.{
  ℕ, zero, suc, ◌+◌, ◌-◌, ◌*◌, ◌≤◌, ◌≡◌, refl, ◌∙◌, true, false, leb, arith, ℤ, pos, pos_part,
  neg_part, sub_ℕ, ◌+ℤ◌, ◌-ℤ◌,
}
use quetzal_os.Vbe.{Vbe}
use quetzal_os.Vbe.Ends.{inward, next_x, next_err}

pub same_diff : (a b c d : ℕ) → a + d ≡ c + b → sub_ℕ a b ≡ sub_ℕ c d
same_diff a b c d h = ground arith

pos_part_lem : (a b : ℕ) → pos_part (sub_ℕ a b) ≡ a - b
pos_part_lem a b = ground arith

neg_part_lem : (a b : ℕ) → neg_part (sub_ℕ a b) ≡ b - a
neg_part_lem a b = ground arith

plus_diff : (a b c d : ℕ) → sub_ℕ a b +ℤ sub_ℕ c d ≡ sub_ℕ (a + c) (b + d)
plus_diff a b c d =
    rw (pos_part_lem a b, pos_part_lem c d, neg_part_lem a b, neg_part_lem c d)
      (same_diff (a - b + (c - d)) (b - a + (d - c)) (a + c) (b + d) (omega arith))

module _ (round : ℤ → ℤ → Vbe → Vbe) where
  pub inward_lem : (p q x y : ℕ) → inward round y (pos x) (sub_ℕ p q) ≡ leb (q + x) (p + 2 * y + 3)
  unfolding inward
  inward_lem p q x y = ground arith

  pub next_err_in :
      (p q x y : ℕ)
      → next_err round true y (pos (suc x)) (sub_ℕ p q) ≡ sub_ℕ (p + 2 * y + 4) (q + 2 * x)
  unfolding next_err next_x
  next_err_in p q x y =
      let left : pos (suc x) -ℤ pos 1 ≡ pos x = ground arith in
      let drop_x : pos 1 -ℤ (pos x +ℤ pos x) ≡ sub_ℕ 1 (2 * x) = ground arith in
      let up : sub_ℕ p q +ℤ (pos 1 +ℤ (pos y +ℤ pos 1 +ℤ (pos y +ℤ pos 1)))
          ≡ sub_ℕ (p + 2 * y + 3) q =
        ground arith in
      let sum = plus_diff (p + 2 * y + 3) q 1 (2 * x) in
      let more : p + 2 * y + 3 + 1 ≡ p + 2 * y + 4 = omega arith in
      rw (left, drop_x, up) (sum ∙ rw more refl)

  pub next_err_on :
      (p q x y : ℕ) → next_err round false y (pos x) (sub_ℕ p q) ≡ sub_ℕ (p + 2 * y + 3) q
  unfolding next_err next_x
  next_err_on p q x y = ground arith

pub small_square : (x : ℕ) → x ≤ 1 → x * x ≤ x
small_square zero h = omega arith
small_square (suc zero) h = omega arith
small_square (suc (suc x)) h = absurd (omega arith)

pub square_pos : (r : ℕ) → 1 ≤ r → 1 ≤ r * r
square_pos r h = grind arith
