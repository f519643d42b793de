-- ===== src/Vbe/Ends.antt =====
-- The loop of the circles ends by its test within the rounds that the model allows it.
use quetzal_os.Base.{
  ℕ, zero, suc, ◌+◌, ◌≤◌, ◌<◌, ◌≡◌, refl, sym, ◌∙◌, Bool, true, false, inl, inr, if◌then◌else◌,
  Bool-cases, arith, ℤ, pos, pos_part, ◌+ℤ◌, ◌-ℤ◌, ltb_ℤ, int_of,
}
use quetzal_os.Vbe.{Vbe}
use quetzal_os.Vbe.Shapes.{circle_loop}

module _ (round : ℤ → ℤ → Vbe → Vbe) where
  pub stopped :
      (n y : ℕ) (x err : ℤ) (v : Vbe)
      → ltb_ℤ x (pos y) ≡ true
      → circle_loop round n x (pos y) err v ≡ v
  unfolding circle_loop
  stopped zero y x err v h = refl
  stopped (suc n) y x err v h = rw h refl

  -- Whether a round goes one column inward, from the error that it leaves.
  unfoldable pub inward : ℕ → ℤ → ℤ → Bool
  inward y x err =
      let y' = pos y +ℤ pos 1 in
      let err1 = err +ℤ (pos 1 +ℤ (y' +ℤ y')) in
      let d = err1 -ℤ x in ltb_ℤ (pos 0) (d +ℤ d +ℤ pos 1)

  unfoldable pub next_x : Bool → ℤ → ℤ
  next_x b x = if b then x -ℤ pos 1 else x

  next_x-le : (b : Bool) (x : ℤ) → pos_part (next_x b x) ≤ pos_part x
  unfolding next_x
  next_x-le true x = ground arith
  next_x-le false x = omega arith

  unfoldable pub next_err : Bool → ℕ → ℤ → ℤ → ℤ
  unfolding next_x
  next_err b y x err =
      let y' = pos y +ℤ pos 1 in
      let err1 = err +ℤ (pos 1 +ℤ (y' +ℤ y')) in
      let x' = next_x b x in if b then err1 +ℤ (pos 1 -ℤ (x' +ℤ x')) else err1

  pub circle_step :
      (n y : ℕ) (x err : ℤ) (v : Vbe)
      → ltb_ℤ x (pos y) ≡ false
      → circle_loop round (suc n) x (pos y) err v
        ≡ circle_loop round n
            (next_x (inward y x err) x)
            (pos y +ℤ pos 1)
            (next_err (inward y x err) y x err)
            (round x (pos y) v)
  unfolding circle_loop inward next_err
  circle_step n y x err v on = rw on

  circle_loop_more :
      (n k y : ℕ) (x err : ℤ) (v : Vbe)
      → pos_part x < y + n
      → circle_loop round (n + k) x (pos y) err v ≡ circle_loop round n x (pos y) err v
  circle_loop_more zero k y x err v h =
      let past : ltb_ℤ x (pos y) ≡ true = ground arith in
      stopped (0 + k) y x err v past ∙ sym (stopped 0 y x err v past)
  circle_loop_more (suc n) k y x err v h = elim (Bool-cases (ltb_ℤ x (pos y))) [
    | inl past ↦ stopped (suc n + k) y x err v past ∙ sym (stopped (suc n) y x err v past)
    | inr on ↦
        let next : suc n + k ≡ suc (n + k) = omega arith in
        let up : pos y +ℤ pos 1 ≡ pos (y + 1) = ground arith in
        let x' = next_x (inward y x err) x in
        let rest =
          circle_loop_more n k (y + 1) x' (next_err (inward y x err) y x err) (round x (pos y) v)
            (omega (arith, next_x-le (inward y x err) x)) in
        rw (next, circle_step (n + k) y x err v on, circle_step n y x err v on, up) rest
  ]

  -- The loop of both circles, over anything that a round draws, ends by its own test within the
  -- rounds that the model allows: any number of rounds more changes nothing.
  pub circle_loop_ends :
      (radius k : ℕ) (v : Vbe)
      → circle_loop round (radius + 2 + k) (int_of radius) (pos 0) (pos 0) v
        ≡ circle_loop round (radius + 2) (int_of radius) (pos 0) (pos 0) v
  circle_loop_ends radius k v =
      circle_loop_more (radius + 2) k 0 (int_of radius) (pos 0) v (ground arith)
