-- ===== src/Vbe/Arc.antt =====
-- The points that the loop of the circles goes through: an arc of an eighth of a circle.
mod Error
use quetzal_os.Base.{
  ℕ, zero, suc, ◌+◌, ◌-◌, ◌*◌, ◌^◌, ◌≤◌, ◌<◌, ◌≡◌, refl, sym, ap, ◌∙◌, true, false, ◌||◌, ◌⊎◌, inl,
  inr, List, [], ◌∷◌, leb, ◌==◌, Bool-cases, arith, ℤ, pos, sub_ℕ, ◌+ℤ◌, ◌-ℤ◌, ltb_ℤ, int_of,
}
use quetzal_os.Vbe.{Vbe}
use quetzal_os.Vbe.Shapes.{
  circle_loop, circle_points, circle_lines, vbe_draw_circle, vbe_fill_circle,
}
use quetzal_os.Vbe.Ends.{stopped, inward, next_x, next_err, circle_step}
use Error.{same_diff, inward_lem, next_err_in, next_err_on, small_square, square_pos}

-- The point (x, y) is at most half a pixel outside of the circle of radius `r` and about one and a
-- half inside.
abbrev pub IsNear : ℕ → ℕ → ℕ → Type 0
IsNear r x y = (x * x + y * y ≤ r * r + r) × (r * r ≤ x * x + y * y + 3 * r)

-- From (x, y) on, in the columns `xs` of the rows y, y + 1, ..., the arc goes to the diagonal.
pub data Arc (r : ℕ) : ℕ → ℕ → List ℕ → Type 0 where
  done : {x y : ℕ} → x < y → Arc r x y []
  next :
      {x y x' : ℕ} {xs : List ℕ}
      → y ≤ x
      → IsNear r x y
      → (x' ≡ x) ⊎ (x' + 1 ≡ x)
      → Arc r x' (y + 1) xs
      → Arc r x y (x ∷ xs)

abbrev pub rounds : (ℤ → ℤ → Vbe → Vbe) → ℕ → List ℕ → Vbe → Vbe
rounds round y [] v = v
rounds round y (x ∷ xs) v = rounds round (y + 1) xs (round (pos x) (pos y) v)

module _ (round : ℤ → ℤ → Vbe → Vbe) (r : ℕ) where
  -- What `err` is ahead of the round of (x, y), as a difference.
  abbrev gain : ℕ → ℕ → ℕ
  gain x y = x * x + y * y + 2 * y + 2 * r

  abbrev loss : ℕ → ℕ
  loss x = r * r + 2 * x

  -- `err` is from -x to x + 2, and at most x - 1 while the diagonal is two columns away.
  abbrev IsBalanced : ℕ → ℕ → Type 0
  IsBalanced x y =
      (loss x ≤ gain x y + x)
      × (gain x y ≤ loss x + x + 2)
      × (y + 2 ≤ x → gain x y + 1 ≤ loss x + x)

  balanced-IsNear : (x y : ℕ) → 1 ≤ r → y ≤ x → x ≤ r → IsBalanced x y → IsNear r x y
  balanced-IsNear x y h hy hx b = elim (Bool-cases (leb (y + 2) x)) [
    | inl far ↦ ground arith
    | inr close ↦ elim (Bool-cases (leb 2 r)) [
      | inl big ↦ ground arith
      | inr one ↦
          ground
            (arith, small_square x (ground arith), small_square y (ground arith), square_pos r h)
    ]
  ]

  -- With a radius below 2 ^ 29 the value that the loop tests, 2 * (err - x) + 1, is within 32 bits.
  pub test_fits :
      (x y : ℕ)
      → r < 2 ^ 29
      → y ≤ x
      → x ≤ r
      → IsBalanced x y
      → (2 * (gain x y + 2 * y + 3) + 1 < 2 * (loss x + x) + 2 ^ 31)
        × (2 * (loss x + x) ≤ 2 * (gain x y + 2 * y + 3) + 1 + 2 ^ 31)
  test_fits x y small hy hx b = ground arith

  gain_on : (x y : ℕ) → gain x (y + 1) ≡ gain x y + 2 * y + 3
  gain_on x y = grind arith

  gain_in : (x y : ℕ) → gain (suc x) y ≡ gain x y + 2 * x + 1
  gain_in x y = grind arith

  on-IsBalanced :
      (x y : ℕ)
      → IsBalanced x y
      → leb (loss x + x) (gain x y + 2 * y + 3) ≡ false
      → IsBalanced x (y + 1)
  on-IsBalanced x y b on = rw (gain_on x y) (ground arith)

  in-IsBalanced :
      (x y : ℕ)
      → IsBalanced (suc x) y
      → leb (loss (suc x) + suc x) (gain (suc x) y + 2 * y + 3) ≡ true
      → y + 1 ≤ x
      → IsBalanced x (y + 1)
  in-IsBalanced x y b on before = ground (arith, gain_on x y, gain_in x y)

  -- The rest of the loop: the columns that it goes through and what it draws.
  pub record Circled (x y : ℕ) (v u : Vbe) : Type 0 where
    pub columns : List ℕ
    pub arc : Arc r x y columns
    pub drawn : u ≡ rounds round y columns v

  abbrev err : ℕ → ℕ → ℤ
  err x y = sub_ℕ (gain x y) (loss x)

  up_one : (y : ℕ) → pos y +ℤ pos 1 ≡ pos (y + 1)
  up_one y = ground arith

  step_on :
      (n x y : ℕ) (v : Vbe)
      → y ≤ x
      → leb (loss x + x) (gain x y + 2 * y + 3) ≡ false
      → circle_loop round (suc n) (pos x) (pos y) (err x y) v
        ≡ circle_loop round n (pos x) (pos (y + 1)) (err x (y + 1)) (round (pos x) (pos y) v)
  unfolding next_x
  step_on n x y v h stays =
      let on : ltb_ℤ (pos x) (pos y) ≡ false = ground arith in
      let test = inward_lem round (gain x y) (loss x) x y ∙ stays in
      circle_step round n y (pos x) (err x y) v on
      ∙ rw (test, next_err_on round (gain x y) (loss x) x y, up_one y, gain_on x y) refl

  step_in :
      (n x y : ℕ) (v : Vbe)
      → y ≤ suc x
      → leb (loss (suc x) + suc x) (gain (suc x) y + 2 * y + 3) ≡ true
      → circle_loop round (suc n) (pos (suc x)) (pos y) (err (suc x) y) v
        ≡ circle_loop round n (pos x) (pos (y + 1)) (err x (y + 1)) (round (pos (suc x)) (pos y) v)
  unfolding next_x
  step_in n x y v h goes =
      let on : ltb_ℤ (pos (suc x)) (pos y) ≡ false = ground arith in
      let left : pos (suc x) -ℤ pos 1 ≡ pos x = ground arith in
      let test = inward_lem round (gain (suc x) y) (loss (suc x)) (suc x) y ∙ goes in
      let same =
        same_diff (gain (suc x) y + 2 * y + 4) (loss (suc x) + 2 * x) (gain x (y + 1)) (loss x)
          (omega (arith, gain_on x y, gain_in x y)) in
      circle_step round n y (pos (suc x)) (err (suc x) y) v on
      ∙ rw (test, next_err_in round (gain (suc x) y) (loss (suc x)) x y, up_one y, left, same) refl

  circle_loop-Circled :
      (n x y : ℕ) (v : Vbe)
      → 1 ≤ r
      → x ≤ r
      → x + 1 < y + n
      → (y ≤ x → (1 ≤ x) × IsBalanced x y)
      → Circled x y v (circle_loop round n (pos x) (pos y) (err x y) v)
  circle_loop-Circled zero x y v h hx hn b =
      let past : ltb_ℤ (pos x) (pos y) ≡ true = ground arith in
      record {
        columns = [];
        arc = done (omega arith);
        drawn = stopped round zero y (pos x) _ v past;
      }
  circle_loop-Circled (suc n) zero y v h hx hn b =
      let ends : ltb_ℤ (pos zero) (pos y) ≡ true = ground arith in
      record {
        columns = [];
        arc = done (ground arith);
        drawn = stopped round (suc n) y (pos zero) _ v ends;
      }
  circle_loop-Circled (suc n) (suc x) y v h hx hn b = elim (Bool-cases (leb y (suc x))) [
    | inr past ↦
        let ends : ltb_ℤ (pos (suc x)) (pos y) ≡ true = ground arith in
        record {
          columns = [];
          arc = done (ground arith);
          drawn = stopped round (suc n) y (pos (suc x)) _ v ends;
        }
    | inl on ↦
        let hy : y ≤ suc x = ground arith in
        let bal = (b hy).1 in
        let near = balanced-IsNear (suc x) y h hy hx bal in
        elim (Bool-cases (leb (loss (suc x) + suc x) (gain (suc x) y + 2 * y + 3))) [
          | inl goes ↦
              let rest =
                circle_loop-Circled n x (y + 1) (round (pos (suc x)) (pos y) v) h (omega arith)
                  (omega arith) (λ before. (omega arith, in-IsBalanced x y bal goes before)) in
              rw (step_in n x y v hy goes) (record {
                columns = suc x ∷ rest.columns;
                arc = next hy near (inr (omega arith)) rest.arc;
                drawn = rest.drawn;
              })
          | inr stays ↦
              let rest =
                circle_loop-Circled n (suc x) (y + 1) (round (pos (suc x)) (pos y) v) h hx
                  (omega arith) (λ before. (omega arith, on-IsBalanced (suc x) y bal stays)) in
              rw (step_on n (suc x) y v hy stays) (record {
                columns = suc x ∷ rest.columns;
                arc = next hy near (inl refl) rest.arc;
                drawn = rest.drawn;
              })
        ]
  ]

  start_err : err r 0 ≡ pos 0
  start_err = ground arith

  start_IsBalanced : 1 ≤ r → IsBalanced r 0
  start_IsBalanced h = (omega arith, omega arith, λ far. omega arith)

  pub circle_loop_start :
      (v : Vbe)
      → 1 ≤ r
      → r < 2 ^ 31
      → Circled r 0 v (circle_loop round (r + 2) (int_of r) (pos 0) (pos 0) v)
  circle_loop_start v h small =
      let whole : int_of r ≡ pos r = ground arith in
      let from = ap (λ e. circle_loop round (r + 2) (pos r) (pos 0) e v) (sym start_err) in
      rw (whole, from)
        (circle_loop-Circled (r + 2) r 0 v h (omega arith) (omega arith)
          (λ on. (h, start_IsBalanced h)))

-- With a radius from 1 to 2 ^ 29 - 1 and sides of the screen that are not 0, `vbe_draw_circle` draws
-- its eight points, and `vbe_fill_circle` its four lines, at each point of an arc from the radius's
-- end to the diagonal: in row 0 the arc is in column `radius`, from row to row it stays in its column
-- or goes one column inward, every point of it is at most half a pixel outside of the circle and about
-- one and a half inside (its distance from the centre squared is at most r^2 + r and at least
-- r^2 - 3 r), and it ends where the column would be less than the row.
pub circles-Circled :
    (cx cy radius color : ℕ) (v : Vbe)
    → 0 < v.fb_w
    → 0 < v.fb_h
    → 0 < radius
    → radius < 2 ^ 29
    → Circled
        (λ x y u. circle_points cx cy x y color u)
        radius
        radius
        0
        v
        (vbe_draw_circle cx cy radius color v)
      × Circled
          (λ x y u. circle_lines cx cy x y color u)
          radius
          radius
          0
          v
          (vbe_fill_circle cx cy radius color v)
unfolding vbe_draw_circle vbe_fill_circle
circles-Circled cx cy radius color v hw hh hr small =
    let there : (v.fb_w == 0 || v.fb_h == 0) ≡ false = ground arith in
    let some_radius : (radius == 0) ≡ false = ground arith in
    rw (there, some_radius)
      (
        circle_loop_start (λ x y u. circle_points cx cy x y color u) radius v hr (omega arith),
        circle_loop_start (λ x y u. circle_lines cx cy x y color u) radius v hr (omega arith),
      )
