-- ===== src/Vbe/Line/Loop.antt =====
-- The loop of `vbe_draw_line` as a walk in steps from the first end.
use quetzal_os.Base.{
  ℕ, zero, suc, ◌+◌, ◌*◌, ◌^◌, ◌<◌, ◌≡◌, refl, Bool, true, false, ltb, ◌==◌, if◌then◌else◌, arith,
  ℤ, pos, negsuc, sub_ℕ, ◌+ℤ◌, ◌-ℤ◌, ltb_ℤ, eqb_ℤ, int_of, word_of,
}
use quetzal_os.Vbe.{Vbe, vbe_draw_pixel, line_loop}
use quetzal_os.Vbe.Line.Walk.{goes, step_on_if, walk}

-- A coordinate after `i` steps from `start`.
abbrev pub at : Bool → ℕ → ℕ → ℤ
at forward start i = if forward then pos (start + i) else sub_ℕ start i

abbrev pub unit : Bool → ℤ
unit forward = if forward then pos 1 else negsuc 0

at_next :
    (forward : Bool) (start i : ℕ) → at forward start i +ℤ unit forward ≡ at forward start (i + 1)
at_next true start i = ground arith
at_next false start i = ground arith

-- The end lies `d` steps from the start.
abbrev pub Ends : Bool → ℕ → ℕ → ℕ → Type 0
Ends forward start d end = if forward then start + d ≡ end else end + d ≡ start

at_end :
    (forward : Bool) (start d end i : ℕ)
    → Ends forward start d end
    → end < 2 ^ 31
    → eqb_ℤ (at forward start i) (int_of end) ≡ (i == d)
at_end true start d end i e small = ground arith
at_end false start d end i e small = ground arith

minus_pos : (p q d : ℕ) → sub_ℕ p q -ℤ pos d ≡ sub_ℕ p (q + d)
minus_pos p q d = ground arith

plus_pos : (p q d : ℕ) → sub_ℕ p q +ℤ pos d ≡ sub_ℕ (p + d) q
plus_pos p q d = ground arith

test_x : (p q d : ℕ) → ltb_ℤ (pos 0 -ℤ pos d) (sub_ℕ p q +ℤ sub_ℕ p q) ≡ ltb (2 * q) (2 * p + d)
test_x p q d = ground arith

test_y : (p q d : ℕ) → ltb_ℤ (sub_ℕ p q +ℤ sub_ℕ p q) (pos d) ≡ ltb (2 * p) (2 * q + d)
test_y p q d = ground arith

module _ (right down : Bool) (ax ay bx by dx dy color : ℕ) where
  abbrev pub put : ℕ → ℕ → Vbe → Vbe
  put i j v = vbe_draw_pixel (word_of (at right ax i)) (word_of (at down ay j)) color v

  abbrev pub err : ℕ → ℕ → ℤ
  err i j = sub_ℕ (dx * (j + 1)) (dy * (i + 1))

  err_next :
      (i j : ℕ) (x y : Bool)
      → (if y
          then (if x then err i j -ℤ pos dy else err i j) +ℤ pos dx
          else (if x then err i j -ℤ pos dy else err i j))
        ≡ err (step_on_if x i) (step_on_if y j)
  err_next i j x y =
      let along : dy * (i + 1 + 1) ≡ dy * (i + 1) + dy = grind arith in
      let up : dx * (j + 1 + 1) ≡ dx * (j + 1) + dx = grind arith in
      elim x [
        | true ↦ elim y [ true ↦ ground arith | false ↦ ground arith ]
        | false ↦ elim y [ true ↦ ground arith | false ↦ ground arith ]
      ]

  at-step_on_if :
      (forward : Bool) (start i : ℕ) (go : Bool)
      → (if go then at forward start i +ℤ unit forward else at forward start i)
        ≡ at forward start (step_on_if go i)
  at-step_on_if forward start i true = at_next forward start i
  at-step_on_if forward start i false = refl

  pub line_loop-walk :
      (n i j : ℕ) (v : Vbe)
      → Ends right ax dx bx
      → Ends down ay dy by
      → bx < 2 ^ 31
      → by < 2 ^ 31
      → line_loop n bx by dx dy
          (unit right)
          (unit down)
          color
          (at right ax i)
          (at down ay j)
          (err i j)
          v
        ≡ walk put n dx dy i j v
  unfolding line_loop walk
  line_loop-walk zero i j v hx hy sx sy = refl
  line_loop-walk (suc n) i j v hx hy sx sy =
      let x = goes dx dy i j in
      let y = goes dy dx j i in
      rw
        (
          test_x (dx * (j + 1)) (dy * (i + 1)) dy,
          test_y (dx * (j + 1)) (dy * (i + 1)) dx,
          at_end right ax dx bx i hx sx,
          at_end down ay dy by j hy sy,
          at-step_on_if right ax i x,
          at-step_on_if down ay j y,
          err_next i j x y,
          line_loop-walk n (step_on_if x i) (step_on_if y j) (put i j v) hx hy sx sy,
        )
        refl
