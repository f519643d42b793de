-- ===== src/RitualGeo/Draw.antt =====
-- Where the shapes of the desktop draw.
use quetzal_os.Base.{
  ℕ, zero, suc, ◌+◌, ◌-◌, ◌*◌, ◌/◌, ◌%◌, ◌^◌, ◌≤◌, ◌<◌, ◌≡◌, refl, Bool, true, false, not, ◌&&◌,
  ltb, leb, ◌==◌, if◌then◌else◌, arith, u32, u64, pos, ◌+ℤ◌, ◌-ℤ◌, int_of, word_of,
}
use quetzal_os.Vbe.{vbe_fill_rect, color_aztec_gold, color_jade, color_turquoise}
use quetzal_os.Vbe.Keeps.{IsKeeping, Keeps-refl, Keeps-if, then-IsKeeping, vbe_fill_rect-IsKeeping}
use quetzal_os.RitualGeo.{
  centred, pyramid_step, pyramid_steps, temple, draw_step_pyramid, scale_y, scale_color, scales,
  draw_feathered_serpent,
}

-- The rows from `cy` on.
abbrev pub below : ℕ → ℕ → ℕ → Bool
below cy px py = leb cy py

below_step :
    (x w cy off h px py : ℕ)
    → h ≤ off
    → off ≤ cy
    → below cy px py ≡ true
    → ((leb x px && ltb px (x + w)) && (leb (cy - off) py && ltb py (cy - off + h))) ≡ false
below_step x w cy off h px py high room low = ground arith

narrowed : (d b : ℕ) → b < 2 ^ 32 → (if ltb d b then b - d else 0) < 2 ^ 32
narrowed d b h = ground arith

pyramid_step-IsKeeping :
    (cx cy base_width step_span i : ℕ)
    → i < 2 ^ 27
    → base_width < 2 ^ 32
    → IsKeeping (below cy) (pyramid_step cx cy base_width step_span i)
unfolding pyramid_step
pyramid_step-IsKeeping cx cy base_width step_span i small narrow v s =
    let deduction = u32 (i * step_span) in
    let w = if ltb deduction base_width then base_width - deduction else 0 in
    let offset = u32 (u32 (i + 1) * 14) in
    let color = if i % 2 == 0 then color_aztec_gold else color_jade in
    Keeps-if (below cy) (ltb cy offset) (λ high. Keeps-refl (below cy) v)
      (λ room.
        vbe_fill_rect-IsKeeping (below cy) (centred cx w) (cy - offset) w 14 color
          (narrowed deduction base_width narrow) (omega arith)
          (λ px py low.
            below_step (centred cx w) w cy offset 14 px py (omega arith) (ground arith) low)
          v s)

pyramid_steps-IsKeeping :
    (n i cx cy base_width step_span : ℕ)
    → i + n < 2 ^ 27
    → base_width < 2 ^ 32
    → IsKeeping (below cy) (pyramid_steps n i cx cy base_width step_span)
unfolding pyramid_steps
pyramid_steps-IsKeeping zero i cx cy base_width step_span few narrow v s = Keeps-refl (below cy) v
pyramid_steps-IsKeeping (suc n) i cx cy base_width step_span few narrow v s =
    then-IsKeeping (below cy) (pyramid_step cx cy base_width step_span i)
      (pyramid_steps n (i + 1) cx cy base_width step_span)
      (pyramid_step-IsKeeping cx cy base_width step_span i (omega arith) narrow)
      (pyramid_steps-IsKeeping n (i + 1) cx cy base_width step_span (omega arith) narrow) v s

temple-IsKeeping : (cx cy steps : ℕ) → steps < 2 ^ 27 → IsKeeping (below cy) (temple cx cy steps)
unfolding temple
temple-IsKeeping cx cy steps few v s =
    let offset = u32 (u32 (steps * 14) + 20) in
    Keeps-if (below cy) (leb offset cy)
      (λ room.
        vbe_fill_rect-IsKeeping (below cy) (centred cx 32) (cy - offset) 32 20 color_turquoise
          (omega arith) (omega arith)
          (λ px py low.
            below_step (centred cx 32) 32 cy offset 20 px py (omega arith) (ground arith) low)
          v s)
      (λ high. Keeps-refl (below cy) v)

-- On a screen whose lines fit the lines of the buffer and whose cells and lines 32 bits can count, a
-- pyramid of fewer than 2 ^ 27 steps and a 32-bit base, at any place, stands on row `cy`: it writes
-- no pixel of that row or of a row below it, and no cell behind the screen.
pub draw_step_pyramid-IsKeeping :
    (cx cy base_width steps : ℕ)
    → steps < 2 ^ 27
    → base_width < 2 ^ 32
    → IsKeeping (below cy) (draw_step_pyramid cx cy base_width steps)
unfolding draw_step_pyramid
draw_step_pyramid-IsKeeping cx cy base_width steps few narrow v s =
    let span = if ltb 0 (u32 (steps + 1)) then base_width / u32 (steps + 1) else 0 in
    then-IsKeeping (below cy) (pyramid_steps steps 0 cx cy base_width span) (temple cx cy steps)
      (pyramid_steps-IsKeeping steps 0 cx cy base_width span (omega arith) narrow)
      (temple-IsKeeping cx cy steps few) v s

-- The pixels around the band of `n` scales from `x` on at row `y`.
abbrev pub around_band : ℕ → ℕ → ℕ → ℕ → ℕ → Bool
around_band x y n px py =
    not ((leb x px && ltb px (x + n * 12)) && (leb (y - 4) py && ltb py (y + 14)))

small_int : (y : ℕ) → y < 2 ^ 31 - 4 → int_of y ≡ pos y
small_int y h = let test : ltb y (2 ^ 31) ≡ true = ground arith in rw test refl

down : (y : ℕ) → y < 2 ^ 31 - 4 → word_of (int_of y +ℤ pos 4) ≡ y + 4
down y h =
    let test : leb (0 + 0) (y + 4) ≡ true = ground arith in rw (small_int y h, test) (omega arith)

up : (y : ℕ) → y < 2 ^ 31 - 4 → 4 ≤ y → word_of (int_of y -ℤ pos 4) ≡ y - 4
up y h k =
    let test : leb (0 + 4) (y + 0) ≡ true = ground arith in rw (small_int y h, test) (omega arith)

of_wave :
    (a b : Bool) (y d u : ℕ)
    → d ≡ y + 4
    → (b ≡ false → u ≡ y - 4)
    → let sy = if a then d else if b then 0 else u in
      (b ≡ true → y < 4) → (y - 4 ≤ sy) × (sy ≤ y + 4)
of_wave a b y d u hd hu hb = ground (arith, hu, hb)

scale_y-cases :
    (i y tick : ℕ) → y < 2 ^ 31 - 4 → (y - 4 ≤ scale_y i y tick) × (scale_y i y tick ≤ y + 4)
scale_y-cases i y tick small =
    of_wave (ltb (u64 (i + tick / 5) % 8) 4) (ltb y 4) y _ _ (down y small)
      (λ e. up y small (ground arith)) (λ e. ground arith)

outside_scale :
    (x y n i px py sx sy : ℕ)
    → i < n
    → sx ≡ x + i * 12
    → y - 4 ≤ sy
    → sy ≤ y + 4
    → around_band x y n px py ≡ true
    → ((leb sx px && ltb px (sx + 10)) && (leb sy py && ltb py (sy + 10))) ≡ false
outside_scale x y n i px py sx sy hi hx low high out = ground arith

scales-IsKeeping :
    (n i x y length_of tick : ℕ)
    → x + (i + n) * 12 < 2 ^ 32
    → y < 2 ^ 31 - 4
    → i + n ≡ length_of
    → IsKeeping (around_band x y length_of) (scales n i x y length_of tick)
unfolding scales
scales-IsKeeping zero i x y length_of tick room small all v s =
    Keeps-refl (around_band x y length_of) v
scales-IsKeeping (suc n) i x y length_of tick room small all v s =
    let sx = u32 (x + u32 (i * 12)) in
    let sy = scale_y i y tick in
    let color = scale_color i length_of in
    let (low, high) = scale_y-cases i y tick small in
    then-IsKeeping (around_band x y length_of) (vbe_fill_rect sx sy 10 10 color)
      (scales n (i + 1) x y length_of tick)
      (vbe_fill_rect-IsKeeping (around_band x y length_of) sx sy 10 10 color (omega arith)
        (omega arith)
        (λ px py out.
          outside_scale x y length_of i px py sx sy (omega arith) (omega arith) low high out))
      (scales-IsKeeping n (i + 1) x y length_of tick (omega arith) small (omega arith)) v s

-- On a screen whose lines fit the lines of the buffer and whose cells and lines 32 bits can count, a
-- serpent whose end 32 bits can hold and whose row is below 2 ^ 31 - 4 writes, whatever the tick, no
-- pixel outside its band of `n` times 12 columns and of the rows from 4 above `y` to 13 below it,
-- and no cell behind the screen.
pub draw_feathered_serpent-IsKeeping :
    (x y n tick : ℕ)
    → x + n * 12 < 2 ^ 32
    → y < 2 ^ 31 - 4
    → IsKeeping (around_band x y n) (draw_feathered_serpent x y n tick)
unfolding draw_feathered_serpent
draw_feathered_serpent-IsKeeping x y n tick room small v s =
    scales-IsKeeping n 0 x y n tick (omega arith) small (omega arith) v s
