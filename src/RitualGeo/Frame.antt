-- ===== src/RitualGeo/Frame.antt =====
-- The shapes of the desktop write no cell but those of the screen, whatever their arguments.
use quetzal_os.Base.{ℕ, zero, suc, ◌+◌, ◌-◌, ◌*◌, ◌/◌, ltb, leb, if◌then◌else◌, u32}
use quetzal_os.Vbe.{
  Vbe, vbe_fill_rect, color_aztec_gold, color_obsidian, color_cochineal_red, color_turquoise,
}
use quetzal_os.Vbe.Shapes.{vbe_fill_circle}
use quetzal_os.Vbe.Frame.{Draws-refl, Draws-if, vbe_fill_rect-Draws}
use quetzal_os.Vbe.Outline.{vbe_draw_circle-Draws, vbe_fill_circle-Draws}
use quetzal_os.Vbe.Steps.{IsDrawing, then-IsDrawing, if-IsDrawing}
use quetzal_os.RitualGeo.{
  centred, pyramid_step, pyramid_steps, temple, draw_step_pyramid, scale_y, scale_color, scales,
  draw_feathered_serpent, draw_sun_disk,
}

pyramid_step-IsDrawing :
    (cx cy base_width step_span i : ℕ) → IsDrawing (pyramid_step cx cy base_width step_span i)
unfolding pyramid_step
pyramid_step-IsDrawing cx cy base_width step_span i v ok =
    Draws-if (ltb cy (u32 (u32 (i + 1) * 14))) (Draws-refl v) (vbe_fill_rect-Draws _ _ _ 14 _ v ok)

pyramid_steps-IsDrawing :
    (n i cx cy base_width step_span : ℕ) → IsDrawing (pyramid_steps n i cx cy base_width step_span)
unfolding pyramid_steps
pyramid_steps-IsDrawing zero i cx cy base_width step_span v ok = Draws-refl v
pyramid_steps-IsDrawing (suc n) i cx cy base_width step_span v ok =
    then-IsDrawing (pyramid_step cx cy base_width step_span i)
      (pyramid_steps n (i + 1) cx cy base_width step_span)
      (pyramid_step-IsDrawing cx cy base_width step_span i)
      (pyramid_steps-IsDrawing n (i + 1) cx cy base_width step_span) v ok

temple-IsDrawing : (cx cy steps : ℕ) → IsDrawing (temple cx cy steps)
unfolding temple
temple-IsDrawing cx cy steps v ok =
    Draws-if (leb (u32 (u32 (steps * 14) + 20)) cy)
      (vbe_fill_rect-Draws (centred cx 32) (cy - u32 (u32 (steps * 14) + 20)) 32 20 color_turquoise
        v ok)
      (Draws-refl v)

pub draw_step_pyramid-IsDrawing :
    (cx cy base_width steps : ℕ) → IsDrawing (draw_step_pyramid cx cy base_width steps)
unfolding draw_step_pyramid
draw_step_pyramid-IsDrawing cx cy base_width steps v ok =
    let span = if ltb 0 (u32 (steps + 1)) then base_width / u32 (steps + 1) else 0 in
    then-IsDrawing (pyramid_steps steps 0 cx cy base_width span) (temple cx cy steps)
      (pyramid_steps-IsDrawing steps 0 cx cy base_width span) (temple-IsDrawing cx cy steps) v ok

scales-IsDrawing : (n i x y length_of tick : ℕ) → IsDrawing (scales n i x y length_of tick)
unfolding scales
scales-IsDrawing zero i x y length_of tick v ok = Draws-refl v
scales-IsDrawing (suc n) i x y length_of tick v ok =
    let sx = u32 (x + u32 (i * 12)) in
    let sy = scale_y i y tick in
    let color = scale_color i length_of in
    then-IsDrawing (vbe_fill_rect sx sy 10 10 color) (scales n (i + 1) x y length_of tick)
      (vbe_fill_rect-Draws sx sy 10 10 color) (scales-IsDrawing n (i + 1) x y length_of tick) v ok

pub draw_feathered_serpent-IsDrawing :
    (x y n tick : ℕ) → IsDrawing (draw_feathered_serpent x y n tick)
unfolding draw_feathered_serpent
draw_feathered_serpent-IsDrawing x y n tick v ok = scales-IsDrawing n 0 x y n tick v ok

pub draw_sun_disk-IsDrawing : (cx cy radius : ℕ) → IsDrawing (draw_sun_disk cx cy radius)
unfolding draw_sun_disk
draw_sun_disk-IsDrawing cx cy radius v ok =
    let ring = λ (u : Vbe).
      if ltb 6 radius then vbe_fill_circle cx cy (radius - 6) color_obsidian u else u in
    let core = λ (u : Vbe).
      if ltb 12 radius then vbe_fill_circle cx cy (radius / 2) color_cochineal_red u else u in
    let rings =
      if-IsDrawing (ltb 6 radius) (vbe_fill_circle cx cy (radius - 6) color_obsidian) (λ u. u)
        (vbe_fill_circle-Draws cx cy (radius - 6) color_obsidian) (λ u h. Draws-refl u) in
    let cores =
      if-IsDrawing (ltb 12 radius) (vbe_fill_circle cx cy (radius / 2) color_cochineal_red) (λ u. u)
        (vbe_fill_circle-Draws cx cy (radius / 2) color_cochineal_red) (λ u h. Draws-refl u) in
    then-IsDrawing (vbe_fill_circle cx cy radius color_aztec_gold) _
      (vbe_fill_circle-Draws cx cy radius color_aztec_gold)
      (then-IsDrawing ring _ rings
        (then-IsDrawing core _ cores (vbe_draw_circle-Draws cx cy radius color_aztec_gold)))
      v ok
