-- ===== src/RitualGeo.antt =====
-- kernel/graphics/ritual_geo.c: the shapes of the desktop, over the drawing operations.
pub mod Draw
pub mod Frame
mod Examples
use quetzal_os.Base.{
  ℕ, zero, suc, ◌+◌, ◌-◌, ◌*◌, ◌/◌, ◌%◌, ◌^◌, ◌≤◌, ◌<◌, ◌≡◌, ◌≢◌, ◌↔◌, refl, sym, ap, ◌∙◌, fun_ext,
  Bool, true, false, not, ◌&&◌, ◌||◌, ◌⊎◌, inl, inr, List, [], ◌∷◌, ◌++◌, map, Option, none, some,
  append-nil, append_assoc, min, or_nibble, bit_and, bit_or, byte_set, byte_clear, byte_test,
  get_or, set, take, drop, replicate, length, length-append, length-set, length-replicate,
  length-take, length-drop, get_or-set_self, get_or-set_ne, take-append-drop, ltb, leb, ◌==◌,
  if◌then◌else◌, Bool-cases, Option-cases, Bool-ext, ==_iff, ltb_iff, arith, all_below,
  all_below_sound, codes, cstr, copy_str, length-copy_str, cstr-copy_str, length-cstr, cstr-cstr,
  length-take-cstr, u8, u16, u32, u64, sub_u32, ℤ, pos, negsuc, pos_part, neg_part, sub_ℕ, ◌+ℤ◌,
  ◌-ℤ◌, ltb_ℤ, leb_ℤ, eqb_ℤ, int_of, word_of,
}
use quetzal_os.Vbe.{
  Vbe, vbe_fill_rect, color_obsidian, color_jade, color_aztec_gold, color_turquoise,
  color_cochineal_red,
}
use quetzal_os.Vbe.Shapes.{vbe_draw_circle, vbe_fill_circle}

-- The left end of a side of `w` pixels around `cx`.
abbrev pub centred : ℕ → ℕ → ℕ
centred cx w = if leb (w / 2) cx then cx - w / 2 else 0

-- Step `i` of the pyramid.
unfoldable pub pyramid_step : ℕ → ℕ → ℕ → ℕ → ℕ → Vbe → Vbe
pyramid_step cx cy base_width step_span i v =
    let width_deduction = u32 (i * step_span) in
    let w = if ltb width_deduction base_width then base_width - width_deduction else 0 in
    let total_step_offset = u32 (u32 (i + 1) * 14) in
    let color = if i % 2 == 0 then color_aztec_gold else color_jade in
    if ltb cy total_step_offset
    then v
    else vbe_fill_rect (centred cx w) (cy - total_step_offset) w 14 color v

-- The steps from `i` on, with the number of them left.
unfoldable pub pyramid_steps : ℕ → ℕ → ℕ → ℕ → ℕ → ℕ → Vbe → Vbe
unfolding pyramid_step
pyramid_steps zero i cx cy base_width step_span v = v
pyramid_steps (suc n) i cx cy base_width step_span v =
    pyramid_steps n (i + 1) cx cy base_width step_span (pyramid_step cx cy base_width step_span i v)

-- The sanctuary on top.
unfoldable pub temple : ℕ → ℕ → ℕ → Vbe → Vbe
temple cx cy steps v =
    let temple_offset = u32 (u32 (steps * 14) + 20) in
    if leb temple_offset cy
    then vbe_fill_rect (centred cx 32) (cy - temple_offset) 32 20 color_turquoise v
    else v

unfoldable pub draw_step_pyramid : ℕ → ℕ → ℕ → ℕ → Vbe → Vbe
unfolding pyramid_steps temple
draw_step_pyramid cx cy base_width steps v =
    let step_span = if ltb 0 (u32 (steps + 1)) then base_width / u32 (steps + 1) else 0 in
    temple cx cy steps (pyramid_steps steps 0 cx cy base_width step_span v)

-- `y` of a scale: `(int)start_y + wave`, which has no overflow for a `start_y` of the screen.
abbrev pub scale_y : ℕ → ℕ → ℕ → ℕ
scale_y i start_y tick =
    if ltb (u64 (i + tick / 5) % 8) 4
    then word_of (int_of start_y +ℤ pos 4)
    else if ltb start_y 4
    then 0
    else word_of (int_of start_y -ℤ pos 4)

abbrev pub scale_color : ℕ → ℕ → ℕ
scale_color i length_of =
    if i == length_of - 1
    then color_cochineal_red
    else if i % 2 == 0
    then color_jade
    else color_aztec_gold

-- The scales from `i` on, with the number of them left.
unfoldable pub scales : ℕ → ℕ → ℕ → ℕ → ℕ → ℕ → Vbe → Vbe
scales zero i start_x start_y length_of tick v = v
scales (suc n) i start_x start_y length_of tick v =
    scales n (i + 1) start_x start_y length_of tick (
      vbe_fill_rect (u32 (start_x + u32 (i * 12))) (scale_y i start_y tick) 10 10
        (scale_color i length_of) v)

unfoldable pub draw_feathered_serpent : ℕ → ℕ → ℕ → ℕ → Vbe → Vbe
unfolding scales
draw_feathered_serpent start_x start_y length_of tick v =
    scales length_of 0 start_x start_y length_of tick v

unfoldable pub draw_sun_disk : ℕ → ℕ → ℕ → Vbe → Vbe
draw_sun_disk cx cy radius v =
    let v1 = vbe_fill_circle cx cy radius color_aztec_gold v in
    let v2 = if ltb 6 radius then vbe_fill_circle cx cy (radius - 6) color_obsidian v1 else v1 in
    let v3 =
      if ltb 12 radius then vbe_fill_circle cx cy (radius / 2) color_cochineal_red v2 else v2 in
    vbe_draw_circle cx cy radius color_aztec_gold v3
