-- ===== src/Vbe.antt =====
-- kernel/drivers/vbe.c: the frame buffer. Both buffers are functions from the index of a pixel to
-- its 32-bit value, so that `backbuffer[i]` is `v.backbuffer i`, whatever lies behind the screen.
-- The coordinates of the line and the circles are `int`; for screens and radii below 2 ^ 29 no sum
-- of theirs leaves its range, and the model computes with integers.
pub mod Shapes
pub mod Frame
pub mod Outline
pub mod Sequence
pub mod Rect
pub mod Clear
pub mod Keeps
pub mod Probe
pub mod Steps
pub mod Line
pub mod Ends
pub mod Arc
pub mod Circle
pub mod Glyph
pub mod Text
mod Examples
use quetzal_os.Base.{
  ℕ, zero, suc, ◌+◌, ◌-◌, ◌*◌, ◌/◌, ◌%◌, ◌^◌, ◌≤◌, ◌<◌, ◌≡◌, ◌≢◌, ◌↔◌, refl, sym, ap, ◌∙◌, fun_ext,
  Bool, true, false, not, ◌&&◌, ◌||◌, ◌⊎◌, inl, inr, List, [], ◌∷◌, ◌++◌, map, Option, none, some,
  append-nil, append_assoc, min, or_nibble, bit_and, bit_or, byte_set, byte_clear, byte_test,
  get_or, set, take, drop, replicate, length, length-append, length-set, length-replicate,
  length-take, length-drop, get_or-set_self, get_or-set_ne, take-append-drop, ltb, leb, ◌==◌,
  if◌then◌else◌, Bool-cases, Option-cases, Bool-ext, ==_iff, ltb_iff, arith, all_below,
  all_below_sound, codes, cstr, copy_str, length-copy_str, cstr-copy_str, length-cstr, cstr-cstr,
  length-take-cstr, u8, u16, u32, u64, sub_u32, ℤ, pos, negsuc, pos_part, neg_part, sub_ℕ, ◌+ℤ◌,
  ◌-ℤ◌, ltb_ℤ, leb_ℤ, eqb_ℤ, int_of, word_of,
}

abbrev pub color_obsidian : ℕ
color_obsidian = 0x000b_0b0e

abbrev pub color_jade : ℕ
color_jade = 0x0000_a86b

abbrev pub color_aztec_gold : ℕ
color_aztec_gold = 0x00c5_9b27

abbrev pub color_turquoise : ℕ
color_turquoise = 0x0040_e0d0

abbrev pub color_cochineal_red : ℕ
color_cochineal_red = 0x009e_0027

abbrev pub color_feather_white : ℕ
color_feather_white = 0x00f0_f8ff

abbrev pub color_transparent : ℕ
color_transparent = 0xffff_ffff

pub record Vbe : Type 0 where
  pub fb_w : ℕ
  pub fb_h : ℕ
  pub fb_pitch_pixels : ℕ
  pub backbuffer : ℕ → ℕ
  pub lfb : ℕ → ℕ

abbrev pub vbe_get_width : Vbe → ℕ
vbe_get_width v = v.fb_w

abbrev pub vbe_get_height : Vbe → ℕ
vbe_get_height v = v.fb_h

-- `p[i] = color`
abbrev pub write : (ℕ → ℕ) → ℕ → ℕ → ℕ → ℕ
write p i color j = if i == j then color else p j

-- The index is computed on 32 bits.
abbrev pub index : Vbe → ℕ → ℕ → ℕ
index v x y = u32 (u32 (y * v.fb_pitch_pixels) + x)

unfoldable pub vbe_put_pixel : ℕ → ℕ → ℕ → Vbe → Vbe
vbe_put_pixel x y color v = record v { backbuffer = write v.backbuffer (index v x y) color }

unfoldable pub vbe_draw_pixel : ℕ → ℕ → ℕ → Vbe → Vbe
vbe_draw_pixel x y color v = if ltb x v.fb_w && ltb y v.fb_h then vbe_put_pixel x y color v else v

-- The inner loop of `vbe_fill_rect`, at column `px` with the columns left, and the outer one.
unfoldable pub fill_row : ℕ → ℕ → ℕ → ℕ → Vbe → Vbe
fill_row zero px py color v = v
fill_row (suc n) px py color v = fill_row n (px + 1) py color (vbe_put_pixel px py color v)

unfoldable pub fill_rows : ℕ → ℕ → ℕ → ℕ → ℕ → Vbe → Vbe
unfolding fill_row
fill_rows zero py x cols color v = v
fill_rows (suc n) py x cols color v = fill_rows n (py + 1) x cols color (fill_row cols x py color v)

-- The end of a side, clipped: `x_end` from `x`, the width and the screen's width.
abbrev pub clip_end : ℕ → ℕ → ℕ → ℕ
clip_end x w bound =
    let x_end = u32 (x + w) in if ltb bound x_end || ltb x_end x then bound else x_end

unfoldable pub vbe_fill_rect : ℕ → ℕ → ℕ → ℕ → ℕ → Vbe → Vbe
unfolding fill_rows
vbe_fill_rect x y w h color v =
    if leb v.fb_w x || leb v.fb_h y
    then v
    else fill_rows (clip_end y h v.fb_h - y) y x (clip_end x w v.fb_w - x) color v

-- One coordinate of a line, clamped to the screen.
abbrev pub clamp_coord : ℕ → ℕ → ℕ
clamp_coord a bound = if leb bound a then (if ltb 0x7fff_ffff a then 0 else bound - 1) else a

abbrev pub sign_step : ℕ → ℕ → ℤ
sign_step a b = if ltb a b then pos 1 else negsuc 0

-- The loop of `vbe_draw_line`, with the rounds allowed: where they run out, the model's loop stops and
-- the source's goes on. That cannot happen on a screen of at most 2 ^ 29 columns and rows, and there
-- the integers stay within 32 bits, so that no sum of the source overflows.
unfoldable pub line_loop : ℕ → ℕ → ℕ → ℕ → ℕ → ℤ → ℤ → ℕ → ℤ → ℤ → ℤ → Vbe → Vbe
line_loop zero x1 y1 dx dy sx sy color x y err v = v
line_loop (suc fuel) x1 y1 dx dy sx sy color x y err v =
    let v' = vbe_draw_pixel (word_of x) (word_of y) color v in
    let e2 = err +ℤ err in
    let go_x = ltb_ℤ (pos 0 -ℤ pos dy) e2 in
    let go_y = ltb_ℤ e2 (pos dx) in
    let err_x = if go_x then err -ℤ pos dy else err in
    let err_y = if go_y then err_x +ℤ pos dx else err_x in
    let x' = if go_x then x +ℤ sx else x in
    let y' = if go_y then y +ℤ sy else y in
    let rest = line_loop fuel x1 y1 dx dy sx sy color x' y' err_y v' in
    if eqb_ℤ x (int_of x1) && eqb_ℤ y (int_of y1) then v' else rest

abbrev pub distance : ℕ → ℕ → ℕ
distance a b = if ltb b a then a - b else b - a

-- A round goes one pixel on in one coordinate at least, so the sum of the distances and one more
-- are rounds enough.
unfoldable pub vbe_draw_line : ℕ → ℕ → ℕ → ℕ → ℕ → Vbe → Vbe
unfolding line_loop
vbe_draw_line x0 y0 x1 y1 color v =
    let ax = clamp_coord x0 v.fb_w in
    let bx = clamp_coord x1 v.fb_w in
    let ay = clamp_coord y0 v.fb_h in
    let by = clamp_coord y1 v.fb_h in
    let dx = distance bx ax in
    let dy = distance by ay in
    let drawn =
      line_loop (dx + dy + 1) bx by dx dy (sign_step ax bx) (sign_step ay by) color (int_of ax)
        (int_of ay) (pos dx -ℤ pos dy) v in
    if v.fb_w == 0 || v.fb_h == 0 then v else drawn

-- The loop of `vbe_draw_hline`: the rounds left from `px` on.
unfoldable pub hline_loop : ℕ → ℕ → ℕ → ℕ → Vbe → Vbe
hline_loop zero px y color v = v
hline_loop (suc n) px y color v = hline_loop n (px + 1) y color (vbe_put_pixel px y color v)

-- `vbe_draw_hline` on the ordered ends, clipped: `pos_part` is the clip at 0 of the left end.
unfoldable pub hline_ordered : ℤ → ℤ → ℤ → ℕ → Vbe → Vbe
unfolding hline_loop
hline_ordered x0 x1 y color v =
    let left = pos_part x0 in
    let right = if leb v.fb_w (word_of x1) then v.fb_w - 1 else word_of x1 in
    if ltb_ℤ y (pos 0) || leb v.fb_h (word_of y)
    then v
    else if ltb_ℤ x1 (pos 0) || leb v.fb_w (word_of x0)
    then v
    else hline_loop (right + 1 - left) left (word_of y) color v

unfoldable pub vbe_draw_hline : ℤ → ℤ → ℤ → ℕ → Vbe → Vbe
unfolding hline_ordered
vbe_draw_hline x0 x1 y color v =
    if ltb_ℤ x1 x0 then hline_ordered x1 x0 y color v else hline_ordered x0 x1 y color v
