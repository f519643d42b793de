-- ===== src/Vbe/Shapes.antt =====
-- The circles, the text, and the two operations over the whole buffer, of kernel/drivers/vbe.c. The
-- font is a parameter: the eight rows of a glyph by its code, which font8x8.c holds as data.
use quetzal_os.Base.{
  ℕ, zero, suc, ◌+◌, ◌-◌, Bool, false, not, ◌&&◌, ◌||◌, List, [], ◌∷◌, byte_test, ltb, leb, ◌==◌,
  if◌then◌else◌, u32, ℤ, pos, ◌+ℤ◌, ◌-ℤ◌, ltb_ℤ, int_of, word_of,
}
use quetzal_os.Vbe.{Vbe, vbe_draw_pixel, vbe_draw_hline, color_transparent}

infixl 65 ◌⊕◌
abbrev pub ◌⊕◌ : ℕ → ℤ → ℕ
w ⊕ d = word_of (int_of w +ℤ d)

abbrev pub neg : ℤ → ℤ
neg d = pos 0 -ℤ d

-- The eight points of one round of `vbe_draw_circle`.
unfoldable pub circle_points : ℕ → ℕ → ℤ → ℤ → ℕ → Vbe → Vbe
circle_points cx cy x y color v =
    let v1 = vbe_draw_pixel (cx ⊕ x) (cy ⊕ y) color v in
    let v2 = vbe_draw_pixel (cx ⊕ y) (cy ⊕ x) color v1 in
    let v3 = vbe_draw_pixel (cx ⊕ neg y) (cy ⊕ x) color v2 in
    let v4 = vbe_draw_pixel (cx ⊕ neg x) (cy ⊕ y) color v3 in
    let v5 = vbe_draw_pixel (cx ⊕ neg x) (cy ⊕ neg y) color v4 in
    let v6 = vbe_draw_pixel (cx ⊕ neg y) (cy ⊕ neg x) color v5 in
    let v7 = vbe_draw_pixel (cx ⊕ y) (cy ⊕ neg x) color v6 in
    vbe_draw_pixel (cx ⊕ x) (cy ⊕ neg y) color v7

-- The four lines of one round of `vbe_fill_circle`.
unfoldable pub circle_lines : ℕ → ℕ → ℤ → ℤ → ℕ → Vbe → Vbe
circle_lines cx cy x y color v =
    let left = λ (d : ℤ). int_of cx -ℤ d in
    let right = λ (d : ℤ). int_of cx +ℤ d in
    let v1 = vbe_draw_hline (left x) (right x) (int_of cy +ℤ y) color v in
    let v2 = vbe_draw_hline (left x) (right x) (int_of cy -ℤ y) color v1 in
    let v3 = vbe_draw_hline (left y) (right y) (int_of cy +ℤ x) color v2 in
    vbe_draw_hline (left y) (right y) (int_of cy -ℤ x) color v3

abbrev double : ℤ → ℤ
double a = a +ℤ a

-- The loop that both circles share, over what a round draws: `while (x >= y)`. The sums are those of
-- the integers; with a radius below 2 ^ 29 none of the source's overflows.
unfoldable pub circle_loop : (ℤ → ℤ → Vbe → Vbe) → ℕ → ℤ → ℤ → ℤ → Vbe → Vbe
circle_loop round zero x y err v = v
circle_loop round (suc fuel) x y err v =
    let y' = y +ℤ pos 1 in
    let err1 = err +ℤ (pos 1 +ℤ double y') in
    let inward = ltb_ℤ (pos 0) (double (err1 -ℤ x) +ℤ pos 1) in
    let x' = if inward then x -ℤ pos 1 else x in
    let err2 = if inward then err1 +ℤ (pos 1 -ℤ double x') else err1 in
    let rest = circle_loop round fuel x' y' err2 (round x y v) in if ltb_ℤ x y then v else rest

-- `y` grows by one in each round and `x` does not grow, so one round more than the radius is enough.
unfoldable pub vbe_draw_circle : ℕ → ℕ → ℕ → ℕ → Vbe → Vbe
unfolding circle_loop circle_points
vbe_draw_circle cx cy radius color v =
    let drawn =
      circle_loop (λ x y u. circle_points cx cy x y color u) (radius + 2) (int_of radius) (pos 0)
        (pos 0) v in
    if v.fb_w == 0 || v.fb_h == 0
    then v
    else if radius == 0
    then vbe_draw_pixel cx cy color v
    else drawn

unfoldable pub vbe_fill_circle : ℕ → ℕ → ℕ → ℕ → Vbe → Vbe
unfolding circle_loop circle_lines
vbe_fill_circle cx cy radius color v =
    let drawn =
      circle_loop (λ x y u. circle_lines cx cy x y color u) (radius + 2) (int_of radius) (pos 0)
        (pos 0) v in
    if v.fb_w == 0 || v.fb_h == 0
    then v
    else if radius == 0
    then vbe_draw_pixel cx cy color v
    else drawn

module _ (font : ℕ → List ℕ) where
  abbrev pub glyph_index : ℕ → ℕ
  glyph_index c = if leb 128 c then b'?' else c

  -- `any_pixel`
  abbrev pub any_row : List ℕ → Bool
  any_row [] = false
  any_row (b ∷ bs) = not (b == 0) || any_row bs

  -- The columns of one row, `left` of them to go from `col` on.
  unfoldable pub glyph_row : ℕ → ℕ → ℕ → ℕ → ℕ → ℕ → ℕ → Vbe → Vbe
  glyph_row zero col bits x y fg bg v = v
  glyph_row (suc left) col bits x y fg bg v = glyph_row left (col + 1) bits x y fg bg (
      if byte_test bits (7 - col)
      then vbe_draw_pixel (u32 (x + col)) y fg v
      else if not (bg == color_transparent)
      then vbe_draw_pixel (u32 (x + col)) y bg v
      else v)

  unfoldable pub glyph_rows : List ℕ → ℕ → ℕ → ℕ → ℕ → ℕ → Vbe → Vbe
  unfolding glyph_row
  glyph_rows [] row x y fg bg v = v
  glyph_rows (bits ∷ rows) row x y fg bg v =
      glyph_rows rows (row + 1) x y fg bg (glyph_row 8 0 bits x (u32 (y + row)) fg bg v)

  unfoldable pub vbe_draw_char : ℕ → ℕ → ℕ → ℕ → ℕ → Vbe → Vbe
  unfolding glyph_rows
  vbe_draw_char x y c fg bg v =
      let rows = font (glyph_index c) in
      if not (any_row rows) && bg == color_transparent then v else glyph_rows rows 0 x y fg bg v

  -- The loop of `vbe_draw_string` over the bytes that are left.
  unfoldable pub string_loop : List ℕ → ℕ → ℕ → ℕ → ℕ → ℕ → Vbe → Vbe
  unfolding vbe_draw_char
  string_loop [] x cx cy fg bg v = v
  string_loop (c ∷ cs) x cx cy fg bg v =
      let wraps = c == b'\n' || ltb v.fb_w (u32 (cx + 8)) in
      let cx' = if wraps then x else cx in
      let cy' = if wraps then u32 (cy + 10) else cy in
      let v' = if c == b'\n' then v else vbe_draw_char cx' cy' c fg bg v in
      let cx'' = if c == b'\n' then cx' else u32 (cx' + 8) in
      let rest = string_loop cs x cx'' cy' fg bg v' in
      if c == 0 || wraps && leb v.fb_h cy' then v else rest

  unfoldable pub vbe_draw_string : ℕ → ℕ → List ℕ → ℕ → ℕ → Vbe → Vbe
  unfolding string_loop
  vbe_draw_string x y str fg bg v =
      if leb v.fb_w x || leb v.fb_h y then v else string_loop str x x y fg bg v
