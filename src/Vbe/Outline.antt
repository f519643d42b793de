-- ===== src/Vbe/Outline.antt =====
-- The circles and the text write the screen alone.
use quetzal_os.Base.{
  ℕ, zero, suc, ◌+◌, ◌-◌, not, ◌&&◌, ◌||◌, List, [], ◌∷◌, byte_test, ltb, leb, ◌==◌, if◌then◌else◌,
  u32, ℤ, pos, ltb_ℤ, int_of,
}
use quetzal_os.Vbe.{Vbe, vbe_draw_pixel, vbe_draw_hline, color_transparent}
use quetzal_os.Vbe.Shapes.{
  circle_points, circle_lines, circle_loop, vbe_draw_circle, vbe_fill_circle, glyph_row, glyph_rows,
  any_row, glyph_index, vbe_draw_char, string_loop, vbe_draw_string,
}
use quetzal_os.Vbe.Frame.{
  IsValid, Draws, Draws-refl, Draws-trans, Draws-if, Draws-IsValid, vbe_draw_pixel-Draws,
  vbe_draw_hline-Draws,
}

-- One operation behind others.
then_Draws :
    {u v : Vbe} (f : Vbe → Vbe)
    → ((w : Vbe) → IsValid w → Draws w (f w))
    → IsValid u
    → Draws u v
    → Draws u (f v)
then_Draws {v = v} f each valid d = Draws-trans d (each v (Draws-IsValid d valid))

point : (x y color : ℕ) (w : Vbe) → IsValid w → Draws w (vbe_draw_pixel x y color w)
point x y color w h = vbe_draw_pixel-Draws x y color w h

circle_points-Draws :
    (cx cy : ℕ) (x y : ℤ) (color : ℕ) (v : Vbe)
    → IsValid v
    → Draws v (circle_points cx cy x y color v)
unfolding circle_points
circle_points-Draws cx cy x y color v h =
    then_Draws (vbe_draw_pixel _ _ color) (point _ _ color) h (
      then_Draws (vbe_draw_pixel _ _ color) (point _ _ color) h (
        then_Draws (vbe_draw_pixel _ _ color) (point _ _ color) h (
          then_Draws (vbe_draw_pixel _ _ color) (point _ _ color) h (
            then_Draws (vbe_draw_pixel _ _ color) (point _ _ color) h (
              then_Draws (vbe_draw_pixel _ _ color) (point _ _ color) h (
                then_Draws (vbe_draw_pixel _ _ color) (point _ _ color) h
                  (point _ _ color v h)))))))

circle_lines-Draws :
    (cx cy : ℕ) (x y : ℤ) (color : ℕ) (v : Vbe)
    → IsValid v
    → Draws v (circle_lines cx cy x y color v)
unfolding circle_lines
circle_lines-Draws cx cy x y color v h =
    let line =
      λ (a b c : ℤ) (w : Vbe) (valid : IsValid w). vbe_draw_hline-Draws a b c color w valid in
    then_Draws (vbe_draw_hline _ _ _ color) (line _ _ _) h (
      then_Draws (vbe_draw_hline _ _ _ color) (line _ _ _) h
        (then_Draws (vbe_draw_hline _ _ _ color) (line _ _ _) h (line _ _ _ v h)))

circle_loop-Draws :
    (round : ℤ → ℤ → Vbe → Vbe)
    → ((x y : ℤ) (w : Vbe) → IsValid w → Draws w (round x y w))
    → (n : ℕ) (x y err : ℤ) (v : Vbe) → IsValid v
    → Draws v (circle_loop round n x y err v)
unfolding circle_loop
circle_loop-Draws round each zero x y err v h = Draws-refl v
circle_loop-Draws round each (suc n) x y err v h = Draws-if (ltb_ℤ x y) (Draws-refl v) (
    Draws-trans (each x y v h)
      (circle_loop-Draws round each n _ _ _ (round x y v) (Draws-IsValid (each x y v h) h)))

pub vbe_draw_circle-Draws :
    (cx cy radius color : ℕ) (v : Vbe) → IsValid v → Draws v (vbe_draw_circle cx cy radius color v)
unfolding vbe_draw_circle
vbe_draw_circle-Draws cx cy radius color v h =
    Draws-if (v.fb_w == 0 || v.fb_h == 0) (Draws-refl v) (
      Draws-if (radius == 0) (vbe_draw_pixel-Draws cx cy color v h) (
        circle_loop-Draws (λ x y u. circle_points cx cy x y color u)
          (λ x y u. circle_points-Draws cx cy x y color u) (radius + 2) (int_of radius) (pos 0)
          (pos 0) v h))

pub vbe_fill_circle-Draws :
    (cx cy radius color : ℕ) (v : Vbe) → IsValid v → Draws v (vbe_fill_circle cx cy radius color v)
unfolding vbe_fill_circle
vbe_fill_circle-Draws cx cy radius color v h =
    Draws-if (v.fb_w == 0 || v.fb_h == 0) (Draws-refl v) (
      Draws-if (radius == 0) (vbe_draw_pixel-Draws cx cy color v h) (
        circle_loop-Draws (λ x y u. circle_lines cx cy x y color u)
          (λ x y u. circle_lines-Draws cx cy x y color u) (radius + 2) (int_of radius) (pos 0)
          (pos 0) v h))

module _ (font : ℕ → List ℕ) where
  pub glyph_row-Draws :
      (n col bits x y fg bg : ℕ) (v : Vbe)
      → IsValid v
      → Draws v (glyph_row font n col bits x y fg bg v)
  unfolding glyph_row
  glyph_row-Draws zero col bits x y fg bg v h = Draws-refl v
  glyph_row-Draws (suc n) col bits x y fg bg v h =
      let d = Draws-if (byte_test bits (7 - col)) (vbe_draw_pixel-Draws (u32 (x + col)) y fg v h) (
        Draws-if (not (bg == color_transparent)) (vbe_draw_pixel-Draws (u32 (x + col)) y bg v h)
          (Draws-refl v)) in
      Draws-trans d (glyph_row-Draws n (col + 1) bits x y fg bg _ (Draws-IsValid d h))

  pub glyph_rows-Draws :
      (rows : List ℕ) (row x y fg bg : ℕ) (v : Vbe)
      → IsValid v
      → Draws v (glyph_rows font rows row x y fg bg v)
  unfolding glyph_rows
  glyph_rows-Draws [] row x y fg bg v h = Draws-refl v
  glyph_rows-Draws (bits ∷ rows) row x y fg bg v h =
      let d = glyph_row-Draws 8 0 bits x (u32 (y + row)) fg bg v h in
      Draws-trans d (glyph_rows-Draws rows (row + 1) x y fg bg _ (Draws-IsValid d h))

  pub vbe_draw_char-Draws :
      (x y c fg bg : ℕ) (v : Vbe) → IsValid v → Draws v (vbe_draw_char font x y c fg bg v)
  unfolding vbe_draw_char
  vbe_draw_char-Draws x y c fg bg v h =
      Draws-if (not (any_row font (font (glyph_index font c))) && bg == color_transparent)
        (Draws-refl v) (glyph_rows-Draws (font (glyph_index font c)) 0 x y fg bg v h)

  pub string_loop-Draws :
      (str : List ℕ) (x cx cy fg bg : ℕ) (v : Vbe)
      → IsValid v
      → Draws v (string_loop font str x cx cy fg bg v)
  unfolding string_loop
  string_loop-Draws [] x cx cy fg bg v h = Draws-refl v
  string_loop-Draws (c ∷ cs) x cx cy fg bg v h =
      let wraps = c == b'\n' || ltb v.fb_w (u32 (cx + 8)) in
      let cx' = if wraps then x else cx in
      let cy' = if wraps then u32 (cy + 10) else cy in
      let d = Draws-if (c == b'\n') (Draws-refl v) (vbe_draw_char-Draws cx' cy' c fg bg v h) in
      Draws-if (c == 0 || wraps && leb v.fb_h cy') (Draws-refl v)
        (Draws-trans d (string_loop-Draws cs x _ cy' fg bg _ (Draws-IsValid d h)))

  pub vbe_draw_string-Draws :
      (x y : ℕ) (str : List ℕ) (fg bg : ℕ) (v : Vbe)
      → IsValid v
      → Draws v (vbe_draw_string font x y str fg bg v)
  unfolding vbe_draw_string
  vbe_draw_string-Draws x y str fg bg v h =
      Draws-if (leb v.fb_w x || leb v.fb_h y) (Draws-refl v) (string_loop-Draws str x x y fg bg v h)
