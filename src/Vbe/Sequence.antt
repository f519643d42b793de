-- ===== src/Vbe/Sequence.antt =====
-- Any sequence of the drawing operations of kernel/drivers/vbe.h.
use quetzal_os.Base.{ℕ, List, [], ◌∷◌}
use quetzal_os.Vbe.{Vbe, vbe_draw_pixel, vbe_fill_rect, vbe_draw_line}
use quetzal_os.Vbe.Shapes.{vbe_draw_circle, vbe_fill_circle, vbe_draw_char, vbe_draw_string}
use quetzal_os.Vbe.Frame.{
  IsValid, Draws, Draws-refl, Draws-trans, Draws-IsValid, vbe_draw_pixel-Draws, vbe_fill_rect-Draws,
  vbe_draw_line-Draws,
}
use quetzal_os.Vbe.Outline.{
  vbe_draw_circle-Draws, vbe_fill_circle-Draws, vbe_draw_char-Draws, vbe_draw_string-Draws,
}

-- A call of one of the operations that draw into the back buffer.
pub data Drawing : Type 0 where
  pixel : (x y color : ℕ) → Drawing
  rect : (x y w h color : ℕ) → Drawing
  line : (x0 y0 x1 y1 color : ℕ) → Drawing
  circle : (cx cy radius color : ℕ) → Drawing
  disc : (cx cy radius color : ℕ) → Drawing
  glyph : (x y c fg bg : ℕ) → Drawing
  string : (x y : ℕ) (str : List ℕ) (fg bg : ℕ) → Drawing

module _ (font : ℕ → List ℕ) where
  abbrev pub draw : Drawing → Vbe → Vbe
  draw (pixel x y color) v = vbe_draw_pixel x y color v
  draw (rect x y w h color) v = vbe_fill_rect x y w h color v
  draw (line x0 y0 x1 y1 color) v = vbe_draw_line x0 y0 x1 y1 color v
  draw (circle cx cy radius color) v = vbe_draw_circle cx cy radius color v
  draw (disc cx cy radius color) v = vbe_fill_circle cx cy radius color v
  draw (glyph x y c fg bg) v = vbe_draw_char font x y c fg bg v
  draw (string x y str fg bg) v = vbe_draw_string font x y str fg bg v

  abbrev pub draw_all : List Drawing → Vbe → Vbe
  draw_all [] v = v
  draw_all (d ∷ ds) v = draw_all ds (draw d v)

  draw-Draws : (d : Drawing) (v : Vbe) → IsValid v → Draws v (draw d v)
  draw-Draws (pixel x y color) v h = vbe_draw_pixel-Draws x y color v h
  draw-Draws (rect x y a b color) v h = vbe_fill_rect-Draws x y a b color v h
  draw-Draws (line x0 y0 x1 y1 color) v h = vbe_draw_line-Draws x0 y0 x1 y1 color v h
  draw-Draws (circle cx cy radius color) v h = vbe_draw_circle-Draws cx cy radius color v h
  draw-Draws (disc cx cy radius color) v h = vbe_fill_circle-Draws cx cy radius color v h
  draw-Draws (glyph x y c fg bg) v h = vbe_draw_char-Draws font x y c fg bg v h
  draw-Draws (string x y str fg bg) v h = vbe_draw_string-Draws font x y str fg bg v h

  -- When a line of the buffer has room for a line of the screen, any sequence of drawing operations,
  -- with any arguments, leaves the sides of the screen, the linear frame buffer and every cell of the
  -- back buffer behind the screen's last line as they were.
  pub draw_all-Draws : (ds : List Drawing) (v : Vbe) → IsValid v → Draws v (draw_all ds v)
  draw_all-Draws [] v h = Draws-refl v
  draw_all-Draws (d ∷ ds) v h =
      let first = draw-Draws d v h in
      Draws-trans first (draw_all-Draws ds (draw d v) (Draws-IsValid first h))
