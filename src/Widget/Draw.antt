-- ===== src/Widget/Draw.antt =====
-- Drawing the widgets writes no cell but those of the screen.
use quetzal_os.Base.{
  ℕ, zero, suc, ◌+◌, ◌&&◌, List, [], ◌∷◌, Option, none, some, u32, sub_u32, get_or, leb, ◌==◌,
}
use quetzal_os.Vbe.{Vbe, vbe_fill_rect, color_transparent}
use quetzal_os.Vbe.Frame.{Draws-refl, Draws-trans, Draws-if, Draws-IsValid, vbe_fill_rect-Draws}
use quetzal_os.Vbe.Outline.{vbe_draw_string-Draws}
use quetzal_os.Vbe.Steps.{IsDrawing, then-IsDrawing}
use quetzal_os.Widget.{
  Widget, Widgets, is_framed, is_header, draw_background, draw_frame, draw_header, draw_inside,
  draw_widget, draw_widgets, widget_draw_all,
}

module _ {Fn : Type 0} (font : ℕ → List ℕ) (call : Fn → Widget Fn → ℕ → Vbe → Vbe) where
  draw_background-IsDrawing : (w : Widget Fn) → IsDrawing (draw_background font call w)
  unfolding draw_background
  draw_background-IsDrawing w v ok =
      Draws-if (w.bg_color == color_transparent) (Draws-refl v)
        (vbe_fill_rect-Draws w.left w.top w.wide w.high w.bg_color v ok)

  draw_frame-IsDrawing : (w : Widget Fn) → IsDrawing (draw_frame font call w)
  unfolding draw_frame
  draw_frame-IsDrawing w v ok =
      let x = w.left in
      let y = w.top in
      let c = w.border_color in
      Draws-if (is_framed w.style)
        (then-IsDrawing (vbe_fill_rect x y w.wide 2 c) _ (vbe_fill_rect-Draws x y w.wide 2 c)
          (then-IsDrawing (vbe_fill_rect x (sub_u32 (u32 (y + w.high)) 2) w.wide 2 c) _
            (vbe_fill_rect-Draws x (sub_u32 (u32 (y + w.high)) 2) w.wide 2 c)
            (then-IsDrawing (vbe_fill_rect x y 2 w.high c) _ (vbe_fill_rect-Draws x y 2 w.high c)
              (vbe_fill_rect-Draws (sub_u32 (u32 (x + w.wide)) 2) y 2 w.high c)))
          v ok)
        (Draws-refl v)

  draw_header-IsDrawing : (w : Widget Fn) → IsDrawing (draw_header font call w)
  unfolding draw_header
  draw_header-IsDrawing w v ok =
      let first =
        vbe_fill_rect-Draws (u32 (w.left + 2)) (u32 (w.top + 2)) (sub_u32 w.wide 4) 20
          w.header_color v ok in
      let text =
        vbe_draw_string-Draws font (u32 (w.left + 8)) (u32 (w.top + 6)) w.title w.text_color
          w.header_color _ (Draws-IsValid first ok) in
      Draws-if (is_header w.style && leb 24 w.high)
        (Draws-if (get_or w.title 0 0 == 0) first (Draws-trans first text)) (Draws-refl v)

  -- Every function that a widget can hold only draws.
  abbrev pub AreDrawing : Type 0
  AreDrawing = (f : Fn) (w : Widget Fn) (tick : ℕ) → IsDrawing (call f w tick)

  draw_widget-IsDrawing :
      AreDrawing → (tick : ℕ) (w : Widget Fn) → IsDrawing (draw_widget font call tick w)
  unfolding draw_widget
  draw_widget-IsDrawing calls tick w v ok =
      let back = draw_background-IsDrawing w v ok in
      let frame = draw_frame-IsDrawing w _ (Draws-IsValid back ok) in
      let around = Draws-trans back frame in
      let banner = draw_header-IsDrawing w _ (Draws-IsValid around ok) in
      let outside = Draws-trans around banner in
      Draws-if w.visible (Draws-trans outside (inside w.draw_content _ (Draws-IsValid outside ok)))
        (Draws-refl v)
    where
      inside : (o : Option Fn) → IsDrawing (draw_inside font call o w tick)
      inside none v ok = Draws-refl v
      inside (some f) v ok = calls f w tick v ok

  draw_widgets-IsDrawing :
      AreDrawing
      → (n tick : ℕ) (ws : List (Widget Fn)) → IsDrawing (draw_widgets font call n tick ws)
  unfolding draw_widgets
  draw_widgets-IsDrawing calls zero tick ws v ok = Draws-refl v
  draw_widgets-IsDrawing calls (suc n) tick [] v ok = Draws-refl v
  draw_widgets-IsDrawing calls (suc n) tick (w ∷ ws) v ok =
      then-IsDrawing (draw_widget font call tick w) (draw_widgets font call n tick ws)
        (draw_widget-IsDrawing calls tick w) (draw_widgets-IsDrawing calls n tick ws) v ok

  -- When every function that a widget can hold only draws, `widget_draw_all` only draws: on a screen
  -- whose lines fit the lines of the buffer, for widgets at any place and of any size, it writes no
  -- cell but those of the screen.
  pub widget_draw_all-IsDrawing :
      AreDrawing → (tick : ℕ) (s : Widgets Fn) → IsDrawing (widget_draw_all font call tick s)
  unfolding widget_draw_all
  widget_draw_all-IsDrawing calls tick s v ok =
      draw_widgets-IsDrawing calls s.widget_count tick s.widget_pool v ok
