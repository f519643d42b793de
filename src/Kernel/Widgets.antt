-- ===== src/Kernel/Widgets.antt =====
-- The kernel's widgets only draw.
use Prim.Native.String.{String}
use quetzal_os.Base.{ℕ, ◌+◌, ◌/◌, ◌%◌, List, [], ◌∷◌, Option, none, some, codes, u32}
use quetzal_os.Pit.{pit_get_tonal_time}
use quetzal_os.Vbe.{
  color_obsidian, color_jade, color_aztec_gold, color_turquoise, color_feather_white,
}
use quetzal_os.Vbe.Shapes.{vbe_draw_string}
use quetzal_os.Vbe.Frame.{Draws-refl}
use quetzal_os.Vbe.Outline.{vbe_draw_string-Draws}
use quetzal_os.Vbe.Steps.{IsDrawing, then-IsDrawing}
use quetzal_os.RitualGeo.Frame.{
  draw_step_pyramid-IsDrawing, draw_sun_disk-IsDrawing, draw_feathered_serpent-IsDrawing,
}
use quetzal_os.Widget
use quetzal_os.Kernel.{
  WidgetFn, draw_banner_widget, draw_tonalpohualli_widget, draw_ritual_geo_widget, num_to_char,
  draw_banner, draw_sign, draw_tonal, draw_ritual_geo, call_widget,
}

module _ (font : ℕ → List ℕ) where
  text-IsDrawing :
      (x y : ℕ) (text : List ℕ) (fg bg : ℕ) → IsDrawing (vbe_draw_string font x y text fg bg)
  text-IsDrawing x y text fg bg v ok = vbe_draw_string-Draws font x y text fg bg v ok

  draw_sign-IsDrawing : (name : Option String) (x y : ℕ) → IsDrawing (draw_sign font name x y)
  draw_sign-IsDrawing none x y v ok = Draws-refl v
  draw_sign-IsDrawing (some name) x y v ok =
      text-IsDrawing x y (codes name) color_jade color_obsidian v ok

  draw_tonal-IsDrawing :
      (ticks : ℕ) (w : Widget.Widget WidgetFn) → IsDrawing (draw_tonal font ticks w)
  unfolding draw_tonal
  draw_tonal-IsDrawing ticks w v ok =
      let tonal = pit_get_tonal_time ticks in
      let x = u32 (w.left + 12) in
      let y = u32 (w.top + 32) in
      let digits =
        num_to_char (tonal.trecena_num / 10) ∷ num_to_char (tonal.trecena_num % 10) ∷ 0 ∷ 0 ∷ [] in
      then-IsDrawing _ _
        (text-IsDrawing x (u32 (w.top + 10)) (codes "=== TONALPOHUALLI SACRED TIME ===")
          color_aztec_gold color_obsidian)
        (then-IsDrawing _ _
          (text-IsDrawing x y (codes "TRECENA NUMBER:") color_turquoise color_obsidian)
          (then-IsDrawing _ _
            (text-IsDrawing (u32 (w.left + 144)) y digits color_feather_white color_obsidian)
            (then-IsDrawing _ _
              (text-IsDrawing x (u32 (w.top + 52)) (codes "DAY SIGN:") color_turquoise
                color_obsidian)
              (draw_sign-IsDrawing tonal.sign_name (u32 (w.left + 88)) (u32 (w.top + 52))))))
        v ok

  draw_ritual_geo-IsDrawing :
      (tick : ℕ) (w : Widget.Widget WidgetFn) → IsDrawing (draw_ritual_geo font tick w)
  unfolding draw_ritual_geo
  draw_ritual_geo-IsDrawing tick w v ok =
      let cx = u32 (w.left + w.wide / 2) in
      then-IsDrawing _ _ (draw_step_pyramid-IsDrawing cx (u32 (w.top + 190)) 240 6)
        (then-IsDrawing _ _ (draw_sun_disk-IsDrawing cx (u32 (w.top + 20)) 36)
          (draw_feathered_serpent-IsDrawing (u32 (w.left + 40)) (u32 (w.top + 230)) 16 tick))
        v ok

  pub call_widget-IsDrawing :
      (ticks : ℕ) (f : WidgetFn) (w : Widget.Widget WidgetFn) (tick : ℕ)
      → IsDrawing (call_widget font ticks f w tick)
  unfolding draw_banner
  call_widget-IsDrawing ticks draw_banner_widget w tick v ok =
      text-IsDrawing (u32 (w.left + 16)) (u32 (w.top + 12)) w.title color_feather_white color_jade v
        ok
  call_widget-IsDrawing ticks draw_tonalpohualli_widget w tick v ok =
      draw_tonal-IsDrawing ticks w v ok
  call_widget-IsDrawing ticks draw_ritual_geo_widget w tick v ok =
      draw_ritual_geo-IsDrawing tick w v ok
