-- ===== src/Console/Draw.antt =====
-- `console_draw` of kernel/graphics/console.c, with the ticks that it reads.
use quetzal_os.Base.{
  ℕ, zero, suc, ◌+◌, ◌-◌, ◌*◌, ◌/◌, ◌%◌, List, [], ◌∷◌, ltb, ◌==◌, if◌then◌else◌, codes, u32,
  sub_u32,
}
use quetzal_os.Vbe.{
  Vbe, vbe_fill_rect, color_obsidian, color_jade, color_aztec_gold, color_turquoise,
  color_feather_white,
}
use quetzal_os.Vbe.Shapes.{vbe_draw_char, vbe_draw_string}
use quetzal_os.Vbe.Frame.{Draws-refl, Draws-if, vbe_fill_rect-Draws}
use quetzal_os.Vbe.Outline.{vbe_draw_char-Draws, vbe_draw_string-Draws}
use quetzal_os.Vbe.Steps.{IsDrawing, then-IsDrawing, if-IsDrawing}
use quetzal_os.Console.{Console}

abbrev pub window_width : ℕ → ℕ
window_width sw = if ltb 40 sw then sw - 32 else sw

abbrev pub window_y : ℕ → ℕ
window_y sh = if ltb (114 + 10) sh then sh - 114 - 10 else 0

-- The frame and the bar.
unfoldable pub draw_window : ℕ → ℕ → Vbe → Vbe
draw_window win_w win_y v =
    let v1 = vbe_fill_rect 16 win_y win_w 114 color_aztec_gold v in
    let v2 =
      vbe_fill_rect (16 + 2) (u32 (win_y + 2)) (sub_u32 win_w 4) (114 - 4) color_obsidian v1 in
    vbe_fill_rect (16 + 2) (u32 (win_y + 2)) (sub_u32 win_w 4) 18 color_jade v2

module _ (font : ℕ → List ℕ) where
  -- The lines left of the first `n`, from line `i` on.
  unfoldable pub draw_history : ℕ → ℕ → List (List ℕ) → ℕ → Vbe → Vbe
  draw_history zero i ls win_y v = v
  draw_history (suc n) i [] win_y v = v
  draw_history (suc n) i (l ∷ ls) win_y v =
      draw_history n (i + 1) ls win_y (
        vbe_draw_string font (16 + 8) (u32 (win_y + 24 + i * 12)) l color_turquoise color_obsidian
          v)

  unfoldable pub draw_prompt : ℕ → Console → ℕ → Vbe → Vbe
  draw_prompt ticks c win_y v =
      let prompt_y = u32 (win_y + 114) - 18 in
      let v1 = vbe_draw_string font (16 + 8) prompt_y (codes "> ") color_jade color_obsidian v in
      let v2 =
        vbe_draw_string font (16 + 24) prompt_y c.prompt_buf color_feather_white color_obsidian
          v1 in
      if ticks / 25 % 2 == 0
      then vbe_draw_char font (u32 (16 + 24 + c.prompt_len * 8)) prompt_y b'_' color_aztec_gold
          color_obsidian v2
      else v2

  unfoldable pub console_draw : ℕ → Console → Vbe → Vbe
  unfolding draw_window draw_history draw_prompt
  console_draw ticks c v =
      let win_y = window_y v.fb_h in
      let v1 = draw_window (window_width v.fb_w) win_y v in
      let v2 =
        vbe_draw_string font (16 + 8) (u32 (win_y + 6))
          (codes "[ SERPENT-C REPL CONSOLE ] (Toggle: ~)") color_feather_white color_jade v1 in
      let v3 = draw_history c.history_count 0 c.history win_y v2 in
      if c.visible then draw_prompt ticks c win_y v3 else v

draw_window-IsDrawing : (win_w win_y : ℕ) → IsDrawing (draw_window win_w win_y)
unfolding draw_window
draw_window-IsDrawing win_w win_y v ok =
    then-IsDrawing (vbe_fill_rect 16 win_y win_w 114 color_aztec_gold) _
      (vbe_fill_rect-Draws 16 win_y win_w 114 color_aztec_gold)
      (then-IsDrawing
        (vbe_fill_rect (16 + 2) (u32 (win_y + 2)) (sub_u32 win_w 4) (114 - 4) color_obsidian) _
        (vbe_fill_rect-Draws (16 + 2) (u32 (win_y + 2)) (sub_u32 win_w 4) (114 - 4) color_obsidian)
        (vbe_fill_rect-Draws (16 + 2) (u32 (win_y + 2)) (sub_u32 win_w 4) 18 color_jade))
      v ok

module _ (font : ℕ → List ℕ) where
  draw_history-IsDrawing :
      (n i : ℕ) (ls : List (List ℕ)) (win_y : ℕ) → IsDrawing (draw_history font n i ls win_y)
  unfolding draw_history
  draw_history-IsDrawing zero i ls win_y v ok = Draws-refl v
  draw_history-IsDrawing (suc n) i [] win_y v ok = Draws-refl v
  draw_history-IsDrawing (suc n) i (l ∷ ls) win_y v ok =
      let y = u32 (win_y + 24 + i * 12) in
      then-IsDrawing (vbe_draw_string font (16 + 8) y l color_turquoise color_obsidian)
        (draw_history font n (i + 1) ls win_y)
        (vbe_draw_string-Draws font (16 + 8) y l color_turquoise color_obsidian)
        (draw_history-IsDrawing n (i + 1) ls win_y) v ok

  draw_prompt-IsDrawing :
      (ticks : ℕ) (c : Console) (win_y : ℕ) → IsDrawing (draw_prompt font ticks c win_y)
  unfolding draw_prompt
  draw_prompt-IsDrawing ticks c win_y v ok =
      let y = u32 (win_y + 114) - 18 in
      let x = u32 (16 + 24 + c.prompt_len * 8) in
      then-IsDrawing (vbe_draw_string font (16 + 8) y (codes "> ") color_jade color_obsidian) _
        (vbe_draw_string-Draws font (16 + 8) y (codes "> ") color_jade color_obsidian)
        (then-IsDrawing
          (vbe_draw_string font (16 + 24) y c.prompt_buf color_feather_white color_obsidian) _
          (vbe_draw_string-Draws font (16 + 24) y c.prompt_buf color_feather_white color_obsidian)
          (if-IsDrawing (ticks / 25 % 2 == 0)
            (vbe_draw_char font x y b'_' color_aztec_gold color_obsidian) (λ u. u)
            (vbe_draw_char-Draws font x y b'_' color_aztec_gold color_obsidian)
            (λ u h. Draws-refl u)))
        v ok

  pub console_draw-IsDrawing : (ticks : ℕ) (c : Console) → IsDrawing (console_draw font ticks c)
  unfolding console_draw
  console_draw-IsDrawing ticks c v ok =
      let win_y = window_y v.fb_h in
      let bar = codes "[ SERPENT-C REPL CONSOLE ] (Toggle: ~)" in
      Draws-if c.visible
        (then-IsDrawing (draw_window (window_width v.fb_w) win_y) _
          (draw_window-IsDrawing (window_width v.fb_w) win_y)
          (then-IsDrawing
            (vbe_draw_string font (16 + 8) (u32 (win_y + 6)) bar color_feather_white color_jade) _
            (vbe_draw_string-Draws font (16 + 8) (u32 (win_y + 6)) bar color_feather_white
              color_jade)
            (then-IsDrawing (draw_history font c.history_count 0 c.history win_y) _
              (draw_history-IsDrawing c.history_count 0 c.history win_y)
              (draw_prompt-IsDrawing ticks c win_y)))
          v ok)
        (Draws-refl v)
