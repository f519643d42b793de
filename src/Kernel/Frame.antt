-- ===== src/Kernel/Frame.antt =====
-- A round of the main loop comes to an end, and what it leaves.
use quetzal_os.Base.{
  ℕ, ◌*◌, ◌/◌, ◌^◌, ◌≤◌, ◌<◌, ◌≡◌, refl, sym, ap, ◌∙◌, List, [], Option, some, length, arith,
}
use quetzal_os.Keyboard.Ring
use quetzal_os.Keyboard.Ring.{contents, fill, length-contents}
use quetzal_os.Console.Draw.{console_draw, console_draw-IsDrawing}
use quetzal_os.Console.Prompt.{IsPrompt, typed}
use quetzal_os.Mouse.{Mouse}
use quetzal_os.Mouse.Cursor.{mouse_draw_cursor, mouse_draw_cursor-IsDrawing}
use quetzal_os.Vbe.{Vbe, vbe_draw_line, color_obsidian, color_turquoise}
use quetzal_os.Vbe.Frame.{IsValid, Draws, Draws-trans, Draws-IsValid, vbe_draw_line-Draws}
use quetzal_os.Vbe.Steps.{IsDrawing, then-IsDrawing}
use quetzal_os.Vbe.Clear.{vbe_clear, vbe_swap_buffers, pixels, vbe_swap_buffers_lem}
use quetzal_os.Widget
use quetzal_os.Widget.Draw.{widget_draw_all-IsDrawing}
use quetzal_os.Serpentc.{Env}
use quetzal_os.Serpentc.Effect.{IsReady, vbe_clear-Draws}
use quetzal_os.Kernel.{WidgetFn, Kernel, call_widget, draw_desktop, draw_overlay, frame}
use quetzal_os.Kernel.Widgets.{call_widget-IsDrawing}
use quetzal_os.Kernel.Keys.{typed_keys, read_keys-Drained}

-- The state as the main loop finds and leaves it.
pub record IsRunning (s : Kernel) : Type 0 where
  pub ready : IsReady s.env
  pub prompt : IsPrompt s.env.console
  pub ring : Ring.IsValid s.kbd

pub sized-IsReady :
    (e : Env) (v : Vbe)
    → v.fb_w ≡ e.screen.fb_w
    → v.fb_h ≡ e.screen.fb_h
    → v.fb_pitch_pixels ≡ e.screen.fb_pitch_pixels
    → IsReady e
    → IsReady (record e { screen = v })
sized-IsReady e v w h p r = record {
  screen_ok = omega (arith, w, p, r.screen_ok);
  small = rw (h, p) r.small;
  buffers = r.buffers;
  lines = r.lines;
}

-- From `v` to `w` the frame that `w` holds in its back buffer was shown.
pub record Shown (v w : Vbe) : Type 0 where
  pub same_w : w.fb_w ≡ v.fb_w
  pub same_h : w.fb_h ≡ v.fb_h
  pub same_pitch : w.fb_pitch_pixels ≡ v.fb_pitch_pixels
  pub shown : (i : ℕ) → i < 2 * (pixels v / 2) → w.lfb i ≡ w.backbuffer i
  pub behind : (i : ℕ) → pixels v ≤ i → (w.backbuffer i ≡ v.backbuffer i) × (w.lfb i ≡ v.lfb i)

pub swap-backbuffer : (u : Vbe) (i : ℕ) → (vbe_swap_buffers u).backbuffer i ≡ u.backbuffer i
unfolding vbe_swap_buffers
swap-backbuffer u i = refl

swap-Shown : (v u : Vbe) → Draws v u → pixels v < 2 ^ 62 → Shown v (vbe_swap_buffers u)
swap-Shown v u d small =
    let same : pixels u ≡ pixels v = rw (d.same_h, d.same_pitch) refl in
    let small' : pixels u < 2 ^ 62 = rw same small in
    record {
      same_w = unfold vbe_swap_buffers in d.same_w;
      same_h = unfold vbe_swap_buffers in d.same_h;
      same_pitch = unfold vbe_swap_buffers in d.same_pitch;
      shown =
          λ i h. vbe_swap_buffers_lem u i small' ∙ ground (arith, same) ∙ sym (swap-backbuffer u i);
      behind = λ i h. (
        swap-backbuffer u i ∙ d.behind i h,
        vbe_swap_buffers_lem u i small' ∙ ground (arith, same) ∙ ap (λ f. f i) d.same_lfb,
      );
    }

module _ (font : ℕ → List ℕ) where
  pub draw_desktop-Draws :
      (ticks : ℕ) (ws : Widget.Widgets WidgetFn) (v : Vbe)
      → IsValid v
      → pixels v < 2 ^ 62
      → Draws v (draw_desktop font ticks ws v)
  unfolding draw_desktop
  draw_desktop-Draws ticks ws v ok small =
      let clear = vbe_clear-Draws color_obsidian v small in
      let rest =
        then-IsDrawing (Widget.widget_draw_all font (call_widget font ticks) ticks ws)
          (vbe_draw_line 0 440 800 455 color_turquoise)
          (widget_draw_all-IsDrawing font (call_widget font ticks)
            (call_widget-IsDrawing font ticks) ticks ws)
          (vbe_draw_line-Draws 0 440 800 455 color_turquoise) in
      Draws-trans clear (rest (vbe_clear color_obsidian v) (Draws-IsValid clear ok))

  draw_overlay-IsDrawing : (m : Mouse) (e : Env) → IsDrawing (draw_overlay font m e)
  unfolding draw_overlay
  draw_overlay-IsDrawing m e v ok =
      then-IsDrawing (console_draw font e.ticks e.console) (mouse_draw_cursor m)
        (console_draw-IsDrawing font e.ticks e.console) (mouse_draw_cursor-IsDrawing m) v ok

  -- What a round of the main loop leaves.
  pub record Framed (s : Kernel) (r : Option Kernel) : Type 0 where
    pub after : Kernel
    pub returns : r ≡ some after
    pub running : IsRunning after
    pub drained : contents after.kbd ≡ []
    pub typed_is : typed after.env.console ≡ typed_keys (contents s.kbd) (typed s.env.console)
    pub screen : Shown s.env.screen after.env.screen
    pub same_mouse : after.mouse ≡ s.mouse
    pub same_widgets : after.widgets ≡ s.widgets

  -- From a state with a valid screen, table, console, prompt and ring, a round of the main loop comes
  -- to an end, with every script that the waiting keys enter; all keys that waited reached the prompt
  -- in their order and none waits any longer; the state is valid again, with the same mouse and
  -- widgets; the linear frame buffer shows the back buffer, but for the last cell of a screen of an
  -- odd number of cells; and no cell of either buffer behind the screen has changed.
  pub frame-Framed : (s : Kernel) → IsRunning s → Framed s (frame font s)
  unfolding frame
  frame-Framed s run =
      let v1 = draw_desktop font s.env.ticks s.widgets s.env.screen in
      let d1 =
        draw_desktop-Draws s.env.ticks s.widgets s.env.screen run.ready.screen_ok run.ready.small in
      let drawn = record s.env { screen = v1 } in
      let ready1 = sized-IsReady s.env v1 d1.same_w d1.same_h d1.same_pitch run.ready in
      let room : length (contents s.kbd) < 256 = omega (arith, length-contents s.kbd) in
      let keys = read_keys-Drained 256 s.kbd drawn room run.ring ready1 run.prompt in
      let v2 = draw_overlay font s.mouse keys.after keys.after.screen in
      let d2 = draw_overlay-IsDrawing s.mouse keys.after keys.after.screen keys.ready.screen_ok in
      let all = Draws-trans (Draws-trans d1 keys.drawn) d2 in
      let shown = swap-Shown s.env.screen v2 all run.ready.small in
      let own = swap-Shown keys.after.screen v2 d2 keys.ready.small in
      let ready2 =
        sized-IsReady keys.after (vbe_swap_buffers v2) own.same_w own.same_h own.same_pitch
          keys.ready in
      rw (frame, keys.returns)
        (record {
          after = record s {
            kbd = keys.kbd;
            env = record keys.after { screen = vbe_swap_buffers v2 };
          };
          returns = refl;
          running = record { ready = ready2; prompt = keys.prompt; ring = keys.ring };
          drained = keys.empty;
          typed_is = keys.typed_is;
          screen = shown;
          same_mouse = refl;
          same_widgets = refl;
        })
