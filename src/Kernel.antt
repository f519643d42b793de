-- ===== src/Kernel.antt =====
-- kernel/kernel.c: the widgets of the desktop, the choice of the framebuffer, the frame of the main
-- loop and what stands before it. The font is a parameter. Kernel.Steps has
-- the calls of the main loop one by one, with interrupts between them.
pub mod Keys
pub mod Widgets
pub mod Frame
pub mod Boot
pub mod Irq
pub mod Loop
pub mod Steps
pub mod Logged
pub mod Served
pub mod Advance
pub mod Interleave
pub mod Round
mod Examples
use Prim.Native.String.{String}
use quetzal_os.Base.{
  ℕ, zero, suc, ◌+◌, ◌-◌, ◌*◌, ◌/◌, ◌%◌, ◌^◌, ◌≤◌, ◌<◌, ◌≡◌, ◌≢◌, ◌↔◌, refl, sym, ap, ◌∙◌, fun_ext,
  Bool, true, false, not, ◌&&◌, ◌||◌, ◌⊎◌, inl, inr, List, [], ◌∷◌, ◌++◌, map, Option, none, some,
  append-nil, append_assoc, min, or_nibble, bit_and, bit_or, byte_set, byte_clear, byte_test,
  get_or, set, take, drop, replicate, length, length-append, length-set, length-replicate,
  length-take, length-drop, get_or-set_self, get_or-set_ne, take-append-drop, ltb, leb, ◌==◌,
  if◌then◌else◌, Bool-cases, Option-cases, Bool-ext, ==_iff, ltb_iff, arith, all_below,
  all_below_sound, codes, cstr, copy_str, length-copy_str, cstr-copy_str, length-cstr, cstr-cstr,
  length-take-cstr, u8, u16, u32, u64, sub_u32, ℤ, pos, negsuc, pos_part, neg_part, sub_ℕ, ◌+ℤ◌,
  ◌-ℤ◌, ltb_ℤ, leb_ℤ, eqb_ℤ, int_of, word_of,
}
use quetzal_os.Pit.{pit_get_tonal_time}
use quetzal_os.Keyboard.{Keyboard, keyboard_has_char, keyboard_getchar}
use quetzal_os.Mouse.{Mouse}
use quetzal_os.Mouse.Cursor.{mouse_draw_cursor}
use quetzal_os.Vbe.{
  Vbe, vbe_draw_line, color_obsidian, color_jade, color_aztec_gold, color_turquoise,
  color_feather_white,
}
use quetzal_os.Vbe.Shapes.{vbe_draw_string}
use quetzal_os.Vbe.Clear.{vbe_clear, vbe_swap_buffers}
use quetzal_os.Vbe.Probe.{qos_default_fb_width, qos_default_fb_height, qos_default_fb_pitch}
use quetzal_os.RitualGeo.{draw_step_pyramid, draw_sun_disk, draw_feathered_serpent}
use quetzal_os.Console.{console_toggle}
use quetzal_os.Console.Draw.{console_draw}
use quetzal_os.Widget
use quetzal_os.Serpentc.{Env}
use quetzal_os.Repl.{handle_char}

-- The functions that the kernel gives to widgets.
pub data WidgetFn : Type 0 where
  draw_banner_widget : WidgetFn
  draw_tonalpohualli_widget : WidgetFn
  draw_ritual_geo_widget : WidgetFn

abbrev pub num_to_char : ℕ → ℕ
num_to_char val = if ltb val 10 then b'0' + val else b'0' + val % 10

module _ (font : ℕ → List ℕ) where
  unfoldable pub draw_banner : Widget.Widget WidgetFn → Vbe → Vbe
  draw_banner w v =
      vbe_draw_string font (u32 (w.left + 16)) (u32 (w.top + 12)) w.title color_feather_white
        color_jade v

  -- The name of the day's sign; `pit_get_tonal_time` always has one.
  abbrev pub draw_sign : Option String → ℕ → ℕ → Vbe → Vbe
  draw_sign none x y v = v
  draw_sign (some name) x y v = vbe_draw_string font x y (codes name) color_jade color_obsidian v

  unfoldable pub draw_tonal : ℕ → Widget.Widget WidgetFn → Vbe → Vbe
  draw_tonal ticks w v =
      let tonal = pit_get_tonal_time ticks in
      let x = u32 (w.left + 12) in
      let y = u32 (w.top + 32) in
      let digits =
        num_to_char (tonal.trecena_num / 10) ∷ num_to_char (tonal.trecena_num % 10) ∷ 0 ∷ 0 ∷ [] in
      let v1 =
        vbe_draw_string font x (u32 (w.top + 10)) (codes "=== TONALPOHUALLI SACRED TIME ===")
          color_aztec_gold color_obsidian v in
      let v2 =
        vbe_draw_string font x y (codes "TRECENA NUMBER:") color_turquoise color_obsidian v1 in
      let v3 =
        vbe_draw_string font (u32 (w.left + 144)) y digits color_feather_white color_obsidian v2 in
      let v4 =
        vbe_draw_string font x (u32 (w.top + 52)) (codes "DAY SIGN:") color_turquoise color_obsidian
          v3 in
      draw_sign tonal.sign_name (u32 (w.left + 88)) (u32 (w.top + 52)) v4

  unfoldable pub draw_ritual_geo : ℕ → Widget.Widget WidgetFn → Vbe → Vbe
  draw_ritual_geo tick w v =
      let cx = u32 (w.left + w.wide / 2) in
      let v1 = draw_step_pyramid cx (u32 (w.top + 190)) 240 6 v in
      let v2 = draw_sun_disk cx (u32 (w.top + 20)) 36 v1 in
      draw_feathered_serpent (u32 (w.left + 40)) (u32 (w.top + 230)) 16 tick v2

  -- A call through a function pointer, with the ticks that `pit_get_tonal_time` reads.
  abbrev pub call_widget : ℕ → WidgetFn → Widget.Widget WidgetFn → ℕ → Vbe → Vbe
  call_widget ticks draw_banner_widget w tick v = draw_banner w v
  call_widget ticks draw_tonalpohualli_widget w tick v = draw_tonal ticks w v
  call_widget ticks draw_ritual_geo_widget w tick v = draw_ritual_geo tick w v

-- What `kernel_main` reads of `multiboot_info_t` for the framebuffer; `has_framebuffer` is bit 12 of
-- `flags`.
pub record Multiboot : Type 0 where
  pub has_framebuffer : Bool
  pub framebuffer_addr : ℕ
  pub framebuffer_pitch : ℕ
  pub framebuffer_width : ℕ
  pub framebuffer_height : ℕ
  pub framebuffer_bpp : ℕ
  pub framebuffer_type : ℕ

-- The arguments of `vbe_init`.
pub record Mode : Type 0 where
  pub fb_addr : ℕ
  pub width : ℕ
  pub height : ℕ
  pub pitch : ℕ

abbrev pub default_mode : Mode
default_mode = record {
  fb_addr = 0;
  width = qos_default_fb_width;
  height = qos_default_fb_height;
  pitch = qos_default_fb_pitch;
}

-- `none` is a null `mb_info`.
unfoldable pub choose_mode : Option Multiboot → Mode
choose_mode none = default_mode
choose_mode (some mb) =
    if mb.has_framebuffer
      && (not (mb.framebuffer_addr == 0) && (mb.framebuffer_type == 1 && mb.framebuffer_bpp == 32))
    then record {
      fb_addr = mb.framebuffer_addr;
      width = mb.framebuffer_width;
      height = mb.framebuffer_height;
      pitch = mb.framebuffer_pitch;
    }
    else default_mode

-- What the main loop works on.
pub record Kernel : Type 0 where
  pub env : Env
  pub kbd : Keyboard
  pub mouse : Mouse
  pub widgets : Widget.Widgets WidgetFn

-- One character of the keyboard.
unfoldable pub take_key : ℕ → Env → Option Env
take_key ch e =
    if ch == b'`' || ch == b'~'
    then some (record e { console = console_toggle e.console })
    else if ch == 0
    then some e
    else handle_char ch e

-- The loop over the waiting keys, with the rounds allowed: the ring holds 255 keys at most.
unfoldable pub read_keys : ℕ → Keyboard → Env → Option (Keyboard × Env)
unfolding take_key
read_keys zero k e = none
read_keys (suc fuel) k e =
    let (ch, k') = keyboard_getchar k in
    let rest : Option (Keyboard × Env) = elim (take_key ch e) [
      | none ↦ none
      | some e' ↦ read_keys fuel k' e'
    ] in
    if keyboard_has_char k then rest else some (k, e)

abbrev on_screen : (Vbe → Vbe) → Env → Env
on_screen f e = record e { screen = f e.screen }

module _ (font : ℕ → List ℕ) where
  -- The frame up to the keys.
  unfoldable pub draw_desktop : ℕ → Widget.Widgets WidgetFn → Vbe → Vbe
  draw_desktop ticks ws v =
      vbe_draw_line 0 440 800 455 color_turquoise
        (Widget.widget_draw_all font (call_widget font ticks) ticks ws (vbe_clear color_obsidian v))

  -- The frame behind the keys, up to the swap.
  unfoldable pub draw_overlay : Mouse → Env → Vbe → Vbe
  draw_overlay m e v = mouse_draw_cursor m (console_draw font e.ticks e.console v)

  -- One round of the main loop.
  unfoldable pub frame : Kernel → Option Kernel
  unfolding draw_desktop draw_overlay read_keys
  frame s =
      let drawn = on_screen (λ v. draw_desktop s.env.ticks s.widgets v) s.env in
      elim (read_keys 256 s.kbd drawn) [
        | none ↦ none
        | some (k, e) ↦ some (record s {
          kbd = k;
          env = on_screen (λ v. vbe_swap_buffers (draw_overlay s.mouse e v)) e;
        })
      ]
