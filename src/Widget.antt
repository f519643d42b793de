-- ===== src/Widget.antt =====
-- kernel/graphics/widget.c: the pool of widgets. A pointer to a widget is its place in the pool, or
-- `none` for null; a function pointer is a value of a type `Fn`, and what a call of it does is an
-- argument of the functions that call it.
pub mod Pool
pub mod Draw
mod Examples
use quetzal_os.Base.{
  ℕ, zero, suc, ◌+◌, ◌-◌, ◌*◌, ◌/◌, ◌%◌, ◌^◌, ◌≤◌, ◌<◌, ◌≡◌, ◌≢◌, ◌↔◌, refl, sym, ap, ◌∙◌, fun_ext,
  Bool, true, false, not, ◌&&◌, ◌||◌, ◌⊎◌, inl, inr, List, [], ◌∷◌, ◌++◌, map, Option, none, some,
  append-nil, append_assoc, min, or_nibble, bit_and, bit_or, byte_set, byte_clear, byte_test,
  get_or, set, take, drop, replicate, length, length-append, length-set, length-replicate,
  length-take, length-drop, get_or-set_self, get_or-set_ne, take-append-drop, ltb, leb, ◌==◌,
  if◌then◌else◌, Bool-cases, Option-cases, Bool-ext, ==_iff, ltb_iff, arith, all_below,
  all_below_sound, codes, cstr, copy_str, length-copy_str, cstr-copy_str, length-cstr, cstr-cstr,
  length-take-cstr, u8, u16, u32, u64, sub_u32, ℤ, pos, negsuc, pos_part, neg_part, sub_ℕ, ◌+ℤ◌,
  ◌-ℤ◌, ltb_ℤ, leb_ℤ, eqb_ℤ, int_of, word_of,
}
use quetzal_os.Vbe.{
  Vbe, vbe_fill_rect, color_obsidian, color_aztec_gold, color_jade, color_feather_white,
  color_transparent,
}
use quetzal_os.Vbe.Shapes.{vbe_draw_string}

abbrev pub max_widgets : ℕ
max_widgets = 16

abbrev pub widget_title_max : ℕ
widget_title_max = 80

pub data WidgetStyle : Type 0 where
  container : WidgetStyle
  bordered : WidgetStyle
  header : WidgetStyle

abbrev pub is_framed : WidgetStyle → Bool
is_framed container = false
is_framed bordered = true
is_framed header = true

abbrev pub is_header : WidgetStyle → Bool
is_header container = false
is_header bordered = false
is_header header = true

pub record Widget (Fn : Type 0) : Type 0 where
  pub left : ℕ
  pub top : ℕ
  pub wide : ℕ
  pub high : ℕ
  pub title : List ℕ
  pub bg_color : ℕ
  pub border_color : ℕ
  pub header_color : ℕ
  pub text_color : ℕ
  pub style : WidgetStyle
  pub visible : Bool
  pub draw_content : Option Fn
  pub user_data : ℕ

pub record Widgets (Fn : Type 0) : Type 0 where
  pub widget_pool : List (Widget Fn)
  pub widget_count : ℕ

-- A write through a pointer into the pool.
abbrev pub update {ℓ} : {A : Type ℓ} → List A → ℕ → (A → A) → List A
update [] i f = []
update (a ∷ rest) zero f = f a ∷ rest
update (a ∷ rest) (suc i) f = a ∷ update rest i f

-- The copy of the title, which may be null.
abbrev pub titled : Option (List ℕ) → List ℕ → List ℕ
titled none old = set old 0 0
titled (some text) old = copy_str (widget_title_max - 1) text old

module _ {Fn : Type 0} where
  abbrev pub blank : Widget Fn → Widget Fn
  blank w = record w {
    visible = false;
    title = set w.title 0 0;
    draw_content = none;
    user_data = 0;
  }

  unfoldable pub widget_system_init : Widgets Fn → Widgets Fn
  widget_system_init s = record { widget_pool = map blank s.widget_pool; widget_count = 0 }

  abbrev pub created : ℕ → ℕ → ℕ → ℕ → Option (List ℕ) → Option Fn → Widget Fn → Widget Fn
  created x y w h text draw old = record {
    left = x;
    top = y;
    wide = w;
    high = h;
    title = titled text old.title;
    bg_color = color_obsidian;
    border_color = color_aztec_gold;
    header_color = color_jade;
    text_color = color_feather_white;
    style = bordered;
    visible = true;
    draw_content = draw;
    user_data = 0;
  }

  unfoldable pub widget_create :
      ℕ → ℕ → ℕ → ℕ → Option (List ℕ) → Option Fn → Widgets Fn → Option ℕ × Widgets Fn
  widget_create x y w h text draw s = if leb max_widgets s.widget_count then (none, s) else (
    some s.widget_count,
    record {
      widget_pool = update s.widget_pool s.widget_count (created x y w h text draw);
      widget_count = s.widget_count + 1;
    },
  )

  abbrev pub styled : WidgetStyle → ℕ → ℕ → ℕ → ℕ → Widget Fn → Widget Fn
  styled look bg border head text w = record w {
    style = look;
    bg_color = bg;
    border_color = border;
    header_color = head;
    text_color = text;
  }

  unfoldable pub widget_set_style : Option ℕ → WidgetStyle → ℕ → ℕ → ℕ → ℕ → Widgets Fn → Widgets Fn
  widget_set_style none look bg border head text s = s
  widget_set_style (some i) look bg border head text s = record s {
    widget_pool = update s.widget_pool i (styled look bg border head text);
  }

  module _ (font : ℕ → List ℕ) (call : Fn → Widget Fn → ℕ → Vbe → Vbe) where
    -- The background, the frame and the banner of a widget.
    unfoldable pub draw_background : Widget Fn → Vbe → Vbe
    draw_background w v =
        if w.bg_color == color_transparent
        then v
        else vbe_fill_rect w.left w.top w.wide w.high w.bg_color v

    unfoldable pub draw_frame : Widget Fn → Vbe → Vbe
    draw_frame w v =
        let x = w.left in
        let y = w.top in
        let v1 = vbe_fill_rect x y w.wide 2 w.border_color v in
        let v2 = vbe_fill_rect x (sub_u32 (u32 (y + w.high)) 2) w.wide 2 w.border_color v1 in
        let v3 = vbe_fill_rect x y 2 w.high w.border_color v2 in
        let v4 = vbe_fill_rect (sub_u32 (u32 (x + w.wide)) 2) y 2 w.high w.border_color v3 in
        if is_framed w.style then v4 else v

    unfoldable pub draw_header : Widget Fn → Vbe → Vbe
    draw_header w v =
        let banner =
          vbe_fill_rect (u32 (w.left + 2)) (u32 (w.top + 2)) (sub_u32 w.wide 4) 20 w.header_color
            v in
        let text =
          vbe_draw_string font (u32 (w.left + 8)) (u32 (w.top + 6)) w.title w.text_color
            w.header_color banner in
        if is_header w.style && leb 24 w.high
        then (if get_or w.title 0 0 == 0 then banner else text)
        else v

    abbrev pub draw_inside : Option Fn → Widget Fn → ℕ → Vbe → Vbe
    draw_inside none w tick v = v
    draw_inside (some f) w tick v = call f w tick v

    unfoldable pub draw_widget : ℕ → Widget Fn → Vbe → Vbe
    unfolding draw_background draw_frame draw_header
    draw_widget tick w v =
        if w.visible
        then draw_inside w.draw_content w tick (draw_header w (draw_frame w (draw_background w v)))
        else v

    -- The loop over the widgets left of the first `n`.
    unfoldable pub draw_widgets : ℕ → ℕ → List (Widget Fn) → Vbe → Vbe
    unfolding draw_widget
    draw_widgets zero tick ws v = v
    draw_widgets (suc n) tick [] v = v
    draw_widgets (suc n) tick (w ∷ ws) v = draw_widgets n tick ws (draw_widget tick w v)

    unfoldable pub widget_draw_all : ℕ → Widgets Fn → Vbe → Vbe
    unfolding draw_widgets
    widget_draw_all tick s v = draw_widgets s.widget_count tick s.widget_pool v
