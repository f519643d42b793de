-- ===== src/Widget/Pool.antt =====
-- The pool of widgets: its invariant and what creating a widget does.
use quetzal_os.Base.{
  ℕ, zero, suc, ◌+◌, ◌≤◌, ◌<◌, ◌≡◌, ◌≢◌, refl, ap, ◌∙◌, true, false, inl, inr, List, [], ◌∷◌, map,
  Option, none, some, get_or, take, replicate, length, leb, Bool-cases, arith, cstr,
  length-copy_str, cstr-copy_str, length-take-cstr,
}
use quetzal_os.Widget.{
  Widget, Widgets, WidgetStyle, update, blank, titled, created, styled, widget_system_init,
  widget_create, widget_set_style, bordered,
}

length-update :
    {A : Type 0} (list : List A) (i : ℕ) (f : A → A) → length (update list i f) ≡ length list
length-update [] i f = refl
length-update (a ∷ rest) zero f = refl
length-update (a ∷ rest) (suc i) f = omega (arith, length-update rest i f)

get_or-update_self :
    {A : Type 0} (list : List A) (i : ℕ) (f : A → A) (d : A)
    → i < length list
    → get_or (update list i f) i d ≡ f (get_or list i d)
get_or-update_self [] i f d h = absurd (omega arith)
get_or-update_self (a ∷ rest) zero f d h = refl
get_or-update_self (a ∷ rest) (suc i) f d h = get_or-update_self rest i f d (omega arith)

get_or-update_ne :
    {A : Type 0} (list : List A) (i j : ℕ) (f : A → A) (d : A)
    → i ≢ j
    → get_or (update list i f) j d ≡ get_or list j d
get_or-update_ne [] i j f d h = refl
get_or-update_ne (a ∷ rest) zero zero f d h = absurd (h refl)
get_or-update_ne (a ∷ rest) zero (suc j) f d h = refl
get_or-update_ne (a ∷ rest) (suc i) zero f d h = refl
get_or-update_ne (a ∷ rest) (suc i) (suc j) f d h =
    get_or-update_ne rest i j f d (λ e. h (ap suc e))

titled-ends :
    (text : Option (List ℕ)) (old : List ℕ)
    → length old ≡ 80
    → (length (titled text old) ≡ 80) × (length (cstr (titled text old)) < 80)
titled-ends none [] size = absurd (omega arith)
titled-ends none (b ∷ bs) size = (size, omega arith)
titled-ends (some text) old size =
    let holds = cstr-copy_str 79 text old (omega arith) in
    (length-copy_str 79 text old ∙ size, rw holds (omega (arith, length-take-cstr 79 text)))

-- What a new widget shows as its title.
abbrev pub title_text : Option (List ℕ) → List ℕ
title_text none = []
title_text (some text) = take 79 (cstr text)

cstr-titled :
    (text : Option (List ℕ)) (old : List ℕ)
    → length old ≡ 80
    → cstr (titled text old) ≡ title_text text
cstr-titled none [] size = absurd (omega arith)
cstr-titled none (b ∷ bs) size = refl
cstr-titled (some text) old size = cstr-copy_str 79 text old (omega arith)

-- The operations on the pool.
pub data PoolCall (Fn : Type 0) : Type 0 where
  init : PoolCall Fn
  create : (x y w h : ℕ) (text : Option (List ℕ)) (draw : Option Fn) → PoolCall Fn
  set_style : (p : Option ℕ) (look : WidgetStyle) (bg border head text : ℕ) → PoolCall Fn

module _ {Fn : Type 0} where
  -- A title of 80 bytes with its NUL.
  pub record HasTitle (w : Widget Fn) : Type 0 where
    pub size : length w.title ≡ 80
    pub ends : length (cstr w.title) < 80

  abbrev pub HaveTitles : List (Widget Fn) → Type 0
  HaveTitles [] = Unit {0}
  HaveTitles (w ∷ ws) = HasTitle w × HaveTitles ws

  pub record IsValid (s : Widgets Fn) : Type 0 where
    pub sixteen : length s.widget_pool ≡ 16
    pub count : s.widget_count ≤ 16
    pub titles : HaveTitles s.widget_pool

  update-HaveTitles :
      (ws : List (Widget Fn)) (i : ℕ) (f : Widget Fn → Widget Fn)
      → ((w : Widget Fn) → HasTitle w → HasTitle (f w))
      → HaveTitles ws
      → HaveTitles (update ws i f)
  update-HaveTitles [] i f h all = tt
  update-HaveTitles (w ∷ ws) zero f h (first, rest) = (h w first, rest)
  update-HaveTitles (w ∷ ws) (suc i) f h (first, rest) = (first, update-HaveTitles ws i f h rest)

  pub HaveTitles-replicate : (n : ℕ) (w : Widget Fn) → HasTitle w → HaveTitles (replicate n w)
  HaveTitles-replicate zero w h = tt
  HaveTitles-replicate (suc n) w h = (h, HaveTitles-replicate n w h)

  titled-HasTitle :
      (x y w h : ℕ) (text : Option (List ℕ)) (draw : Option Fn) (old : Widget Fn)
      → HasTitle old
      → HasTitle (created x y w h text draw old)
  titled-HasTitle x y w h text draw old ok =
      let (size, ends) = titled-ends text old.title ok.size in record { size = size; ends = ends }

  blank-HaveTitles : (ws : List (Widget Fn)) → HaveTitles ws → HaveTitles (map blank ws)
  blank-HaveTitles [] all = tt
  blank-HaveTitles (w ∷ ws) (first, rest) =
      let (size, ends) = titled-ends none w.title first.size in
      (record { size = size; ends = ends }, blank-HaveTitles ws rest)

  length-blank : (ws : List (Widget Fn)) → length (map blank ws) ≡ length ws
  length-blank [] = refl
  length-blank (w ∷ ws) = omega (arith, length-blank ws)

  abbrev pub run : PoolCall Fn → Widgets Fn → Widgets Fn
  run init s = widget_system_init s
  run (create x y w h text draw) s = (widget_create x y w h text draw s).1
  run (set_style p look bg border head text) s = widget_set_style p look bg border head text s

  -- Every operation on a pool of 16 widgets, with any arguments, a null pointer, a null title or one
  -- of any length included, keeps the pool at 16 widgets, the count of those in use at 16 at most and
  -- every title in its 80 bytes with a NUL.
  pub run-IsValid : (c : PoolCall Fn) (s : Widgets Fn) → IsValid s → IsValid (run c s)
  unfolding widget_system_init widget_create widget_set_style
  run-IsValid init s h = record {
    sixteen = length-blank s.widget_pool ∙ h.sixteen;
    count = omega arith;
    titles = blank-HaveTitles s.widget_pool h.titles;
  }
  run-IsValid (create x y w k text draw) s h = elim (Bool-cases (leb 16 s.widget_count)) [
    | inl full ↦ rw (run, full) h
    | inr room ↦
        rw (run, room)
          (record {
            sixteen =
                length-update s.widget_pool s.widget_count (created x y w k text draw) ∙ h.sixteen;
            count = ground arith;
            titles =
                update-HaveTitles s.widget_pool s.widget_count (created x y w k text draw)
                  (titled-HasTitle x y w k text draw) h.titles;
          })
  ]
  run-IsValid (set_style none look bg border head text) s h = h
  run-IsValid (set_style (some i) look bg border head text) s h = record {
    sixteen = length-update s.widget_pool i (styled look bg border head text) ∙ h.sixteen;
    count = h.count;
    titles =
        update-HaveTitles s.widget_pool i (styled look bg border head text)
          (λ w ok. record { size = ok.size; ends = ok.ends }) h.titles;
  }

  -- A new widget: its place and size, its title, its content function and no data; a visible widget
  -- of the bordered style in obsidian (0x0b0b0e), with a golden border (0xc59b27), a banner of jade
  -- (0x00a86b) and white text (0xf0f8ff).
  pub record IsNew (x y w h : ℕ) (text : Option (List ℕ)) (draw : Option Fn) (a : Widget Fn)
      : Type 0 where
    pub left : a.left ≡ x
    pub top : a.top ≡ y
    pub wide : a.wide ≡ w
    pub high : a.high ≡ h
    pub named : cstr a.title ≡ title_text text
    pub background : a.bg_color ≡ 0x000b_0b0e
    pub border : a.border_color ≡ 0x00c5_9b27
    pub banner : a.header_color ≡ 0x0000_a86b
    pub letters : a.text_color ≡ 0x00f0_f8ff
    pub look : a.style ≡ bordered
    pub shown : a.visible ≡ true
    pub content : a.draw_content ≡ draw
    pub data_of : a.user_data ≡ 0

  -- `r` is what creating a widget in the pool `s` returns and leaves.
  pub record Creates (x y w h : ℕ) (text : Option (List ℕ)) (draw : Option Fn) (d : Widget Fn)
      (s : Widgets Fn) (r : Option ℕ × Widgets Fn) : Type 0 where
    pub returns : r.0 ≡ some s.widget_count
    pub counts : r.1.widget_count ≡ s.widget_count + 1
    pub new : IsNew x y w h text draw (get_or r.1.widget_pool s.widget_count d)
    pub others :
        (j : ℕ) → s.widget_count ≢ j → get_or r.1.widget_pool j d ≡ get_or s.widget_pool j d

  created-IsNew :
      (x y w h : ℕ) (text : Option (List ℕ)) (draw : Option Fn) (old : Widget Fn)
      → HasTitle old
      → IsNew x y w h text draw (created x y w h text draw old)
  created-IsNew x y w h text draw old ok = record {
    left = refl;
    top = refl;
    wide = refl;
    high = refl;
    named = cstr-titled text old.title ok.size;
    background = refl;
    border = refl;
    banner = refl;
    letters = refl;
    look = refl;
    shown = refl;
    content = refl;
    data_of = refl;
  }

  HaveTitles-at :
      (ws : List (Widget Fn)) (i : ℕ) (d : Widget Fn)
      → HaveTitles ws
      → i < length ws
      → HasTitle (get_or ws i d)
  HaveTitles-at [] i d all h = absurd (omega arith)
  HaveTitles-at (w ∷ ws) zero d (first, rest) h = first
  HaveTitles-at (w ∷ ws) (suc i) d (first, rest) h = HaveTitles-at ws i d rest (omega arith)

  -- With room in a valid pool, `widget_create` returns the place behind the widgets in use, counts it,
  -- makes the widget there one at (x, y) of size w by h, with the title's first 79 bytes, or none of a
  -- null title, the content function given, no data, visible, bordered, in obsidian (0x0b0b0e) with a
  -- border of 0xc59b27, a banner of 0x00a86b and text of 0xf0f8ff, and leaves every other widget as it
  -- was.
  pub widget_create-Creates :
      (x y w h : ℕ) (text : Option (List ℕ)) (draw : Option Fn) (d : Widget Fn) (s : Widgets Fn)
      → IsValid s
      → s.widget_count < 16
      → Creates x y w h text draw d s (widget_create x y w h text draw s)
  unfolding widget_create
  widget_create-Creates x y w h text draw d s ok room =
      let free : leb 16 s.widget_count ≡ false = ground arith in
      let make = created x y w h text draw in
      let inside : s.widget_count < length s.widget_pool = omega (arith, ok.sixteen) in
      let old = HaveTitles-at s.widget_pool s.widget_count d ok.titles inside in
      let new = get_or-update_self s.widget_pool s.widget_count make d inside in
      rw free (record {
        returns = refl;
        counts = refl;
        new = rw new (created-IsNew x y w h text draw (get_or s.widget_pool s.widget_count d) old);
        others = λ j other. get_or-update_ne s.widget_pool s.widget_count j make d other;
      })
