-- ===== src/Vbe/Text.antt =====
-- The pixels of a line of text.
use quetzal_os.Base.{
  ℕ, suc, ◌+◌, ◌-◌, ◌*◌, ◌/◌, ◌%◌, ◌^◌, ◌≤◌, ◌<◌, ◌≡◌, ◌∙◌, Bool, true, false, not, ◌&&◌, inl, inr,
  List, [], ◌∷◌, get_or, length, ltb, leb, ◌==◌, if◌then◌else◌, Bool-cases, arith, u32,
}
use quetzal_os.Vbe.{Vbe}
use quetzal_os.Vbe.Shapes.{vbe_draw_char, string_loop, vbe_draw_string}
use quetzal_os.Vbe.Outline.{vbe_draw_char-Draws}
use quetzal_os.Vbe.Rect.{pixel_at}
use quetzal_os.Vbe.Keeps.{IsScreen, Draws-IsScreen}
use quetzal_os.Vbe.Glyph.{ink, chained, glyph, vbe_draw_char_lem}

-- Bytes that `vbe_draw_string` draws.
abbrev pub is_plain : List ℕ → Bool
is_plain [] = true
is_plain (c ∷ cs) = (not (c == 0) && not (c == b'\n')) && is_plain cs

-- Every code has a glyph of eight rows.
abbrev pub IsFont : (ℕ → List ℕ) → Type 0
IsFont font = (c : ℕ) → length (glyph font c) ≡ 8

module _ (font : ℕ → List ℕ) (fg bg px py : ℕ) where
  abbrev text_ink : List ℕ → ℕ → ℕ → ℕ → ℕ
  text_ink str x y old =
      if (leb y py && ltb py (y + 8)) && (leb x px && ltb px (x + 8 * length str))
      then ink (get_or (glyph font (get_or str ((px - x) / 8) 0)) (py - y) 0) ((px - x) % 8) fg bg
          old
      else old

  text_next :
      (c : ℕ) (cs : List ℕ) (x y old : ℕ)
      → text_ink cs (x + 8) y (
          if (leb y py && ltb py (y + 8)) && (leb x px && ltb px (x + 8))
          then ink (get_or (glyph font c) (py - y) 0) (px - x) fg bg old
          else old)
        ≡ text_ink (c ∷ cs) x y old
  text_next c cs x y old = elim (Bool-cases (leb (x + 8) px)) [
    | inl later ↦
        let q : (px - x) / 8 ≡ suc ((px - (x + 8)) / 8) = ground arith in
        let r : (px - x) % 8 ≡ (px - (x + 8)) % 8 = ground arith in
        let past : ltb px (x + 8) ≡ false = ground arith in
        let from : leb x px ≡ true = ground arith in
        let end : ltb px (x + 8 * suc (length cs)) ≡ ltb px (x + 8 + 8 * length cs) =
          ground arith in
        rw (q, r, past, from, later, end) (ground arith)
    | inr here ↦ elim (Bool-cases (leb x px)) [
      | inr before ↦ rw (here, before) (ground arith)
      | inl from ↦
          let q : (px - x) / 8 ≡ 0 = ground arith in
          let r : (px - x) % 8 ≡ px - x = ground arith in
          let near : ltb px (x + 8) ≡ true = ground arith in
          let end : ltb px (x + 8 * suc (length cs)) ≡ true = ground arith in
          rw (q, r, here, from, near, end) (ground arith)
    ]
  ]

  string_loop_lem :
      (str : List ℕ) (x0 x y : ℕ) (v : Vbe)
      → IsScreen v
      → IsFont font
      → px < v.fb_w
      → py < v.fb_h
      → v.fb_w < 2 ^ 32
      → x + 8 * length str ≤ v.fb_w
      → y + 8 ≤ 2 ^ 32
      → is_plain str ≡ true
      → (string_loop font str x0 x y fg bg v).backbuffer (py * v.fb_pitch_pixels + px)
        ≡ text_ink str x y (pixel_at v px py)
  unfolding string_loop
  string_loop_lem [] x0 x y v s eight hx hy word fits tall plain = ground arith
  string_loop_lem (c ∷ cs) x0 x y v s eight hx hy word fits tall plain =
      let d = vbe_draw_char-Draws font x y c fg bg v s.wide in
      let right : u32 (x + 8) ≡ x + 8 = omega arith in
      let here = vbe_draw_char_lem font fg bg px py x y c v s hx hy (omega arith) tall (eight c) in
      let rest =
        string_loop_lem cs x0 (x + 8) y (vbe_draw_char font x y c fg bg v) (Draws-IsScreen d s)
          eight (rw d.same_w hx) (rw d.same_h hy) (rw d.same_w word) (omega (arith, d.same_w)) tall
          (ground arith) in
      let nul : (c == 0) ≡ false = ground arith in
      let line : (c == b'\n') ≡ false = ground arith in
      let room : ltb v.fb_w (x + 8) ≡ false = ground arith in
      rw (right, nul, line, room, right)
        (chained (string_loop font cs x0 (x + 8) y fg bg) (text_ink cs (x + 8) y) px py _ d here
            rest
          ∙ text_next c cs x y (pixel_at v px py))

  -- On a screen whose lines fit the lines of the buffer, whose cells and columns 32 bits can count,
  -- with a font of glyphs of eight rows: a text with no NUL and no newline that ends within the
  -- line, in a row of characters within 32 bits, is drawn with each of its glyphs in its square of
  -- eight by eight, one behind the other, and no other pixel of the screen changes.
  pub vbe_draw_string_lem :
      (x y : ℕ) (str : List ℕ) (v : Vbe)
      → IsScreen v
      → IsFont font
      → px < v.fb_w
      → py < v.fb_h
      → v.fb_w < 2 ^ 32
      → x + 8 * length str ≤ v.fb_w
      → y + 8 ≤ 2 ^ 32
      → is_plain str ≡ true
      → (vbe_draw_string font x y str fg bg v).backbuffer (py * v.fb_pitch_pixels + px) ≡ (
          if (leb y py && ltb py (y + 8)) && (leb x px && ltb px (x + 8 * length str))
          then ink
              (get_or (glyph font (get_or str ((px - x) / 8) 0)) (py - y) 0)
              ((px - x) % 8)
              fg
              bg
              (pixel_at v px py)
          else pixel_at v px py)
  unfolding vbe_draw_string
  vbe_draw_string_lem x y str v s eight hx hy word fits tall plain =
      let drawn = string_loop_lem str x x y v s eight hx hy word fits tall plain in
      elim (Bool-cases (leb v.fb_w x)) [
        | inl right ↦ let past : leb x px ≡ false = ground arith in rw (right, past) (ground arith)
        | inr inside ↦ elim (Bool-cases (leb v.fb_h y)) [
          | inl below ↦
              let past : leb y py ≡ false = ground arith in rw (inside, below, past) (ground arith)
          | inr on ↦ rw (inside, on) drawn
        ]
      ]
