-- ===== src/Vbe/Glyph.antt =====
-- The pixels of a character.
use quetzal_os.Base.{
  ℕ, zero, suc, ◌+◌, ◌-◌, ◌*◌, ◌^◌, ◌≤◌, ◌<◌, ◌≡◌, refl, ◌∙◌, Bool, true, false, not, ◌&&◌, inl,
  inr, List, [], ◌∷◌, byte_test, get_or, set, length, ltb, leb, ◌==◌, if◌then◌else◌, Bool-cases,
  arith, all_below, all_below_sound, u32,
}
use quetzal_os.Vbe.{Vbe, vbe_draw_pixel, color_transparent}
use quetzal_os.Vbe.Shapes.{glyph_row, glyph_rows, any_row, glyph_index, vbe_draw_char}
use quetzal_os.Vbe.Frame.{Draws, Draws-refl, Draws-if, vbe_draw_pixel-Draws}
use quetzal_os.Vbe.Outline.{glyph_row-Draws}
use quetzal_os.Vbe.Rect.{pixel_at}
use quetzal_os.Vbe.Keeps.{IsScreen, Draws-IsScreen, vbe_draw_pixel_lem}

-- What a row of a glyph leaves at one of its columns: a bit that is set gives the colour of the text,
-- one that is not gives the background, if there is one.
abbrev pub ink : ℕ → ℕ → ℕ → ℕ → ℕ → ℕ
ink bits col fg bg old =
    if byte_test bits (7 - col) then fg else (if bg == color_transparent then old else bg)

-- A column and those behind it.
columns_next :
    (f : ℕ → ℕ → ℕ) (x col px old : ℕ) (row : Bool)
    → col < 8
    → (let first = if row && px == x + col then f col old else old in
        if row && (leb (x + (col + 1)) px && ltb px (x + 8)) then f (px - x) first else first)
      ≡ (if row && (leb (x + col) px && ltb px (x + 8)) then f (px - x) old else old)
columns_next f x col px old row h = elim (Bool-cases (px == x + col)) [
  | inl here ↦
      let e : px ≡ x + col = ground arith in
      let d : px - x ≡ col = omega arith in
      let late : leb (x + (col + 1)) px ≡ false = ground arith in
      let inside : (leb (x + col) px && ltb px (x + 8)) ≡ true = ground arith in
      rw (d, here, late, inside) (ground arith)
  | inr away ↦
      let same : (leb (x + (col + 1)) px && ltb px (x + 8)) ≡ (leb (x + col) px && ltb px (x + 8)) =
        ground arith in
      rw (away, same) (ground arith)
]

-- One drawing behind another, at one pixel.
pub chained :
    {v u : Vbe} (draw : Vbe → Vbe) (f : ℕ → ℕ) (px py first : ℕ)
    → Draws v u
    → u.backbuffer (py * v.fb_pitch_pixels + px) ≡ first
    → (draw u).backbuffer (py * u.fb_pitch_pixels + px) ≡ f (pixel_at u px py)
    → (draw u).backbuffer (py * v.fb_pitch_pixels + px) ≡ f first
chained {v} {u} draw f px py first d here rest =
    let at : u.backbuffer (py * u.fb_pitch_pixels + px) ≡ first = rw d.same_pitch here in
    rw (← d.same_pitch) (rest ∙ rw at refl)

module _ (font : ℕ → List ℕ) (fg bg px py : ℕ) where
  dot :
      (bits col x y : ℕ) (v : Vbe)
      → IsScreen v
      → px < v.fb_w
      → py < v.fb_h
      → x + col < 2 ^ 32
      → (if byte_test bits (7 - col)
            then vbe_draw_pixel (u32 (x + col)) y fg v
            else if not (bg == color_transparent)
            then vbe_draw_pixel (u32 (x + col)) y bg v
            else v).backbuffer
          (py * v.fb_pitch_pixels + px)
        ≡ (if py == y && px == x + col
            then ink bits col fg bg (pixel_at v px py)
            else pixel_at v px py)
  dot bits col x y v s hx hy fits =
      let wraps : u32 (x + col) ≡ x + col = omega arith in
      let front = vbe_draw_pixel_lem (x + col) y fg v px py s hx hy in
      let back = vbe_draw_pixel_lem (x + col) y bg v px py s hx hy in
      rw wraps (elim (Bool-cases (byte_test bits (7 - col))) [
        | inl set ↦ rw (set, front) refl
        | inr clear ↦ elim (Bool-cases (bg == color_transparent)) [
          | inl through ↦ rw (clear, through) (ground arith)
          | inr opaque ↦ rw (clear, opaque, back) refl
        ]
      ])

  glyph_row_lem :
      (n col bits x y : ℕ) (v : Vbe)
      → IsScreen v
      → px < v.fb_w
      → py < v.fb_h
      → col + n ≡ 8
      → x + 8 ≤ 2 ^ 32
      → (glyph_row font n col bits x y fg bg v).backbuffer (py * v.fb_pitch_pixels + px) ≡ (
          if py == y && (leb (x + col) px && ltb px (x + 8))
          then ink bits (px - x) fg bg (pixel_at v px py)
          else pixel_at v px py)
  unfolding glyph_row
  glyph_row_lem zero col bits x y v s hx hy end fits = ground arith
  glyph_row_lem (suc n) col bits x y v s hx hy end fits =
      let d =
        Draws-if (byte_test bits (7 - col)) (vbe_draw_pixel-Draws (u32 (x + col)) y fg v s.wide) (
          Draws-if (not (bg == color_transparent))
            (vbe_draw_pixel-Draws (u32 (x + col)) y bg v s.wide) (Draws-refl v)) in
      let here = dot bits col x y v s hx hy (omega arith) in
      let rest =
        glyph_row_lem n (col + 1) bits x y _ (Draws-IsScreen d s) (rw d.same_w hx) (rw d.same_h hy)
          (omega arith) fits in
      chained (glyph_row font n (col + 1) bits x y fg bg)
        (λ old.
          if py == y && (leb (x + (col + 1)) px && ltb px (x + 8))
          then ink bits (px - x) fg bg old
          else old)
        px py _ d here rest
      ∙ (columns_next (λ k old. ink bits k fg bg old) x col px (pixel_at v px py) (py == y)
          (omega arith))

  -- The rows of a glyph at one pixel.
  abbrev glyph_ink : List ℕ → ℕ → ℕ → ℕ → ℕ
  glyph_ink rows x y old =
      if (leb y py && ltb py (y + length rows)) && (leb x px && ltb px (x + 8))
      then ink (get_or rows (py - y) 0) (px - x) fg bg old
      else old

  rows_next :
      (bits : ℕ) (rows : List ℕ) (x y old : ℕ)
      → glyph_ink rows x (y + 1) (
          if py == y && (leb (x + 0) px && ltb px (x + 8))
          then ink bits (px - x) fg bg old
          else old)
        ≡ glyph_ink (bits ∷ rows) x y old
  rows_next bits rows x y old = elim (Bool-cases (py == y)) [
    | inl here ↦
        let e : py - y ≡ 0 = ground arith in
        let late : leb (y + 1) py ≡ false = ground arith in
        let inside : (leb y py && ltb py (y + suc (length rows))) ≡ true = ground arith in
        rw (e, here, late, inside) (ground arith)
    | inr away ↦ elim (Bool-cases (leb (y + 1) py)) [
      | inl below ↦
          let e : py - y ≡ suc (py - (y + 1)) = ground arith in
          let from : leb y py ≡ true = ground arith in
          let end : ltb py (y + suc (length rows)) ≡ ltb py (y + 1 + length rows) = ground arith in
          rw (e, away, below, from, end) (ground arith)
      | inr above ↦
          let from : leb y py ≡ false = ground arith in rw (away, above, from) (ground arith)
    ]
  ]

  glyph_rows_lem :
      (rows : List ℕ) (row x y : ℕ) (v : Vbe)
      → IsScreen v
      → px < v.fb_w
      → py < v.fb_h
      → x + 8 ≤ 2 ^ 32
      → y + row + length rows ≤ 2 ^ 32
      → (glyph_rows font rows row x y fg bg v).backbuffer (py * v.fb_pitch_pixels + px)
        ≡ glyph_ink rows x (y + row) (pixel_at v px py)
  unfolding glyph_rows
  glyph_rows_lem [] row x y v s hx hy fits tall = ground arith
  glyph_rows_lem (bits ∷ rows) row x y v s hx hy fits tall =
      let d = glyph_row-Draws font 8 0 bits x (u32 (y + row)) fg bg v s.wide in
      let wraps : u32 (y + row) ≡ y + row = omega arith in
      let here = glyph_row_lem 8 0 bits x (u32 (y + row)) v s hx hy refl fits in
      let rest =
        glyph_rows_lem rows (row + 1) x y _ (Draws-IsScreen d s) (rw d.same_w hx) (rw d.same_h hy)
          fits (omega arith) in
      let down : y + (row + 1) ≡ y + row + 1 = omega arith in
      chained (glyph_rows font rows (row + 1) x y fg bg) (glyph_ink rows x (y + (row + 1))) px py _
        d here rest
      ∙ rw (down, wraps) (rows_next bits rows x (y + row) (pixel_at v px py))

blank_rows :
    (font : ℕ → List ℕ) (rows : List ℕ) (i : ℕ) → any_row font rows ≡ false → get_or rows i 0 ≡ 0
blank_rows font [] i h = refl
blank_rows font (b ∷ bs) zero h = ground arith
blank_rows font (b ∷ bs) (suc i) h = blank_rows font bs i (ground arith)

no_bits : all_below 8 (λ k. not (byte_test 0 k)) ≡ true
unfolding all_below byte_test
no_bits = refl

ink_nothing : (k fg old : ℕ) → ink 0 k fg color_transparent old ≡ old
ink_nothing k fg old =
    let none = all_below_sound 8 (λ k. not (byte_test 0 k)) (7 - k) no_bits (omega arith) in
    let clear : byte_test 0 (7 - k) ≡ false = ground arith in rw clear refl

-- `font8x8_basic[idx]`
abbrev pub glyph : (ℕ → List ℕ) → ℕ → List ℕ
glyph font c = font (glyph_index font c)

module _ (font : ℕ → List ℕ) (fg bg px py : ℕ) where
  -- On a screen whose lines fit the lines of the buffer and whose cells 32 bits can count, with the
  -- square of the character within 32 bits and a glyph of eight rows: `vbe_draw_char` gives each
  -- pixel of the screen inside the square of eight by eight the colour that the glyph's bit there
  -- asks for, and leaves every other pixel of the screen as it was.
  pub vbe_draw_char_lem :
      (x y c : ℕ) (v : Vbe)
      → IsScreen v
      → px < v.fb_w
      → py < v.fb_h
      → x + 8 ≤ 2 ^ 32
      → y + 8 ≤ 2 ^ 32
      → length (glyph font c) ≡ 8
      → (vbe_draw_char font x y c fg bg v).backbuffer (py * v.fb_pitch_pixels + px) ≡ (
          if (leb y py && ltb py (y + 8)) && (leb x px && ltb px (x + 8))
          then ink (get_or (glyph font c) (py - y) 0) (px - x) fg bg (pixel_at v px py)
          else pixel_at v px py)
  unfolding vbe_draw_char
  vbe_draw_char_lem x y c v s hx hy fits tall eight =
      let drawn =
        glyph_rows_lem font fg bg px py (glyph font c) 0 x y v s hx hy fits (omega arith) in
      let top : y + 0 ≡ y = omega arith in
      elim (Bool-cases (not (any_row font (glyph font c)) && bg == color_transparent)) [
        | inr shown ↦ rw (shown, drawn, top, eight) refl
        | inl blank ↦
            let through : bg ≡ color_transparent = ground arith in
            let empty = blank_rows font (glyph font c) (py - y) (ground arith) in
            rw (blank, empty, through, ink_nothing) (ground arith)
      ]
