-- ===== src/Vbe/Rect.antt =====
-- What `vbe_fill_rect` paints, pixel by pixel.
use quetzal_os.Base.{
  ℕ, zero, suc, ◌+◌, ◌-◌, ◌*◌, ◌^◌, ◌≤◌, ◌<◌, ◌≡◌, refl, sym, ◌∙◌, ◌&&◌, ◌||◌, inl, inr, min, ltb,
  leb, ◌==◌, if◌then◌else◌, Bool-cases, arith,
}
use quetzal_os.Vbe.{Vbe, index, vbe_put_pixel, fill_row, fill_rows, clip_end, vbe_fill_rect}
use quetzal_os.Vbe.Frame.{IsValid}

-- The pixel of the back buffer at column `x` of row `y`.
abbrev pub pixel_at : Vbe → ℕ → ℕ → ℕ
pixel_at v x y = v.backbuffer (y * v.fb_pitch_pixels + x)

rows_apart : (p a b : ℕ) → a < b → a * p + p ≤ b * p
rows_apart p a b h = grind arith

-- A cell of the screen lies in a run of one row exactly when it is of that row and between the ends.
pub in_run :
    (p x y n cx cy : ℕ)
    → cx < p
    → x + n ≤ p
    → (leb (y * p + x) (cy * p + cx) && ltb (cy * p + cx) (y * p + x + n))
      ≡ (cy == y && (leb x cx && ltb cx (x + n)))
in_run p x y n cx cy hx hn = elim (Bool-cases (ltb cy y)) [
  | inl above ↦ ground (arith, rows_apart p cy y (ground arith))
  | inr more ↦ elim (Bool-cases (ltb y cy)) [
    | inl below ↦ ground (arith, rows_apart p y cy (ground arith))
    | inr same ↦ let e : cy ≡ y = ground arith in rw e (ground arith)
  ]
]

fill_row_lem :
    (n px py color : ℕ) (v : Vbe) (i : ℕ)
    → py * v.fb_pitch_pixels + px + n ≤ 2 ^ 32
    → (fill_row n px py color v).backbuffer i ≡ (
        if leb (py * v.fb_pitch_pixels + px) i && ltb i (py * v.fb_pitch_pixels + px + n)
        then color
        else v.backbuffer i)
unfolding fill_row vbe_put_pixel
fill_row_lem zero px py color v i fits = ground arith
fill_row_lem (suc n) px py color v i fits =
    let rest = fill_row_lem n (px + 1) py color (vbe_put_pixel px py color v) i (omega arith) in
    let at : index v px py ≡ py * v.fb_pitch_pixels + px = omega arith in ground (arith, rest, at)

fill_row-pitch :
    (n px py color : ℕ) (v : Vbe) → (fill_row n px py color v).fb_pitch_pixels ≡ v.fb_pitch_pixels
unfolding fill_row vbe_put_pixel
fill_row-pitch zero px py color v = refl
fill_row-pitch (suc n) px py color v =
    fill_row-pitch n (px + 1) py color (vbe_put_pixel px py color v)

pub row_fits : (p y n h : ℕ) → suc y ≤ h → n ≤ p → y * p + n ≤ h * p
row_fits p y n h hy hn = grind arith

fill_row_fits :
    (p n px py color : ℕ) (v : Vbe)
    → v.fb_pitch_pixels ≡ p
    → (fill_row n px py color v).fb_pitch_pixels ≡ p
fill_row_fits p n px py color v pitch = fill_row-pitch n px py color v ∙ pitch

fill_row_at :
    (p n px py color : ℕ) (v : Vbe) (i : ℕ)
    → v.fb_pitch_pixels ≡ p
    → py * p + px + n ≤ 2 ^ 32
    → (fill_row n px py color v).backbuffer i
      ≡ (if leb (py * p + px) i && ltb i (py * p + px + n) then color else v.backbuffer i)
fill_row_at p n px py color v i pitch fits =
    rw (sym pitch) (fill_row_lem n px py color v i (rw pitch fits))

fill_rows_lem :
    (p n py x cols color : ℕ) (v : Vbe) (cx cy : ℕ)
    → v.fb_pitch_pixels ≡ p
    → (py + n) * p ≤ 2 ^ 32
    → x + cols ≤ p
    → cx < p
    → (fill_rows n py x cols color v).backbuffer (cy * p + cx) ≡ (
        if (leb x cx && ltb cx (x + cols)) && (leb py cy && ltb cy (py + n))
        then color
        else v.backbuffer (cy * p + cx))
unfolding fill_rows
fill_rows_lem p zero py x cols color v cx cy pitch fits hx hcx = ground arith
fill_rows_lem p (suc n) py x cols color v cx cy pitch fits hx hcx =
    let room : py * p + (x + cols) ≤ (py + suc n) * p =
      row_fits p py (x + cols) (py + suc n) (omega arith) hx in
    let first = fill_row_at p cols x py color v (cy * p + cx) pitch (omega arith) in
    let row = in_run p x py cols cx cy hcx hx in
    let fits' : (py + 1 + n) * p ≤ 2 ^ 32 = omega arith in
    fill_rows_lem p n (py + 1) x cols color (fill_row cols x py color v) cx cy
      (fill_row_fits p cols x py color v pitch) fits' hx hcx
    ∙ rw (first, row) (ground arith)

clip_end_lem :
    (x w bound : ℕ)
    → x < bound
    → bound ≤ 2 ^ 32
    → w < 2 ^ 32
    → clip_end x w bound ≡ min (x + w) bound
clip_end_lem x w bound hx hb hw = ground arith

-- The screen is in memory that 32 bits can index.
abbrev pub IsMapped : Vbe → Type 0
IsMapped v = v.fb_h * v.fb_pitch_pixels ≤ 2 ^ 32

wide_enough : (p h y : ℕ) → y < h → h * p ≤ 2 ^ 32 → p ≤ 2 ^ 32
wide_enough p h y hy hp = grind arith

-- Clipping a side does not change which pixels of the screen it holds.
clipped :
    (x w bound px : ℕ)
    → x < bound
    → px < bound
    → (leb x px && ltb px (x + (min (x + w) bound - x))) ≡ (leb x px && ltb px (x + w))
clipped x w bound px hx hpx = ground arith

above_fits : (p a h : ℕ) → a ≤ h → h * p ≤ 2 ^ 32 → a * p ≤ 2 ^ 32
above_fits p a h ha hp = grind arith

-- On a screen whose lines fit the lines of the buffer, whose buffer 32 bits can index and which has
-- at most 2 ^ 32 lines, `vbe_fill_rect` with a width and a height of 32 bits gives the colour to
-- the pixels of the screen inside the rectangle and leaves every other pixel of the screen as it
-- was, also where the rectangle's ends go past the screen or past 2 ^ 32.
pub vbe_fill_rect_lem :
    (x y w h color : ℕ) (v : Vbe) (px py : ℕ)
    → IsValid v
    → IsMapped v
    → v.fb_h ≤ 2 ^ 32
    → w < 2 ^ 32
    → h < 2 ^ 32
    → px < v.fb_w
    → py < v.fb_h
    → (vbe_fill_rect x y w h color v).backbuffer (py * v.fb_pitch_pixels + px) ≡ (
        if (leb x px && ltb px (x + w)) && (leb y py && ltb py (y + h))
        then color
        else pixel_at v px py)
unfolding vbe_fill_rect
vbe_fill_rect_lem x y w h color v px py valid mapped tall hw hh hpx hpy =
    elim (Bool-cases (leb v.fb_w x || leb v.fb_h y)) [
      | inl off ↦ rw off (ground arith)
      | inr on ↦
          let wide : v.fb_pitch_pixels ≤ 2 ^ 32 =
            wide_enough v.fb_pitch_pixels v.fb_h py hpy mapped in
          let x_end = clip_end_lem x w v.fb_w (ground arith) (omega arith) hw in
          let y_end = clip_end_lem y h v.fb_h (ground arith) tall hh in
          let cols = min (x + w) v.fb_w - x in
          let rows = min (y + h) v.fb_h - y in
          let fits : (y + rows) * v.fb_pitch_pixels ≤ 2 ^ 32 =
            above_fits v.fb_pitch_pixels (y + rows) v.fb_h (ground arith) mapped in
          rw (on, x_end, y_end)
            (fill_rows_lem v.fb_pitch_pixels rows y x cols color v px py refl fits (ground arith)
                (omega arith)
              ∙ rw
                  (
                    clipped x w v.fb_w px (ground arith) hpx,
                    clipped y h v.fb_h py (ground arith) hpy,
                  )
                  refl)
    ]
