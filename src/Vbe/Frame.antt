-- ===== src/Vbe/Frame.antt =====
-- Which cells a drawing operation may write: none but those of the screen.
use quetzal_os.Base.{
  ℕ, zero, suc, ◌+◌, ◌-◌, ◌*◌, ◌≤◌, ◌<◌, ◌≡◌, refl, ◌∙◌, Bool, true, false, ◌&&◌, ◌||◌, inl, inr,
  ltb, leb, ◌==◌, if◌then◌else◌, Bool-cases, arith, ℤ, pos, pos_part, ◌-ℤ◌, ltb_ℤ, eqb_ℤ, int_of,
  word_of,
}
use quetzal_os.Vbe.{
  Vbe, vbe_put_pixel, vbe_draw_pixel, fill_row, fill_rows, vbe_fill_rect, clip_end, line_loop,
  vbe_draw_line, hline_loop, hline_ordered, vbe_draw_hline, clamp_coord, distance, sign_step,
}

-- A line of the buffer has room for a line of the screen.
abbrev pub IsValid : Vbe → Type 0
IsValid v = v.fb_w ≤ v.fb_pitch_pixels

-- `w` is `v` with some cells of the screen written: its sides, the linear frame buffer and every
-- cell behind the last line are the same.
pub record Draws (v w : Vbe) : Type 0 where
  pub same_w : w.fb_w ≡ v.fb_w
  pub same_h : w.fb_h ≡ v.fb_h
  pub same_pitch : w.fb_pitch_pixels ≡ v.fb_pitch_pixels
  pub same_lfb : w.lfb ≡ v.lfb
  pub behind : (i : ℕ) → v.fb_h * v.fb_pitch_pixels ≤ i → w.backbuffer i ≡ v.backbuffer i

pub Draws-refl : (v : Vbe) → Draws v v
Draws-refl v = record {
  same_w = refl;
  same_h = refl;
  same_pitch = refl;
  same_lfb = refl;
  behind = λ i h. refl;
}

pub Draws-trans : {u v w : Vbe} → Draws u v → Draws v w → Draws u w
Draws-trans {u} {v} {w} d e = record {
  same_w = e.same_w ∙ d.same_w;
  same_h = e.same_h ∙ d.same_h;
  same_pitch = e.same_pitch ∙ d.same_pitch;
  same_lfb = e.same_lfb ∙ d.same_lfb;
  behind = λ i h. e.behind i (rw (d.same_h, d.same_pitch) h) ∙ d.behind i h;
}

-- Either of two branches.
pub Draws-if : {u v w : Vbe} (b : Bool) → Draws u v → Draws u w → Draws u (if b then v else w)
Draws-if true d e = d
Draws-if false d e = e

pub Draws-IsValid : {v w : Vbe} → Draws v w → IsValid v → IsValid w
Draws-IsValid d h = omega (arith, d.same_w, d.same_pitch)

index-lt : (w h p x y : ℕ) → w ≤ p → x < w → y < h → y * p + x < h * p
index-lt w h p x y wide hx hy = grind arith

pub vbe_put_pixel-Draws :
    (x y color : ℕ) (v : Vbe)
    → IsValid v
    → x < v.fb_w
    → y < v.fb_h
    → Draws v (vbe_put_pixel x y color v)
unfolding vbe_put_pixel
vbe_put_pixel-Draws x y color v valid hx hy = record {
  same_w = refl;
  same_h = refl;
  same_pitch = refl;
  same_lfb = refl;
  behind = λ i h. ground (arith, index-lt v.fb_w v.fb_h v.fb_pitch_pixels x y valid hx hy);
}

pub vbe_draw_pixel-Draws :
    (x y color : ℕ) (v : Vbe) → IsValid v → Draws v (vbe_draw_pixel x y color v)
unfolding vbe_draw_pixel
vbe_draw_pixel-Draws x y color v valid = elim (Bool-cases (ltb x v.fb_w && ltb y v.fb_h)) [
  | inl on ↦ rw on (vbe_put_pixel-Draws x y color v valid (ground arith) (ground arith))
  | inr off ↦ rw off (Draws-refl v)
]

fill_row-Draws :
    (n px py color : ℕ) (v : Vbe)
    → IsValid v
    → px + n ≤ v.fb_w
    → py < v.fb_h
    → Draws v (fill_row n px py color v)
unfolding fill_row
fill_row-Draws zero px py color v valid hx hy = Draws-refl v
fill_row-Draws (suc n) px py color v valid hx hy =
    let d = vbe_put_pixel-Draws px py color v valid (omega arith) hy in
    Draws-trans d (
      fill_row-Draws n (px + 1) py color (vbe_put_pixel px py color v) (Draws-IsValid d valid)
        (omega (arith, d.same_w)) (omega (arith, d.same_h)))

fill_rows-Draws :
    (n py x cols color : ℕ) (v : Vbe)
    → IsValid v
    → x + cols ≤ v.fb_w
    → py + n ≤ v.fb_h
    → Draws v (fill_rows n py x cols color v)
unfolding fill_rows
fill_rows-Draws zero py x cols color v valid hx hy = Draws-refl v
fill_rows-Draws (suc n) py x cols color v valid hx hy =
    let d = fill_row-Draws cols x py color v valid hx (omega arith) in
    Draws-trans d (
      fill_rows-Draws n (py + 1) x cols color (fill_row cols x py color v) (Draws-IsValid d valid)
        (omega (arith, d.same_w)) (omega (arith, d.same_h)))

clip_end-le : (x w bound : ℕ) → clip_end x w bound ≤ bound
clip_end-le x w bound = ground arith

pub vbe_fill_rect-Draws :
    (x y w h color : ℕ) (v : Vbe) → IsValid v → Draws v (vbe_fill_rect x y w h color v)
unfolding vbe_fill_rect
vbe_fill_rect-Draws x y w h color v valid = elim (Bool-cases (leb v.fb_w x || leb v.fb_h y)) [
  | inl off ↦ rw off (Draws-refl v)
  | inr on ↦ rw on (
      fill_rows-Draws (clip_end y h v.fb_h - y) y x (clip_end x w v.fb_w - x) color v valid
        (ground (arith, clip_end-le x w v.fb_w)) (ground (arith, clip_end-le y h v.fb_h)))
]

hline_loop-Draws :
    (n px y color : ℕ) (v : Vbe)
    → IsValid v
    → (0 < n → px + n ≤ v.fb_w)
    → y < v.fb_h
    → Draws v (hline_loop n px y color v)
unfolding hline_loop
hline_loop-Draws zero px y color v valid hx hy = Draws-refl v
hline_loop-Draws (suc n) px y color v valid hx hy =
    let room : px + suc n ≤ v.fb_w = hx (omega arith) in
    let d = vbe_put_pixel-Draws px y color v valid (omega arith) hy in
    Draws-trans d (
      hline_loop-Draws n (px + 1) y color (vbe_put_pixel px y color v) (Draws-IsValid d valid)
        (λ more. omega (arith, d.same_w)) (omega (arith, d.same_h)))

hline_ordered-Draws :
    (x0 x1 y : ℤ) (color : ℕ) (v : Vbe) → IsValid v → Draws v (hline_ordered x0 x1 y color v)
unfolding hline_ordered
hline_ordered-Draws x0 x1 y color v valid =
    let right = if leb v.fb_w (word_of x1) then v.fb_w - 1 else word_of x1 in
    let left = pos_part x0 in
    elim (Bool-cases (ltb_ℤ y (pos 0) || leb v.fb_h (word_of y))) [
      | inl off ↦ rw off (Draws-refl v)
      | inr row ↦ elim (Bool-cases (ltb_ℤ x1 (pos 0) || leb v.fb_w (word_of x0))) [
        | inl off ↦ rw (row, off) (Draws-refl v)
        | inr on ↦
            let small : right < v.fb_w = ground arith in
            rw (row, on)
              (hline_loop-Draws (right + 1 - left) left (word_of y) color v valid
                (λ more. omega arith) (ground arith))
      ]
    ]

pub vbe_draw_hline-Draws :
    (x0 x1 y : ℤ) (color : ℕ) (v : Vbe) → IsValid v → Draws v (vbe_draw_hline x0 x1 y color v)
unfolding vbe_draw_hline
vbe_draw_hline-Draws x0 x1 y color v valid = elim (Bool-cases (ltb_ℤ x1 x0)) [
  | inl swap ↦ rw swap (hline_ordered-Draws x1 x0 y color v valid)
  | inr keep ↦ rw keep (hline_ordered-Draws x0 x1 y color v valid)
]

line_loop-Draws :
    (n x1 y1 dx dy : ℕ) (sx sy : ℤ) (color : ℕ) (x y err : ℤ) (v : Vbe)
    → IsValid v
    → Draws v (line_loop n x1 y1 dx dy sx sy color x y err v)
unfolding line_loop
line_loop-Draws zero x1 y1 dx dy sx sy color x y err v valid = Draws-refl v
line_loop-Draws (suc n) x1 y1 dx dy sx sy color x y err v valid =
    let d = vbe_draw_pixel-Draws (word_of x) (word_of y) color v valid in
    Draws-if (eqb_ℤ x (int_of x1) && eqb_ℤ y (int_of y1)) d
      (Draws-trans d (line_loop-Draws n x1 y1 dx dy sx sy color _ _ _ _ (Draws-IsValid d valid)))

pub vbe_draw_line-Draws :
    (x0 y0 x1 y1 color : ℕ) (v : Vbe) → IsValid v → Draws v (vbe_draw_line x0 y0 x1 y1 color v)
unfolding vbe_draw_line
vbe_draw_line-Draws x0 y0 x1 y1 color v valid =
    let ax = clamp_coord x0 v.fb_w in
    let bx = clamp_coord x1 v.fb_w in
    let ay = clamp_coord y0 v.fb_h in
    let by = clamp_coord y1 v.fb_h in
    let dx = distance bx ax in
    let dy = distance by ay in
    Draws-if (v.fb_w == 0 || v.fb_h == 0) (Draws-refl v) (
      line_loop-Draws (dx + dy + 1) bx by dx dy (sign_step ax bx) (sign_step ay by) color
        (int_of ax) (int_of ay) (pos dx -ℤ pos dy) v valid)
