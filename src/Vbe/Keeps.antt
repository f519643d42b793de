-- ===== src/Vbe/Keeps.antt =====
-- Which pixels of the screen a drawing operation leaves alone.
use quetzal_os.Base.{
  ℕ, ◌+◌, ◌*◌, ◌^◌, ◌≤◌, ◌<◌, ◌≡◌, refl, ◌∙◌, Bool, true, false, ◌&&◌, inl, inr, ltb, leb, ◌==◌,
  if◌then◌else◌, Bool-cases, arith,
}
use quetzal_os.Vbe.{Vbe, index, vbe_put_pixel, vbe_draw_pixel, vbe_fill_rect}
use quetzal_os.Vbe.Frame.{
  IsValid, Draws, Draws-refl, Draws-trans, vbe_draw_pixel-Draws, vbe_fill_rect-Draws,
}
use quetzal_os.Vbe.Rect.{in_run, row_fits, IsMapped, pixel_at, vbe_fill_rect_lem}

-- The lines fit the lines of the buffer, whose cells 32 bits can count.
pub record IsScreen (v : Vbe) : Type 0 where
  pub wide : IsValid v
  pub mapped : IsMapped v
  pub tall : v.fb_h ≤ 2 ^ 32

-- `u` is `v` with cells of the screen written, but none at a pixel that `kept` holds of.
pub record Keeps (kept : ℕ → ℕ → Bool) (v u : Vbe) : Type 0 where
  pub draws : Draws v u
  pub same :
      (px py : ℕ)
      → px < v.fb_w
      → py < v.fb_h
      → kept px py ≡ true
      → pixel_at u px py ≡ pixel_at v px py

pub Draws-IsScreen : {v u : Vbe} → Draws v u → IsScreen v → IsScreen u
Draws-IsScreen {v} {u} d s = record {
  wide = omega (arith, d.same_w, d.same_pitch, s.wide);
  mapped = rw (d.same_h, d.same_pitch) s.mapped;
  tall = rw d.same_h s.tall;
}

-- A step that leaves those pixels of any screen.
abbrev pub IsKeeping : (ℕ → ℕ → Bool) → (Vbe → Vbe) → Type 0
IsKeeping kept f = (v : Vbe) → IsScreen v → Keeps kept v (f v)

module _ (kept : ℕ → ℕ → Bool) where
  pub Keeps-refl : (v : Vbe) → Keeps kept v v
  Keeps-refl v = record { draws = Draws-refl v; same = λ px py hx hy k. refl }

  pub Keeps-trans : {v u t : Vbe} → Keeps kept v u → Keeps kept u t → Keeps kept v t
  Keeps-trans {v} {u} {t} a b = record {
    draws = Draws-trans a.draws b.draws;
    same = λ px py hx hy k.
        b.same px py (rw a.draws.same_w hx) (rw a.draws.same_h hy) k ∙ a.same px py hx hy k;
  }

  pub Keeps-if :
      {v u t : Vbe} (b : Bool)
      → (b ≡ true → Keeps kept v u)
      → (b ≡ false → Keeps kept v t)
      → Keeps kept v (if b then u else t)
  Keeps-if true x y = x refl
  Keeps-if false x y = y refl

  pub then-IsKeeping :
      (f g : Vbe → Vbe) → IsKeeping kept f → IsKeeping kept g → IsKeeping kept (λ v. g (f v))
  then-IsKeeping f g hf hg v s =
      let a = hf v s in Keeps-trans a (hg (f v) (Draws-IsScreen a.draws s))

  pub if-IsKeeping :
      (b : Bool) (f g : Vbe → Vbe)
      → (b ≡ true → IsKeeping kept f)
      → (b ≡ false → IsKeeping kept g)
      → IsKeeping kept (λ v. if b then f v else g v)
  if-IsKeeping b f g hf hg v s = Keeps-if b (λ e. hf e v s) (λ e. hg e v s)

same_cell : (p x y px py : ℕ) → x < p → px < p → (y * p + x == py * p + px) ≡ (py == y && px == x)
same_cell p x y px py hx hpx = ground (arith, in_run p x y 1 px py hpx (omega arith))

kept_apart :
    (kept : ℕ → ℕ → Bool) (x y px py : ℕ)
    → kept x y ≡ false
    → kept px py ≡ true
    → (py == y && px == x) ≡ false
kept_apart kept x y px py other k = elim (Bool-cases (py == y && px == x)) [
  | inr apart ↦ apart
  | inl here ↦
      let row : py ≡ y = ground arith in let col : px ≡ x = ground arith in cc (other, k, row, col)
]

index_inside :
    (v : Vbe) (x y : ℕ)
    → IsScreen v
    → x < v.fb_w
    → y < v.fb_h
    → index v x y ≡ y * v.fb_pitch_pixels + x
index_inside v x y s hx hy =
    let room = row_fits v.fb_pitch_pixels y (x + 1) v.fb_h (omega arith) (omega (arith, s.wide)) in
    omega (arith, s.mapped, room)

-- A pixel of the screen, after any pixel is drawn.
pub vbe_draw_pixel_lem :
    (x y color : ℕ) (v : Vbe) (px py : ℕ)
    → IsScreen v
    → px < v.fb_w
    → py < v.fb_h
    → (vbe_draw_pixel x y color v).backbuffer (py * v.fb_pitch_pixels + px)
      ≡ (if py == y && px == x then color else pixel_at v px py)
unfolding vbe_draw_pixel vbe_put_pixel
vbe_draw_pixel_lem x y color v px py s hx hy = elim (Bool-cases (ltb x v.fb_w && ltb y v.fb_h)) [
  | inr off ↦ let apart : (py == y && px == x) ≡ false = ground arith in rw (off, apart) refl
  | inl on ↦
      let at = index_inside v x y s (ground arith) (ground arith) in
      let cell =
        same_cell v.fb_pitch_pixels x y px py (ground (arith, s.wide)) (omega (arith, s.wide)) in
      rw (on, at, cell) refl
]

-- A pixel elsewhere.
pub vbe_draw_pixel-IsKeeping :
    (kept : ℕ → ℕ → Bool) (x y color : ℕ)
    → kept x y ≡ false
    → IsKeeping kept (vbe_draw_pixel x y color)
vbe_draw_pixel-IsKeeping kept x y color other v s = record {
  draws = vbe_draw_pixel-Draws x y color v s.wide;
  same = λ px py hx hy k.
      let d = vbe_draw_pixel-Draws x y color v s.wide in
      let apart = kept_apart kept x y px py other k in
      rw d.same_pitch (vbe_draw_pixel_lem x y color v px py s hx hy ∙ rw apart refl);
}

-- A rectangle elsewhere.
pub vbe_fill_rect-IsKeeping :
    (kept : ℕ → ℕ → Bool) (x y w h color : ℕ)
    → w < 2 ^ 32
    → h < 2 ^ 32
    → ((px py : ℕ)
        → kept px py ≡ true
        → ((leb x px && ltb px (x + w)) && (leb y py && ltb py (y + h))) ≡ false)
    → IsKeeping kept (vbe_fill_rect x y w h color)
vbe_fill_rect-IsKeeping kept x y w h color hw hh other v s = record {
  draws = vbe_fill_rect-Draws x y w h color v s.wide;
  same = λ px py hx hy k.
      let d = vbe_fill_rect-Draws x y w h color v s.wide in
      rw d.same_pitch (
        vbe_fill_rect_lem x y w h color v px py s.wide s.mapped s.tall hw hh hx hy
        ∙ rw (other px py k) refl);
}
