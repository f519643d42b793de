-- ===== src/Vbe/Circle.antt =====
-- The pixels of `vbe_draw_circle`: the eight images of each point of the arc.
use quetzal_os.Base.{
  ℕ, ◌+◌, ◌*◌, ◌^◌, ◌≤◌, ◌<◌, ◌≡◌, refl, sym, ◌∙◌, Bool, false, ◌&&◌, ◌||◌, inl, inr, List, [], ◌∷◌,
  ◌==◌, if◌then◌else◌, arith, pos,
}
use quetzal_os.Vbe.{Vbe, vbe_draw_pixel, distance}
use quetzal_os.Vbe.Shapes.{circle_points, vbe_draw_circle, ◌⊕◌, neg}
use quetzal_os.Vbe.Frame.{Draws, Draws-refl, Draws-trans, vbe_draw_pixel-Draws}
use quetzal_os.Vbe.Rect.{pixel_at}
use quetzal_os.Vbe.Keeps.{IsScreen, Draws-IsScreen, vbe_draw_pixel_lem}
use quetzal_os.Vbe.Arc.{Arc, next, rounds, circle_loop_start}

-- `u` is `v` after drawing, with the colour at this pixel if `here`.
record Shows (px py color : ℕ) (here : Bool) (v u : Vbe) : Type 0 where
  draws : Draws v u
  pixel : u.backbuffer (py * v.fb_pitch_pixels + px) ≡ (if here then color else pixel_at v px py)

later : (a b : Bool) (x y : ℕ) → (if b then x else (if a then x else y)) ≡ (if a || b then x else y)
later a b x y = ground arith

module _ (px py color : ℕ) where
  Shows-refl : (v : Vbe) → Shows px py color false v v
  Shows-refl v = record { draws = Draws-refl v; pixel = refl }

  Shows-trans :
      {v u t : Vbe} (a b : Bool)
      → Shows px py color a v u
      → Shows px py color b u t
      → Shows px py color (a || b) v t
  Shows-trans {v} {u} {t} a b f g =
      let at = py * v.fb_pitch_pixels + px in
      let second : t.backbuffer at ≡ (if b then color else u.backbuffer at) =
        rw (sym f.draws.same_pitch) g.pixel in
      record {
        draws = Draws-trans f.draws g.draws;
        pixel = second ∙ rw f.pixel (later a b color (pixel_at v px py));
      }

  Shows-pixel :
      (x y : ℕ) (v : Vbe)
      → IsScreen v
      → px < v.fb_w
      → py < v.fb_h
      → Shows px py color (py == y && px == x) v (vbe_draw_pixel x y color v)
  Shows-pixel x y v s hx hy = record {
    draws = vbe_draw_pixel-Draws x y color v s.wide;
    pixel = vbe_draw_pixel_lem x y color v px py s hx hy;
  }

-- A coordinate of the screen, and one that lies `d` from the centre.
ahead : (p c d : ℕ) → c + d < 2 ^ 31 → (p == c ⊕ pos d) ≡ (p == c + d)
ahead p c d h = ground arith

back : (p c d : ℕ) → p < 2 ^ 31 → c < 2 ^ 31 → d < 2 ^ 31 → (p == c ⊕ neg (pos d)) ≡ (p + d == c)
back p c d hp hc hd = ground arith

either_side : (p c d : ℕ) → (p == c + d || p + d == c) ≡ (distance p c == d)
either_side p c d = ground arith

side :
    (p c d : ℕ)
    → p < 2 ^ 31
    → c + d < 2 ^ 31
    → (p == c ⊕ pos d || p == c ⊕ neg (pos d)) ≡ (distance p c == d)
side p c d hp hc =
    rw (ahead p c d hc, back p c d hp (omega arith) (omega arith)) (either_side p c d)

-- The eight images in the order in which they are drawn, behind those drawn before: east and west
-- by the two distances, and south and north.
abbrev eight : Bool → Bool → Bool → Bool → Bool → Bool → Bool → Bool → Bool → Bool
eight a ex wx ey wy sx nx sy ny =
    a
    || (sy && ex)
    || (sx && ey)
    || (sx && wy)
    || (sy && wx)
    || (ny && wx)
    || (nx && wy)
    || (nx && ey)
    || (ny && ex)

eight_lem :
    (a ex wx ey wy sx nx sy ny : Bool)
    → eight a ex wx ey wy sx nx sy ny
      ≡ (a || (((ex || wx) && (sy || ny)) || ((ey || wy) && (sx || nx))))
eight_lem a ex wx ey wy sx nx sy ny = ground arith

or_false : (a : Bool) → a ≡ (a || false)
or_false a = ground arith

or_assoc : (a b c : Bool) → ((a || b) || c) ≡ (a || (b || c))
or_assoc a b c = ground arith

Shows-same :
    {px py color : ℕ} {a b : Bool} {v u : Vbe}
    → a ≡ b
    → Shows px py color a v u
    → Shows px py color b v u
Shows-same e f = rw (sym e) f

-- Whether the arc has a point `a` columns and `b` rows, or `b` columns and `a` rows, from the centre.
abbrev pub on_arc : List ℕ → ℕ → ℕ → ℕ → Bool
on_arc [] y a b = false
on_arc (x ∷ xs) y a b = ((a == x && b == y) || (a == y && b == x)) || on_arc xs (y + 1) a b

-- On a screen of at most 2 ^ 31 columns and rows, around a centre from which the radius goes no
-- further than 2 ^ 31.
module _ (v : Vbe) (s : IsScreen v) (narrow : v.fb_w ≤ 2 ^ 31) (low : v.fb_h ≤ 2 ^ 31)
    (cx cy r color px py : ℕ) (hcx : cx + r < 2 ^ 31) (hcy : cy + r < 2 ^ 31) (hx : px < v.fb_w)
    (hy : py < v.fb_h) where
  step :
      {u : Vbe} (a : Bool) (x y : ℕ)
      → Shows px py color a v u
      → Shows px py color (a || (py == y && px == x)) v (vbe_draw_pixel x y color u)
  step {u} a x y f = Shows-trans px py color a (py == y && px == x) f (
      Shows-pixel px py color x y u (Draws-IsScreen f.draws s) (rw f.draws.same_w hx)
        (rw f.draws.same_h hy))

  condition :
      (a : Bool) (x y : ℕ)
      → x ≤ r
      → y ≤ r
      → eight a
          (px == cx ⊕ pos x)
          (px == cx ⊕ neg (pos x))
          (px == cx ⊕ pos y)
          (px == cx ⊕ neg (pos y))
          (py == cy ⊕ pos x)
          (py == cy ⊕ neg (pos x))
          (py == cy ⊕ pos y)
          (py == cy ⊕ neg (pos y))
        ≡ (a
            || ((distance px cx == x && distance py cy == y)
                || (distance px cx == y && distance py cy == x)))
  condition a x y kx ky =
      eight_lem a (px == cx ⊕ pos x) (px == cx ⊕ neg (pos x)) (px == cx ⊕ pos y)
        (px == cx ⊕ neg (pos y)) (py == cy ⊕ pos x) (py == cy ⊕ neg (pos x)) (py == cy ⊕ pos y)
        (py == cy ⊕ neg (pos y))
      ∙ rw
          (
            side px cx x (omega arith) (omega arith),
            side px cx y (omega arith) (omega arith),
            side py cy x (omega arith) (omega arith),
            side py cy y (omega arith) (omega arith),
          )
          refl

  circle_points-Shows :
      (a : Bool) (x y : ℕ) {u : Vbe}
      → x ≤ r
      → y ≤ r
      → Shows px py color a v u
      → Shows px py color
          (a
            || ((distance px cx == x && distance py cy == y)
                || (distance px cx == y && distance py cy == x)))
          v
          (circle_points cx cy (pos x) (pos y) color u)
  unfolding circle_points
  circle_points-Shows a x y {u} kx ky f =
      let drawn = step _ _ _ (
        step _ _ _
          (step _ _ _ (step _ _ _ (step _ _ _ (step _ _ _ (step _ _ _ (step a _ _ f))))))) in
      Shows-same (condition a x y kx ky) drawn

  rounds-Shows :
      (a : Bool) (x y : ℕ) (xs : List ℕ) (u : Vbe)
      → Arc r x y xs
      → x ≤ r
      → Shows px py color a v u
      → Shows px py color
          (a || on_arc xs y (distance px cx) (distance py cy))
          v
          (rounds (λ i j w. circle_points cx cy i j color w) y xs u)
  rounds-Shows a x y [] u arc hx f = Shows-same (or_false a) f
  rounds-Shows a x y (c ∷ xs) u (next hy near moves arc) hx f =
      let dx = distance px cx in
      let dy = distance py cy in
      let here = (dx == x && dy == y) || (dx == y && dy == x) in
      Shows-same (or_assoc a here (on_arc xs (y + 1) dx dy)) (
        rounds-Shows (a || here) _ (y + 1) xs (circle_points cx cy (pos x) (pos y) color u) arc
          (elim moves [ inl same ↦ omega arith | inr inward ↦ omega arith ])
          (circle_points-Shows a x y hx (omega arith) f))

-- The pixels that a circle paints: those of the eight images of an arc.
pub record Painted (cx cy r color : ℕ) (v u : Vbe) : Type 0 where
  pub columns : List ℕ
  pub arc : Arc r r 0 columns
  pub pixels :
      (px py : ℕ)
      → px < v.fb_w
      → py < v.fb_h
      → u.backbuffer (py * v.fb_pitch_pixels + px)
        ≡ (if on_arc columns 0 (distance px cx) (distance py cy) then color else pixel_at v px py)

-- On a screen of at most 2 ^ 31 columns and rows, none of them 0, whose lines fit the lines of the
-- buffer and whose cells 32 bits can count, with a radius from 1 to 2 ^ 29 - 1 that goes from the
-- centre no further than 2 ^ 31: `vbe_draw_circle` paints the pixels of the screen that lie from the centre, in
-- any of the eight directions, as the points of an arc do, and no other pixel of the screen. The arc
-- begins at the radius, in row 0, and ends at the diagonal; from row to row it stays in its column or
-- goes one column inward; and each point of it has a distance from the centre whose square is at most
-- r^2 + r, half a pixel outside of the circle, and at least r^2 - 3 r.
pub vbe_draw_circle-Painted :
    (cx cy r color : ℕ) (v : Vbe)
    → IsScreen v
    → 0 < v.fb_w
    → v.fb_w ≤ 2 ^ 31
    → 0 < v.fb_h
    → v.fb_h ≤ 2 ^ 31
    → 0 < r
    → r < 2 ^ 29
    → cx + r < 2 ^ 31
    → cy + r < 2 ^ 31
    → Painted cx cy r color v (vbe_draw_circle cx cy r color v)
unfolding vbe_draw_circle
vbe_draw_circle-Painted cx cy r color v s w1 w2 h1 h2 hr small hcx hcy =
    let there : (v.fb_w == 0 || v.fb_h == 0) ≡ false = ground arith in
    let some_radius : (r == 0) ≡ false = ground arith in
    let loop = circle_loop_start (λ i j u. circle_points cx cy i j color u) r v hr (omega arith) in
    rw (there, some_radius, loop.drawn)
      (record {
        columns = loop.columns;
        arc = loop.arc;
        pixels = λ px py hx hy.
            (rounds-Shows v s w2 h2 cx cy r color px py hcx hcy hx hy false r 0 loop.columns v
              loop.arc (omega arith) (Shows-refl px py color v)).pixel;
      })
