-- ===== src/Vbe/Line.antt =====
-- The pixels of a line: `vbe_draw_line` paints the nearest pixel of each column, or of each row of a
-- steep line, and comes to the end.
mod Walk
mod Loop
use quetzal_os.Base.{
  ℕ, ◌+◌, ◌-◌, ◌*◌, ◌^◌, ◌≤◌, ◌<◌, ◌≡◌, refl, sym, ap, ◌∙◌, Bool, true, false, ◌&&◌, ◌||◌, inl, inr,
  none, ltb, leb, ◌==◌, if◌then◌else◌, Bool-cases, arith, pos, sub_ℕ, ◌-ℤ◌, int_of, word_of,
}
use quetzal_os.Vbe.{Vbe, vbe_draw_pixel, line_loop, vbe_draw_line, clamp_coord, distance, sign_step}
use quetzal_os.Vbe.Frame.{Draws, Draws-refl, Draws-trans, vbe_draw_pixel-Draws}
use quetzal_os.Vbe.Rect.{pixel_at}
use quetzal_os.Vbe.Keeps.{IsScreen, Draws-IsScreen, vbe_draw_pixel_lem}
use quetzal_os.Vbe.Line.Loop.{at, unit, Ends, put, line_loop-walk}
use quetzal_os.Vbe.Line.Walk.{walk, is_on_line, walk_lem, walk_more}

abbrev place : Bool → ℕ → ℕ → ℕ
place forward start i = if forward then start + i else start - i

at_word :
    (forward : Bool) (start d end i bound : ℕ)
    → Ends forward start d end
    → i ≤ d
    → start < bound
    → end < bound
    → bound ≤ 2 ^ 32
    → word_of (at forward start i) ≡ place forward start i
at_word true start d end i bound e hi hs he hb = ground arith
at_word false start d end i bound e hi hs he hb = ground arith

-- `p` lies between the two ends.
abbrev pub is_between : ℕ → ℕ → ℕ → Bool
is_between a b p = if ltb a b then leb a p && leb p b else leb b p && leb p a

-- The line from (ax, ay) to (bx, by) takes the pixel at column `px` of row `py`.
abbrev pub is_painted : ℕ → ℕ → ℕ → ℕ → ℕ → ℕ → Bool
is_painted ax ay bx by px py =
    (is_between ax bx px && is_between ay by py)
    && is_on_line (distance bx ax) (distance by ay) (distance px ax) (distance py ay)

placed :
    (a b i p : ℕ)
    → i ≤ distance b a
    → (p == place (ltb a b) a i) ≡ (is_between a b p && i == distance p a)
placed a b i p h = ground arith

sign_step-unit : (a b : ℕ) → sign_step a b ≡ unit (ltb a b)
sign_step-unit a b = refl

Ends-distance : (a b : ℕ) → Ends (ltb a b) a (distance b a) b
Ends-distance a b = elim (Bool-cases (ltb a b)) [
  | inl forward ↦ rw forward (ground arith)
  | inr backward ↦ rw backward (ground arith)
]

regroup : (a b c d : Bool) → ((a && b) && (c && d)) ≡ ((c && a) && (d && b))
regroup true true true d = ground arith
regroup true true false d = ground arith
regroup true false c d = ground arith
regroup false b c d = ground arith

start_at : (forward : Bool) (start : ℕ) → start < 2 ^ 31 → int_of start ≡ at forward start 0
start_at true start h = ground arith
start_at false start h = ground arith

start_err : (dx dy : ℕ) → pos dx -ℤ pos dy ≡ sub_ℕ (dx * (0 + 1)) (dy * (0 + 1))
start_err dx dy = ground arith

line_walks :
    (n ax ay bx by color : ℕ) (v : Vbe)
    → ax < 2 ^ 31
    → ay < 2 ^ 31
    → bx < 2 ^ 31
    → by < 2 ^ 31
    → line_loop n bx by
        (distance bx ax)
        (distance by ay)
        (sign_step ax bx)
        (sign_step ay by)
        color
        (int_of ax)
        (int_of ay)
        (pos (distance bx ax) -ℤ pos (distance by ay))
        v
      ≡ walk
          (put (ltb ax bx) (ltb ay by) ax ay bx by (distance bx ax) (distance by ay) color)
          n
          (distance bx ax)
          (distance by ay)
          0
          0
          v
line_walks n ax ay bx by color v hax hay hbx hby =
    let at_x = start_at (ltb ax bx) ax hax in
    let at_y = start_at (ltb ay by) ay hay in
    let from = start_err (distance bx ax) (distance by ay) in
    rw (at_x, at_y, from)
      (line_loop-walk (ltb ax bx) (ltb ay by) ax ay bx by (distance bx ax) (distance by ay) color n
        0 0 v (Ends-distance ax bx) (Ends-distance ay by) hbx hby)

-- The loop of every line on this screen ends by its own test within the rounds that the model allows
-- it: any number of rounds more changes nothing.
abbrev pub LinesEnd : Vbe → Type 0
LinesEnd v =
    (x0 y0 x1 y1 color k : ℕ)
    → let ax = clamp_coord x0 v.fb_w in
      let ay = clamp_coord y0 v.fb_h in
      let bx = clamp_coord x1 v.fb_w in
      let by = clamp_coord y1 v.fb_h in
      let dx = distance bx ax in
      let dy = distance by ay in
      let loop = λ (n : ℕ).
        line_loop n bx by dx dy (sign_step ax bx) (sign_step ay by) color (int_of ax) (int_of ay)
          (pos dx -ℤ pos dy) v in
      loop (dx + dy + 1 + k) ≡ loop (dx + dy + 1)

clamped : (a bound : ℕ) → bound ≤ 2 ^ 29 → clamp_coord a bound < 2 ^ 31
clamped a bound h = ground arith

pub screen-LinesEnd : (v : Vbe) → v.fb_w ≤ 2 ^ 29 → v.fb_h ≤ 2 ^ 29 → LinesEnd v
screen-LinesEnd v hw hh x0 y0 x1 y1 color k =
    let ax = clamp_coord x0 v.fb_w in
    let ay = clamp_coord y0 v.fb_h in
    let bx = clamp_coord x1 v.fb_w in
    let by = clamp_coord y1 v.fb_h in
    let dx = distance bx ax in
    let dy = distance by ay in
    let step = put (ltb ax bx) (ltb ay by) ax ay bx by dx dy color in
    let hax = clamped x0 v.fb_w hw in
    let hay = clamped y0 v.fb_h hh in
    let hbx = clamped x1 v.fb_w hw in
    let hby = clamped y1 v.fb_h hh in
    line_walks (dx + dy + 1 + k) ax ay bx by color v hax hay hbx hby
    ∙ walk_more step dx dy k v
    ∙ sym (line_walks (dx + dy + 1) ax ay bx by color v hax hay hbx hby)

-- On a screen of at most 2 ^ 29 columns and rows, a line between two of its points.
module _ (v : Vbe) (s : IsScreen v) (narrow : v.fb_w ≤ 2 ^ 29) (low : v.fb_h ≤ 2 ^ 29)
    (ax ay bx by color : ℕ) (hax : ax < v.fb_w) (hay : ay < v.fb_h) (hbx : bx < v.fb_w)
    (hby : by < v.fb_h) where
  abbrev forth : ℕ → ℕ → Vbe → Vbe
  forth = put (ltb ax bx) (ltb ay by) ax ay bx by (distance bx ax) (distance by ay) color

  put_keeps : (i j : ℕ) (u : Vbe) → Draws v u → Draws v (forth i j u)
  put_keeps i j u d = Draws-trans d (vbe_draw_pixel-Draws _ _ color u (Draws-IsScreen d s).wide)

  put_shows :
      (px py i j : ℕ) (u : Vbe)
      → px < v.fb_w
      → py < v.fb_h
      → i ≤ distance bx ax
      → j ≤ distance by ay
      → Draws v u
      → (forth i j u).backbuffer (py * v.fb_pitch_pixels + px) ≡ (
          if (is_between ax bx px && is_between ay by py)
            && (i == distance px ax && j == distance py ay)
          then color
          else u.backbuffer (py * v.fb_pitch_pixels + px))
  put_shows px py i j u hx hy hi hj d =
      let right = ltb ax bx in
      let down = ltb ay by in
      let drawn =
        vbe_draw_pixel_lem (place right ax i) (place down ay j) color u px py (Draws-IsScreen d s)
          (rw d.same_w hx) (rw d.same_h hy) in
      let at_x =
        at_word right ax (distance bx ax) bx i v.fb_w (Ends-distance ax bx) hi hax hbx
          (omega arith) in
      let at_y =
        at_word down ay (distance by ay) by j v.fb_h (Ends-distance ay by) hj hay hby
          (omega arith) in
      rw (at_x, at_y, ← d.same_pitch, drawn, placed ax bx i px hi, placed ay by j py hj)
        (ap (λ b. if b then color else u.backbuffer (py * u.fb_pitch_pixels + px))
          (regroup (is_between ay by py) (j == distance py ay) (is_between ax bx px)
            (i == distance px ax)))

  walks :
      (n : ℕ)
      → line_loop n bx by
          (distance bx ax)
          (distance by ay)
          (sign_step ax bx)
          (sign_step ay by)
          color
          (int_of ax)
          (int_of ay)
          (pos (distance bx ax) -ℤ pos (distance by ay))
          v
        ≡ walk forth n (distance bx ax) (distance by ay) 0 0 v
  walks n = line_walks n ax ay bx by color v (omega arith) (omega arith) (omega arith) (omega arith)

  between_lem :
      (px py : ℕ)
      → px < v.fb_w
      → py < v.fb_h
      → (line_loop
            (distance bx ax + distance by ay + 1)
            bx
            by
            (distance bx ax)
            (distance by ay)
            (sign_step ax bx)
            (sign_step ay by)
            color
            (int_of ax)
            (int_of ay)
            (pos (distance bx ax) -ℤ pos (distance by ay))
            v).backbuffer
          (py * v.fb_pitch_pixels + px)
        ≡ (if is_painted ax ay bx by px py then color else pixel_at v px py)
  between_lem px py hx hy =
      let dx = distance bx ax in
      let dy = distance by ay in
      let inside = is_between ax bx px && is_between ay by py in
      let walked =
        walk_lem forth (Draws v) (λ (u : Vbe). u.backbuffer (py * v.fb_pitch_pixels + px)) color
          (distance px ax) (distance py ay) inside dx dy put_keeps
          (λ i j u hi hj d. put_shows px py i j u hx hy hi hj d) v (Draws-refl v) in
      rw (walks (dx + dy + 1)) walked

clamp_coord-lt : (a bound : ℕ) → 0 < bound → clamp_coord a bound < bound
clamp_coord-lt a bound h = ground arith

-- On a screen of at most 2 ^ 29 columns and rows, none of them 0, whose lines fit the lines of the
-- buffer and whose cells 32 bits can count, `vbe_draw_line` comes to the end of the line: with both
-- ends clamped to the screen, it paints, of each column between them (of each row, where the line
-- goes on further in rows), the pixel that is nearest to the line, and no other pixel of the screen.
pub vbe_draw_line_lem :
    (x0 y0 x1 y1 color : ℕ) (v : Vbe) (px py : ℕ)
    → IsScreen v
    → v.fb_w ≤ 2 ^ 29
    → v.fb_h ≤ 2 ^ 29
    → px < v.fb_w
    → py < v.fb_h
    → (vbe_draw_line x0 y0 x1 y1 color v).backbuffer (py * v.fb_pitch_pixels + px) ≡ (
        if is_painted
          (clamp_coord x0 v.fb_w)
          (clamp_coord y0 v.fb_h)
          (clamp_coord x1 v.fb_w)
          (clamp_coord y1 v.fb_h)
          px
          py
        then color
        else pixel_at v px py)
unfolding vbe_draw_line
vbe_draw_line_lem x0 y0 x1 y1 color v px py s narrow low hx hy =
    let ax = clamp_coord x0 v.fb_w in
    let ay = clamp_coord y0 v.fb_h in
    let bx = clamp_coord x1 v.fb_w in
    let by = clamp_coord y1 v.fb_h in
    let hax = clamp_coord-lt x0 v.fb_w (omega arith) in
    let hay = clamp_coord-lt y0 v.fb_h (omega arith) in
    let hbx = clamp_coord-lt x1 v.fb_w (omega arith) in
    let hby = clamp_coord-lt y1 v.fb_h (omega arith) in
    let there : (v.fb_w == 0 || v.fb_h == 0) ≡ false = ground arith in
    rw there (between_lem v s narrow low ax ay bx by color hax hay hbx hby px py hx hy)
