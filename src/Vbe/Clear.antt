-- ===== src/Vbe/Clear.antt =====
-- `vbe_clear` and `vbe_swap_buffers`. The string instructions count `rcx` down to 0, and `quads` is
-- that register (`"+c"(quads)`): behind the instruction `quads * 8` is 0, so that the code for the
-- tail works at the start of the buffers.
use quetzal_os.Base.{
  ℕ, zero, suc, ◌+◌, ◌*◌, ◌/◌, ◌%◌, ◌^◌, ◌<◌, ◌≡◌, ap, ◌∙◌, ◌&&◌, ◌||◌, inl, inr, ltb, leb, ◌==◌,
  if◌then◌else◌, Bool-cases, ==_iff, arith, u64,
}
use quetzal_os.Vbe.{Vbe, write}

-- `rep stosq` of the doubled colour: two pixels each time, from pixel `i` on.
pub rep_stosq : ℕ → ℕ → ℕ → (ℕ → ℕ) → ℕ → ℕ
rep_stosq zero i color p = p
rep_stosq (suc n) i color p = rep_stosq n (i + 2) color (write (write p i color) (i + 1) color)

-- `rep movsq`: two pixels each time, from pixel `i` on.
pub rep_movsq : ℕ → ℕ → (ℕ → ℕ) → (ℕ → ℕ) → ℕ → ℕ
rep_movsq zero i src dst = dst
rep_movsq (suc n) i src dst =
    rep_movsq n (i + 2) src (write (write dst i (src i)) (i + 1) (src (i + 1)))

-- The size of the screen in bytes.
abbrev pub total_bytes : Vbe → ℕ
total_bytes v = u64 (u64 (v.fb_h * v.fb_pitch_pixels) * 4)

unfoldable pub vbe_clear : ℕ → Vbe → Vbe
unfolding rep_stosq
vbe_clear color v =
    let quads = total_bytes v / 8 in
    let tail = total_bytes v % 8 in
    let filled = rep_stosq quads 0 color v.backbuffer in
    let quads_left : ℕ = 0 in
    record v { backbuffer = if leb 4 tail then write filled (quads_left * 2) color else filled }

-- The tail is 0 or 4 bytes: one pixel.
unfoldable pub vbe_swap_buffers : Vbe → Vbe
unfolding rep_movsq
vbe_swap_buffers v =
    let quads = total_bytes v / 8 in
    let tail = total_bytes v % 8 in
    let copied = rep_movsq quads 0 v.backbuffer v.lfb in
    let quads_left : ℕ = 0 in
    record v {
      lfb =
          if tail == 0
          then copied
          else write copied (quads_left * 2) (v.backbuffer (quads_left * 2));
    }

rep_stosq_lem :
    (n i color : ℕ) (p : ℕ → ℕ) (j : ℕ)
    → rep_stosq n i color p j ≡ (if leb i j && ltb j (i + 2 * n) then color else p j)
unfolding rep_stosq
rep_stosq_lem zero i color p j = ground arith
rep_stosq_lem (suc n) i color p j =
    ground (arith, rep_stosq_lem n (i + 2) color (write (write p i color) (i + 1) color) j)

-- The two cells of one quadword.
moved_pair :
    (i : ℕ) (src dst : ℕ → ℕ) (j : ℕ)
    → write (write dst i (src i)) (i + 1) (src (i + 1)) j
      ≡ (if leb i j && ltb j (i + 2) then src j else dst j)
moved_pair i src dst j = elim (Bool-cases (i + 1 == j)) [
  | inl high ↦ let e : src (i + 1) ≡ src j = ap src ((==_iff (i + 1) j).0 high) in ground arith
  | inr other ↦ elim (Bool-cases (i == j)) [
    | inl low ↦ let e : src i ≡ src j = ap src ((==_iff i j).0 low) in ground arith
    | inr outside ↦ ground arith
  ]
]

rep_movsq_lem :
    (n i : ℕ) (src dst : ℕ → ℕ) (j : ℕ)
    → rep_movsq n i src dst j ≡ (if leb i j && ltb j (i + 2 * n) then src j else dst j)
unfolding rep_movsq
rep_movsq_lem zero i src dst j = ground arith
rep_movsq_lem (suc n) i src dst j =
    rep_movsq_lem n (i + 2) src (write (write dst i (src i)) (i + 1) (src (i + 1))) j
    ∙ rw (moved_pair i src dst j) (ground arith)

abbrev pub pixels : Vbe → ℕ
pixels v = v.fb_h * v.fb_pitch_pixels

-- On a screen of fewer than 2 ^ 62 cells, what `vbe_clear` leaves in each cell of the back buffer:
-- the colour in every cell of the screen, except that in a screen of an odd number of cells, above
-- one, the last keeps its value; nothing behind the screen changes.
pub vbe_clear_lem :
    (color : ℕ) (v : Vbe) (i : ℕ)
    → pixels v < 2 ^ 62
    → (vbe_clear color v).backbuffer i ≡ (
        if ltb i (2 * (pixels v / 2)) || ltb i (pixels v) && pixels v == 1
        then color
        else v.backbuffer i)
unfolding vbe_clear
vbe_clear_lem color v i small =
    let total : total_bytes v ≡ pixels v * 4 = omega arith in
    ground (arith, total, rep_stosq_lem (total_bytes v / 8) 0 color v.backbuffer i)

-- On a screen of fewer than 2 ^ 62 cells, what `vbe_swap_buffers` leaves in each cell of the linear
-- frame buffer: the back buffer's value in every cell of the screen, except that in a screen of an
-- odd number of cells, above one, the last keeps its value; nothing behind the screen changes.
pub vbe_swap_buffers_lem :
    (v : Vbe) (i : ℕ)
    → pixels v < 2 ^ 62
    → (vbe_swap_buffers v).lfb i ≡ (
        if ltb i (2 * (pixels v / 2)) || ltb i (pixels v) && pixels v == 1
        then v.backbuffer i
        else v.lfb i)
unfolding vbe_swap_buffers
vbe_swap_buffers_lem v i small =
    let total : total_bytes v ≡ pixels v * 4 = omega arith in
    ground (arith, total, rep_movsq_lem (total_bytes v / 8) 0 v.backbuffer v.lfb i)
