-- ===== src/VgaText/Cells.antt =====
-- The cells that clearing and scrolling the text screen write, one by one.
use quetzal_os.Base.{
  ℕ, zero, suc, ◌+◌, ◌-◌, ◌*◌, ◌≤◌, ◌≡◌, refl, sym, ap, ◌∙◌, ◌&&◌, ltb, leb, ◌==◌, if◌then◌else◌,
  arith,
}
use quetzal_os.VgaText.{
  VgaText, put_cell, blank_row, blank_rows, copy_row, copy_rows, vga_entry, vga_text_clear,
  vga_scroll,
}

-- Two runs of cells, one behind the other.
runs_join :
    (lo mid hi i e old : ℕ)
    → lo ≤ mid
    → mid ≤ hi
    → (if leb mid i && ltb i hi then e else if leb lo i && ltb i mid then e else old)
      ≡ (if leb lo i && ltb i hi then e else old)
runs_join lo mid hi i e old h k = ground arith

one_cell :
    (lo i e old : ℕ)
    → (if leb lo i && ltb i (lo + 1) then e else old) ≡ (if lo == i then e else old)
one_cell lo i e old = ground arith

blank_row_lem :
    (n x y lo hi entry : ℕ) (buffer : ℕ → ℕ) (i : ℕ)
    → y * 80 + x ≡ lo
    → lo + n ≡ hi
    → blank_row n x y entry buffer i ≡ (if leb lo i && ltb i hi then entry else buffer i)
unfolding blank_row
blank_row_lem zero x y lo hi entry buffer i at end = ground arith
blank_row_lem (suc n) x y lo hi entry buffer i at end =
    let first = sym (one_cell lo i entry (buffer i)) in
    rw at (
      blank_row_lem n (x + 1) y (lo + 1) hi entry (put_cell lo entry buffer) i (omega arith)
        (omega arith)
      ∙ rw first (runs_join lo (lo + 1) hi i entry (buffer i) (omega arith) (omega arith)))

blank_rows_lem :
    (n y lo hi entry : ℕ) (buffer : ℕ → ℕ) (i : ℕ)
    → y * 80 ≡ lo
    → lo + n * 80 ≡ hi
    → blank_rows n y entry buffer i ≡ (if leb lo i && ltb i hi then entry else buffer i)
unfolding blank_rows
blank_rows_lem zero y lo hi entry buffer i at end = ground arith
blank_rows_lem (suc n) y lo hi entry buffer i at end =
    let first = blank_row_lem 80 0 y lo (lo + 80) entry buffer i (omega arith) refl in
    blank_rows_lem n (y + 1) (lo + 80) hi entry (blank_row 80 0 y entry buffer) i (omega arith)
      (omega arith)
    ∙ rw first (runs_join lo (lo + 80) hi i entry (buffer i) (omega arith) (omega arith))

-- One cell more of a row that is copied from 80 cells on.
copy_step :
    (lo n i b0 b1 moved : ℕ)
    → n ≤ 79
    → (lo ≡ i → moved ≡ b1)
    → (if leb (lo + 1) i && ltb i (lo + 1 + n)
        then (if lo == i + 80 then moved else b1)
        else if lo == i
        then moved
        else b0)
      ≡ (if leb lo i && ltb i (lo + 1 + n) then b1 else b0)
copy_step lo n i b0 b1 moved h e = ground (arith, e)

copy_row_lem :
    (n x y lo : ℕ) (buffer : ℕ → ℕ) (i : ℕ)
    → x + n ≤ 80
    → 1 ≤ y
    → (y - 1) * 80 + x ≡ lo
    → copy_row n x y buffer i ≡ (if leb lo i && ltb i (lo + n) then buffer (i + 80) else buffer i)
unfolding copy_row
copy_row_lem zero x y lo buffer i hx hy at = ground arith
copy_row_lem (suc n) x y lo buffer i hx hy at =
    let from : y * 80 + x ≡ lo + 80 = omega arith in
    let more : lo + suc n ≡ lo + 1 + n = omega arith in
    rw (at, from, more)
      (copy_row_lem n (x + 1) y (lo + 1) (put_cell lo (buffer (lo + 80)) buffer) i (omega arith) hy
          (omega arith)
        ∙ copy_step lo n i (buffer i) (buffer (i + 80)) (buffer (lo + 80)) (omega arith)
            (λ e. ap (λ k. buffer (k + 80)) e))

copy_join :
    (lo hi i b0 b1 b2 : ℕ)
    → lo + 80 ≤ hi
    → (if leb (lo + 80) i && ltb i hi
        then (if leb lo (i + 80) && ltb (i + 80) (lo + 80) then b2 else b1)
        else if leb lo i && ltb i (lo + 80)
        then b1
        else b0)
      ≡ (if leb lo i && ltb i hi then b1 else b0)
copy_join lo hi i b0 b1 b2 h = ground arith

copy_rows_lem :
    (n y lo hi : ℕ) (buffer : ℕ → ℕ) (i : ℕ)
    → 1 ≤ y
    → (y - 1) * 80 ≡ lo
    → lo + n * 80 ≡ hi
    → copy_rows n y buffer i ≡ (if leb lo i && ltb i hi then buffer (i + 80) else buffer i)
unfolding copy_rows
copy_rows_lem zero y lo hi buffer i hy at end = ground arith
copy_rows_lem (suc n) y lo hi buffer i hy at end =
    let here = copy_row_lem 80 0 y lo buffer i (omega arith) hy (omega arith) in
    let below = copy_row_lem 80 0 y lo buffer (i + 80) (omega arith) hy (omega arith) in
    copy_rows_lem n (y + 1) (lo + 80) hi (copy_row 80 0 y buffer) i (omega arith) (omega arith)
      (omega arith)
    ∙ rw (here, below)
        (copy_join lo hi i (buffer i) (buffer (i + 80)) (buffer (i + 80 + 80)) (omega arith))

-- After `vga_text_clear` every one of the 2000 cells of the screen is a space of the colour and every
-- cell behind the screen is as it was.
pub vga_text_clear_lem :
    (color : ℕ) (s : VgaText) (i : ℕ)
    → (vga_text_clear color s).vga_buffer i
      ≡ (if ltb i 2000 then vga_entry b' ' color else s.vga_buffer i)
unfolding vga_text_clear
vga_text_clear_lem color s i =
    blank_rows_lem 25 0 0 2000 (vga_entry b' ' color) s.vga_buffer i refl refl ∙ ground arith

last_row :
    (i e b0 b1 : ℕ)
    → (if leb 1920 i && ltb i 2000 then e else if leb 0 i && ltb i 1920 then b1 else b0)
      ≡ (if ltb i 1920 then b1 else if ltb i 2000 then e else b0)
last_row i e b0 b1 = ground arith

-- After `vga_scroll` each cell of the first 24 rows holds what the cell below it held, those of the
-- last row are spaces of the colour and every cell behind the screen is as it was.
pub vga_scroll_lem :
    (color : ℕ) (s : VgaText) (i : ℕ)
    → (vga_scroll color s).vga_buffer i ≡ (
        if ltb i 1920
        then s.vga_buffer (i + 80)
        else if ltb i 2000
        then vga_entry b' ' color
        else s.vga_buffer i)
unfolding vga_scroll
vga_scroll_lem color s i =
    let blank = vga_entry b' ' color in
    blank_row_lem 80 0 24 1920 2000 blank (copy_rows 24 1 s.vga_buffer) i refl refl
    ∙ rw (copy_rows_lem 24 1 0 1920 s.vga_buffer i (omega arith) refl refl)
        (last_row i blank (s.vga_buffer i) (s.vga_buffer (i + 80)))
