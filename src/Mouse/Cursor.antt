-- ===== src/Mouse/Cursor.antt =====
-- `mouse_draw_cursor` of kernel/drivers/ps2_mouse.c.
use quetzal_os.Base.{
  ℕ, zero, suc, ◌+◌, ◌-◌, ◌^◌, ◌≤◌, ◌<◌, ◌≡◌, Bool, false, not, ◌&&◌, ◌||◌, List, [], ◌∷◌, length,
  byte_test, ltb, leb, ◌==◌, if◌then◌else◌, arith, u32,
}
use quetzal_os.Vbe.{Vbe, vbe_draw_pixel, color_jade, color_aztec_gold, color_cochineal_red}
use quetzal_os.Vbe.Frame.{Draws-refl, Draws-if, vbe_draw_pixel-Draws}
use quetzal_os.Vbe.Steps.{IsDrawing, then-IsDrawing}
use quetzal_os.Vbe.Keeps.{IsKeeping, Keeps-refl, Keeps-if, then-IsKeeping, vbe_draw_pixel-IsKeeping}
use quetzal_os.Mouse.{Mouse}

abbrev pub cursor_sprite : List ℕ
cursor_sprite =
    0x8000 ∷ 0xc000 ∷ 0xe000 ∷ 0xf000 ∷ 0xf800 ∷ 0xfc00 ∷ 0xfe00 ∷ 0xff00 ∷ 0xff80 ∷ 0xfc00 ∷ 0xde00
    ∷ 0x8e00 ∷ 0x0700 ∷ 0x0300 ∷ []

abbrev pub cursor_color : ℕ → ℕ → ℕ → ℕ
cursor_color row col fg_color =
    if col == 0 || (row == 0 || col == row) then color_aztec_gold else fg_color

unfoldable pub cursor_pixel : ℕ → ℕ → ℕ → ℕ → ℕ → ℕ → Vbe → Vbe
cursor_pixel bits row col cx cy fg_color v =
    if byte_test bits (15 - col)
    then vbe_draw_pixel (u32 (cx + col)) (u32 (cy + row)) (cursor_color row col fg_color) v
    else v

-- The columns of a row from `col` on, with the number of them left.
unfoldable pub cursor_row : ℕ → ℕ → ℕ → ℕ → ℕ → ℕ → ℕ → Vbe → Vbe
unfolding cursor_pixel
cursor_row zero col bits row cx cy fg_color v = v
cursor_row (suc n) col bits row cx cy fg_color v =
    cursor_row n (col + 1) bits row cx cy fg_color (cursor_pixel bits row col cx cy fg_color v)

unfoldable pub cursor_rows : List ℕ → ℕ → ℕ → ℕ → ℕ → Vbe → Vbe
unfolding cursor_row
cursor_rows [] row cx cy fg_color v = v
cursor_rows (bits ∷ rows) row cx cy fg_color v =
    cursor_rows rows (row + 1) cx cy fg_color (cursor_row 10 0 bits row cx cy fg_color v)

unfoldable pub mouse_draw_cursor : Mouse → Vbe → Vbe
unfolding cursor_rows
mouse_draw_cursor m v =
    let fg_color = if byte_test m.mouse_buttons 0 then color_cochineal_red else color_jade in
    cursor_rows cursor_sprite 0 m.mouse_x m.mouse_y fg_color v

-- The pixels around the 10 columns and 14 rows of the cursor.
abbrev pub around_cursor : ℕ → ℕ → ℕ → ℕ → Bool
around_cursor cx cy px py = not ((leb cx px && ltb px (cx + 10)) && (leb cy py && ltb py (cy + 14)))

inside_cursor :
    (cx cy row col : ℕ)
    → row < 14
    → col < 10
    → cx + 10 < 2 ^ 32
    → cy + 14 < 2 ^ 32
    → around_cursor cx cy (u32 (cx + col)) (u32 (cy + row)) ≡ false
inside_cursor cx cy row col hr hc hx hy =
    let x : u32 (cx + col) ≡ cx + col = omega arith in
    let y : u32 (cy + row) ≡ cy + row = omega arith in rw (x, y) (ground arith)

module _ (cx cy fg_color : ℕ) where
  cursor_pixel-IsDrawing : (bits row col : ℕ) → IsDrawing (cursor_pixel bits row col cx cy fg_color)
  unfolding cursor_pixel
  cursor_pixel-IsDrawing bits row col v ok =
      Draws-if (byte_test bits (15 - col))
        (vbe_draw_pixel-Draws (u32 (cx + col)) (u32 (cy + row)) (cursor_color row col fg_color) v
          ok)
        (Draws-refl v)

  cursor_row-IsDrawing : (n col bits row : ℕ) → IsDrawing (cursor_row n col bits row cx cy fg_color)
  unfolding cursor_row
  cursor_row-IsDrawing zero col bits row v ok = Draws-refl v
  cursor_row-IsDrawing (suc n) col bits row v ok =
      then-IsDrawing (cursor_pixel bits row col cx cy fg_color)
        (cursor_row n (col + 1) bits row cx cy fg_color) (cursor_pixel-IsDrawing bits row col)
        (cursor_row-IsDrawing n (col + 1) bits row) v ok

  cursor_rows-IsDrawing :
      (rows : List ℕ) (row : ℕ) → IsDrawing (cursor_rows rows row cx cy fg_color)
  unfolding cursor_rows
  cursor_rows-IsDrawing [] row v ok = Draws-refl v
  cursor_rows-IsDrawing (bits ∷ rows) row v ok =
      then-IsDrawing (cursor_row 10 0 bits row cx cy fg_color)
        (cursor_rows rows (row + 1) cx cy fg_color) (cursor_row-IsDrawing 10 0 bits row)
        (cursor_rows-IsDrawing rows (row + 1)) v ok

  module _ (hx : cx + 10 < 2 ^ 32) (hy : cy + 14 < 2 ^ 32) where
    cursor_pixel-IsKeeping :
        (bits row col : ℕ)
        → row < 14
        → col < 10
        → IsKeeping (around_cursor cx cy) (cursor_pixel bits row col cx cy fg_color)
    unfolding cursor_pixel
    cursor_pixel-IsKeeping bits row col hr hc v s =
        Keeps-if (around_cursor cx cy) (byte_test bits (15 - col))
          (λ on.
            vbe_draw_pixel-IsKeeping (around_cursor cx cy) (u32 (cx + col)) (u32 (cy + row))
              (cursor_color row col fg_color) (inside_cursor cx cy row col hr hc hx hy) v s)
          (λ off. Keeps-refl (around_cursor cx cy) v)

    cursor_row-IsKeeping :
        (n col bits row : ℕ)
        → row < 14
        → col + n ≤ 10
        → IsKeeping (around_cursor cx cy) (cursor_row n col bits row cx cy fg_color)
    unfolding cursor_row
    cursor_row-IsKeeping zero col bits row hr hc v s = Keeps-refl (around_cursor cx cy) v
    cursor_row-IsKeeping (suc n) col bits row hr hc v s =
        then-IsKeeping (around_cursor cx cy) (cursor_pixel bits row col cx cy fg_color)
          (cursor_row n (col + 1) bits row cx cy fg_color)
          (cursor_pixel-IsKeeping bits row col hr (omega arith))
          (cursor_row-IsKeeping n (col + 1) bits row hr (omega arith)) v s

    cursor_rows-IsKeeping :
        (rows : List ℕ) (row : ℕ)
        → row + length rows ≤ 14
        → IsKeeping (around_cursor cx cy) (cursor_rows rows row cx cy fg_color)
    unfolding cursor_rows
    cursor_rows-IsKeeping [] row hr v s = Keeps-refl (around_cursor cx cy) v
    cursor_rows-IsKeeping (bits ∷ rows) row hr v s =
        then-IsKeeping (around_cursor cx cy) (cursor_row 10 0 bits row cx cy fg_color)
          (cursor_rows rows (row + 1) cx cy fg_color)
          (cursor_row-IsKeeping 10 0 bits row (omega arith) (omega arith))
          (cursor_rows-IsKeeping rows (row + 1) (omega arith)) v s

pub mouse_draw_cursor-IsDrawing : (m : Mouse) → IsDrawing (mouse_draw_cursor m)
unfolding mouse_draw_cursor
mouse_draw_cursor-IsDrawing m v ok =
    cursor_rows-IsDrawing m.mouse_x m.mouse_y _ cursor_sprite 0 v ok

-- On a screen whose lines fit the lines of the buffer and whose cells and lines 32 bits can count,
-- with the cursor's box within 32 bits, `mouse_draw_cursor` writes no pixel outside the box of 10
-- columns and 14 rows at the mouse's position, and no cell behind the screen.
pub mouse_draw_cursor-IsKeeping :
    (m : Mouse)
    → m.mouse_x + 10 < 2 ^ 32
    → m.mouse_y + 14 < 2 ^ 32
    → IsKeeping (around_cursor m.mouse_x m.mouse_y) (mouse_draw_cursor m)
unfolding mouse_draw_cursor
mouse_draw_cursor-IsKeeping m hx hy v s =
    cursor_rows-IsKeeping m.mouse_x m.mouse_y _ hx hy cursor_sprite 0 (omega arith) v s
