-- ===== src/VgaText.antt =====
-- kernel/drivers/vga_text.c: the text screen. The memory at VGA_TEXT_ADDR is a function from the
-- index of a cell, on the screen or behind it, to its 16 bits.
pub mod Cells
pub mod Text
mod Examples
use quetzal_os.Base.{
  ℕ, zero, suc, ◌+◌, ◌-◌, ◌*◌, ◌/◌, ◌%◌, ◌^◌, ◌≤◌, ◌<◌, ◌≡◌, ◌≢◌, ◌↔◌, refl, sym, ap, ◌∙◌, fun_ext,
  Bool, true, false, not, ◌&&◌, ◌||◌, ◌⊎◌, inl, inr, List, [], ◌∷◌, ◌++◌, map, Option, none, some,
  append-nil, append_assoc, min, or_nibble, bit_and, bit_or, byte_set, byte_clear, byte_test,
  get_or, set, take, drop, replicate, length, length-append, length-set, length-replicate,
  length-take, length-drop, get_or-set_self, get_or-set_ne, take-append-drop, ltb, leb, ◌==◌,
  if◌then◌else◌, Bool-cases, Option-cases, Bool-ext, ==_iff, ltb_iff, arith, all_below,
  all_below_sound, codes, cstr, copy_str, length-copy_str, cstr-copy_str, length-cstr, cstr-cstr,
  length-take-cstr, u8, u16, u32, u64, sub_u32, ℤ, pos, negsuc, pos_part, neg_part, sub_ℕ, ◌+ℤ◌,
  ◌-ℤ◌, ltb_ℤ, leb_ℤ, eqb_ℤ, int_of, word_of,
}

abbrev pub vga_width : ℕ
vga_width = 80

abbrev pub vga_height : ℕ
vga_height = 25

abbrev pub vga_color_light_grey : ℕ
vga_color_light_grey = 7

abbrev pub vga_color_black : ℕ
vga_color_black = 0

unfoldable pub vga_entry_color : ℕ → ℕ → ℕ
vga_entry_color fg bg = u8 (bit_or fg (bg * 2 ^ 4))

-- `char` is signed: `(uint16_t)uc` carries the sign of a byte from 128 on.
unfoldable pub vga_entry : ℕ → ℕ → ℕ
vga_entry uc color = bit_or (if ltb uc 128 then uc else 0xff00 + uc) (color * 2 ^ 8)

pub record VgaText : Type 0 where
  pub vga_buffer : ℕ → ℕ
  pub vga_row : ℕ
  pub vga_col : ℕ

-- `buffer[i] = entry`
abbrev pub put_cell : ℕ → ℕ → (ℕ → ℕ) → ℕ → ℕ
put_cell i entry buffer j = if i == j then entry else buffer j

-- Row `y` from column `x` on, with the columns left, gets `entry`.
unfoldable pub blank_row : ℕ → ℕ → ℕ → ℕ → (ℕ → ℕ) → ℕ → ℕ
blank_row zero x y entry buffer = buffer
blank_row (suc n) x y entry buffer =
    blank_row n (x + 1) y entry (put_cell (y * vga_width + x) entry buffer)

unfoldable pub blank_rows : ℕ → ℕ → ℕ → (ℕ → ℕ) → ℕ → ℕ
unfolding blank_row
blank_rows zero y entry buffer = buffer
blank_rows (suc n) y entry buffer =
    blank_rows n (y + 1) entry (blank_row vga_width 0 y entry buffer)

unfoldable pub vga_text_clear : ℕ → VgaText → VgaText
unfolding blank_rows vga_entry
vga_text_clear color s = record s {
  vga_buffer = blank_rows vga_height 0 (vga_entry b' ' color) s.vga_buffer;
  vga_row = 0;
  vga_col = 0;
}

unfoldable pub vga_text_init : VgaText → VgaText
unfolding vga_text_clear vga_entry_color
vga_text_init s = vga_text_clear (vga_entry_color vga_color_light_grey vga_color_black) s

-- The row above `y` takes the cells of row `y`, from column `x` on.
unfoldable pub copy_row : ℕ → ℕ → ℕ → (ℕ → ℕ) → ℕ → ℕ
copy_row zero x y buffer = buffer
copy_row (suc n) x y buffer =
    copy_row n (x + 1) y (put_cell ((y - 1) * vga_width + x) (buffer (y * vga_width + x)) buffer)

unfoldable pub copy_rows : ℕ → ℕ → (ℕ → ℕ) → ℕ → ℕ
unfolding copy_row
copy_rows zero y buffer = buffer
copy_rows (suc n) y buffer = copy_rows n (y + 1) (copy_row vga_width 0 y buffer)

unfoldable pub vga_scroll : ℕ → VgaText → VgaText
unfolding copy_rows blank_row vga_entry
vga_scroll color s =
    let moved = copy_rows (vga_height - 1) 1 s.vga_buffer in
    record s {
      vga_buffer = blank_row vga_width 0 (vga_height - 1) (vga_entry b' ' color) moved;
      vga_row = vga_height - 1;
    }

-- `vga_col = 0; vga_row++;` and the scroll at the bottom.
unfoldable pub next_row : ℕ → VgaText → VgaText
unfolding vga_scroll
next_row color s =
    let down = record s { vga_col = 0; vga_row = s.vga_row + 1 } in
    if leb vga_height (s.vga_row + 1) then vga_scroll color down else down

unfoldable pub vga_text_putc : ℕ → ℕ → VgaText → VgaText
unfolding next_row vga_entry
vga_text_putc c color s =
    let put = record s {
      vga_buffer = put_cell (s.vga_row * vga_width + s.vga_col) (vga_entry c color) s.vga_buffer;
      vga_col = s.vga_col + 1;
    } in
    if c == b'\n'
    then next_row color s
    else if c == 13
    then record s { vga_col = 0 }
    else if leb vga_width (s.vga_col + 1)
    then next_row color put
    else put

unfoldable pub vga_text_puts : List ℕ → ℕ → VgaText → VgaText
unfolding vga_text_putc
vga_text_puts [] color s = s
vga_text_puts (c ∷ cs) color s =
    let rest = vga_text_puts cs color (vga_text_putc c color s) in if c == 0 then s else rest
