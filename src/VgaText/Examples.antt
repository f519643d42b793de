-- ===== src/VgaText/Examples.antt =====
-- The text screen at concrete values.
use quetzal_os.Base.{◌≡◌, refl, codes, arith}
use quetzal_os.VgaText.{VgaText, vga_entry, vga_text_init, vga_text_puts}
use quetzal_os.VgaText.Text.{IsReady, Prints, is_plain, vga_text_puts-Prints}

-- The colour of a character from 128 on is lost: white on blue becomes white on white.
sign_of_char : vga_entry 0xc4 0x1f ≡ 0xffc4
unfolding vga_entry
sign_of_char = refl

-- Two columns before the end of the first row.
abbrev edge : VgaText
edge = record { vga_buffer = λ i. 0x0720; vga_row = 0; vga_col = 78 }

abbrev bottom : VgaText
bottom = record edge { vga_row = 24 }

edge-IsReady : IsReady edge
edge-IsReady = record { row = omega arith; col = omega arith }

bottom-IsReady : IsReady bottom
bottom-IsReady = record { row = omega arith; col = omega arith }

wraps : (vga_text_puts (codes "abc") 7 edge).vga_buffer 80 ≡ 0x0763
unfolding vga_text_puts
wraps = refl

scrolls : (vga_text_puts (codes "abc") 7 bottom).vga_buffer 1919 ≡ 0x0762
unfolding vga_text_puts
scrolls = refl

init_blank : (vga_text_init edge).vga_buffer 1999 ≡ 0x0720
unfolding vga_text_init
init_blank = refl

vga_text_puts-Prints_example : Prints (codes "abc") 7 edge (vga_text_puts (codes "abc") 7 edge)
unfolding is_plain
vga_text_puts-Prints_example =
    vga_text_puts-Prints (codes "abc") 7 edge edge-IsReady refl (omega arith)
