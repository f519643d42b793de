-- ===== src/Vbe/Examples.antt =====
-- Screens of a few pixels.
use quetzal_os.Base.{
  ℕ, ◌+◌, ◌*◌, ◌/◌, ◌≡◌, refl, ◌&&◌, ◌||◌, ◌⊎◌, List, [], ◌∷◌, map, some, replicate, ltb, leb, ◌==◌,
  if◌then◌else◌, arith, codes, pos, negsuc,
}
use quetzal_os.Vbe.Probe.{
  search, probe_function, pci_find_vga_lfb, qos_default_lfb_phys, vbe_defaults, vbe_init,
}
use quetzal_os.Vbe.Probe.Bars.{pci_find_vga_lfb-cases}
use quetzal_os.Vbe.Probe.Source.{IsFrame, Found, NoneFound}
use quetzal_os.Vbe.Probe.Setup.{Configured, vbe_init-Configured}
use quetzal_os.Vbe.{
  Vbe, vbe_fill_rect, vbe_put_pixel, vbe_draw_pixel, line_loop, vbe_draw_line, hline_ordered,
  vbe_draw_hline,
}
use quetzal_os.Vbe.Clear.{vbe_clear, vbe_swap_buffers, pixels, vbe_clear_lem, vbe_swap_buffers_lem}
use quetzal_os.Vbe.Frame.{Draws}
use quetzal_os.Vbe.Sequence.{rect, line, disc, string, draw_all, draw_all-Draws}
use quetzal_os.Vbe.Rect.{pixel_at, vbe_fill_rect_lem}
use quetzal_os.Vbe.Keeps.{IsScreen}
use quetzal_os.Vbe.Line.{is_painted, vbe_draw_line_lem}
use quetzal_os.Vbe.Shapes.{circle_loop, circle_points, vbe_draw_circle}
use quetzal_os.Vbe.Circle.{Painted, vbe_draw_circle-Painted}
use quetzal_os.Base.{◌%◌, true, false}

-- Three pixels on three lines, in lines of three: an odd number.
abbrev odd_screen : Vbe
odd_screen = record { fb_w = 3; fb_h = 3; fb_pitch_pixels = 3; backbuffer = λ i. i; lfb = λ i. 0 }

-- Four pixels on three lines, in lines of five.
abbrev screen : Vbe
screen = record { fb_w = 4; fb_h = 3; fb_pitch_pixels = 5; backbuffer = λ i. 0; lfb = λ i. 0 }

abbrev no_font : ℕ → List ℕ
no_font c = replicate 8 0x81

-- The line from the corner (0, 0) to (3, 2).
diagonal :
    map (vbe_draw_line 0 0 3 2 1 screen).backbuffer (0 ∷ 1 ∷ 6 ∷ 7 ∷ 12 ∷ 13 ∷ [])
    ≡ 1 ∷ 0 ∷ 1 ∷ 1 ∷ 0 ∷ 1 ∷ []
unfolding vbe_draw_line line_loop vbe_draw_pixel vbe_put_pixel
diagonal = refl

-- A line that begins left of the screen is not drawn.
left_end : (vbe_draw_hline (negsuc 0) (pos 2) (pos 0) 1 screen).backbuffer 1 ≡ 0
unfolding vbe_draw_hline hline_ordered
left_end = refl

-- The last pixel of an odd screen keeps its value.
last_pixel : (vbe_clear 0xff odd_screen).backbuffer 8 ≡ 8
last_pixel = vbe_clear_lem 0xff odd_screen 8 (omega arith)

vbe_swap_buffers_lem_example : (vbe_swap_buffers odd_screen).lfb 7 ≡ (
    if ltb 7 (2 * (pixels odd_screen / 2)) || ltb 7 (pixels odd_screen) && pixels odd_screen == 1
    then 7
    else 0)
vbe_swap_buffers_lem_example = vbe_swap_buffers_lem odd_screen 7 (omega arith)

draw_all-Draws_example : Draws screen (
    draw_all no_font
      (rect 1 1 9 9 5 ∷ line 0 0 3 2 7 ∷ disc 2 1 4 9 ∷ string 0 0 (codes "ab") 1 2 ∷ [])
      screen)
draw_all-Draws_example =
    draw_all-Draws no_font
      (rect 1 1 9 9 5 ∷ line 0 0 3 2 7 ∷ disc 2 1 4 9 ∷ string 0 0 (codes "ab") 1 2 ∷ []) screen
      (omega arith)

vbe_fill_rect_lem_example : (vbe_fill_rect 1 1 0xffff_ffff 1 7 screen).backbuffer (1 * 5 + 3) ≡ (
    if (leb 1 3 && ltb 3 (1 + 0xffff_ffff)) && (leb 1 1 && ltb 1 (1 + 1))
    then 7
    else pixel_at screen 3 1)
vbe_fill_rect_lem_example =
    vbe_fill_rect_lem 1 1 0xffff_ffff 1 7 screen 3 1 (omega arith) (omega arith) (omega arith)
      (omega arith) (omega arith) (omega arith) (omega arith)

-- A display at bus 0, device 2, function 0, with its frame at 0xe0000000; nothing else answers.
abbrev one_card : ℕ → ℕ
one_card address =
    if address == 0x8000_1000
    then 0x1111_1234
    else if address == 0x8000_1008
    then 0x0300_0000
    else if address == 0x8000_1010
    then 0xe000_0008
    else 0xffff_ffff

finds_card : search 3 0 (λ dev. probe_function one_card 0 dev 0) ≡ some 0xe000_0000
unfolding search probe_function
finds_card = refl

pci_find_vga_lfb-cases_example :
    IsFrame (pci_find_vga_lfb one_card)
    × (Found one_card (pci_find_vga_lfb one_card)
        ⊎ ((pci_find_vga_lfb one_card ≡ qos_default_lfb_phys) × NoneFound one_card))
pci_find_vga_lfb-cases_example = pci_find_vga_lfb-cases one_card

vbe_init-Configured_example :
    Configured one_card 0 1024 768 4096 (vbe_init one_card 0 1024 768 4096 vbe_defaults)
vbe_init-Configured_example =
    vbe_init-Configured one_card 0 1024 768 4096 vbe_defaults refl (omega arith) (omega arith)
      (omega arith)

screen-IsScreen : IsScreen screen
screen-IsScreen = record { wide = omega arith; mapped = omega arith; tall = omega arith }

-- The pixel at column 2 of row 1 is on the line from (0, 0) to (3, 2).
vbe_draw_line_lem_example :
    (vbe_draw_line 0 0 3 2 1 screen).backbuffer 7 ≡ (if is_painted 0 0 3 2 2 1 then 1 else 0)
vbe_draw_line_lem_example =
    vbe_draw_line_lem 0 0 3 2 1 screen 2 1 screen-IsScreen (omega arith) (omega arith) (omega arith)
      (omega arith)

-- A steep line, drawn upwards from behind the last row.
steep :
    map (λ i. is_painted 1 2 0 0 (i % 4) (i / 4)) (0 ∷ 1 ∷ 4 ∷ 5 ∷ 8 ∷ 9 ∷ [])
    ≡ true ∷ false ∷ false ∷ true ∷ false ∷ true ∷ []
steep = refl

vbe_draw_circle-Painted_example : Painted 2 1 2 9 screen (vbe_draw_circle 2 1 2 9 screen)
vbe_draw_circle-Painted_example =
    vbe_draw_circle-Painted 2 1 2 9 screen screen-IsScreen (omega arith) (omega arith) (omega arith)
      (omega arith) (omega arith) (omega arith) (omega arith) (omega arith)

-- The circle of radius 10 around (0, 0) takes column 9 of row 3, although column 10 is nearer to it.
abbrev wide_screen : Vbe
wide_screen = record {
  fb_w = 16;
  fb_h = 16;
  fb_pitch_pixels = 16;
  backbuffer = λ i. 0;
  lfb = λ i. 0;
}

early : map (vbe_draw_circle 0 0 10 7 wide_screen).backbuffer (57 ∷ 58 ∷ []) ≡ 7 ∷ 0 ∷ []
unfolding vbe_draw_circle circle_loop circle_points vbe_draw_pixel vbe_put_pixel
early = refl
