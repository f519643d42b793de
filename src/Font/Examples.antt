-- ===== src/Font/Examples.antt =====
-- Single glyphs.
use quetzal_os.Base.{◌≡◌, refl, [], ◌∷◌}
use quetzal_os.Font.{font8x8}
use quetzal_os.Vbe.{Vbe}

-- The rows of ( bend to the right, as those of a closing parenthesis do.
left_parenthesis :
    font8x8 b'('
    ≡ 0b0001_1000 ∷ 0b0000_1100 ∷ 0b0000_0110 ∷ 0b0000_0110 ∷ 0b0000_0110 ∷ 0b0000_1100
      ∷ 0b0001_1000 ∷ 0 ∷ []
unfolding font8x8
left_parenthesis = refl

right_parenthesis :
    font8x8 b')'
    ≡ 0b0000_0110 ∷ 0b0000_1100 ∷ 0b0001_1000 ∷ 0b0001_1000 ∷ 0b0001_1000 ∷ 0b0000_1100
      ∷ 0b0000_0110 ∷ 0 ∷ []
unfolding font8x8
right_parenthesis = refl

abbrev strip : Vbe
strip = record { fb_w = 24; fb_h = 8; fb_pitch_pixels = 24; backbuffer = λ i. 0; lfb = λ i. 0 }
