-- ===== src/Font.antt =====
-- kernel/graphics/font8x8.c: the glyphs. A glyph is eight rows of eight pixels, of which the highest
-- bit is the left one; a code with no entry has no pixel.
pub mod Text
mod Examples
use quetzal_os.Base.{
  ℕ, List, [], ◌∷◌, ◌≡◌, ◌<◌, ◌&&◌, ◌||◌, Bool, true, false, not, replicate, length, ltb, ◌==◌,
  if◌then◌else◌, refl, all_below, all_below_sound,
}

-- The initialisers of the table, each with its index.
unfoldable pub font8x8_basic : List (ℕ × List ℕ)
font8x8_basic =
    (0x20, 0x00 ∷ 0x00 ∷ 0x00 ∷ 0x00 ∷ 0x00 ∷ 0x00 ∷ 0x00 ∷ 0x00 ∷ [])
    ∷ (0x21, 0x18 ∷ 0x18 ∷ 0x18 ∷ 0x18 ∷ 0x18 ∷ 0x00 ∷ 0x18 ∷ 0x00 ∷ [])
    ∷ (0x22, 0x36 ∷ 0x36 ∷ 0x00 ∷ 0x00 ∷ 0x00 ∷ 0x00 ∷ 0x00 ∷ 0x00 ∷ [])
    ∷ (0x23, 0x36 ∷ 0x36 ∷ 0x7f ∷ 0x36 ∷ 0x7f ∷ 0x36 ∷ 0x36 ∷ 0x00 ∷ [])
    ∷ (0x24, 0x0c ∷ 0x3e ∷ 0x03 ∷ 0x1e ∷ 0x30 ∷ 0x1f ∷ 0x0c ∷ 0x00 ∷ [])
    ∷ (0x25, 0x00 ∷ 0x63 ∷ 0x33 ∷ 0x18 ∷ 0x0c ∷ 0x66 ∷ 0x63 ∷ 0x00 ∷ [])
    ∷ (0x26, 0x1c ∷ 0x36 ∷ 0x1c ∷ 0x6e ∷ 0x3b ∷ 0x33 ∷ 0x6e ∷ 0x00 ∷ [])
    ∷ (0x27, 0x06 ∷ 0x06 ∷ 0x03 ∷ 0x00 ∷ 0x00 ∷ 0x00 ∷ 0x00 ∷ 0x00 ∷ [])
    ∷ (0x28, 0x18 ∷ 0x0c ∷ 0x06 ∷ 0x06 ∷ 0x06 ∷ 0x0c ∷ 0x18 ∷ 0x00 ∷ [])
    ∷ (0x29, 0x06 ∷ 0x0c ∷ 0x18 ∷ 0x18 ∷ 0x18 ∷ 0x0c ∷ 0x06 ∷ 0x00 ∷ [])
    ∷ (0x2a, 0x00 ∷ 0x66 ∷ 0x3c ∷ 0xff ∷ 0x3c ∷ 0x66 ∷ 0x00 ∷ 0x00 ∷ [])
    ∷ (0x2b, 0x00 ∷ 0x0c ∷ 0x0c ∷ 0x7f ∷ 0x0c ∷ 0x0c ∷ 0x00 ∷ 0x00 ∷ [])
    ∷ (0x2c, 0x00 ∷ 0x00 ∷ 0x00 ∷ 0x00 ∷ 0x00 ∷ 0x0c ∷ 0x06 ∷ 0x00 ∷ [])
    ∷ (0x2d, 0x00 ∷ 0x00 ∷ 0x00 ∷ 0x7e ∷ 0x00 ∷ 0x00 ∷ 0x00 ∷ 0x00 ∷ [])
    ∷ (0x2e, 0x00 ∷ 0x00 ∷ 0x00 ∷ 0x00 ∷ 0x00 ∷ 0x0c ∷ 0x0c ∷ 0x00 ∷ [])
    ∷ (0x2f, 0x00 ∷ 0x03 ∷ 0x06 ∷ 0x0c ∷ 0x18 ∷ 0x30 ∷ 0x60 ∷ 0x00 ∷ [])
    ∷ (0x30, 0x3c ∷ 0x66 ∷ 0x6e ∷ 0x76 ∷ 0x66 ∷ 0x66 ∷ 0x3c ∷ 0x00 ∷ [])
    ∷ (0x31, 0x18 ∷ 0x18 ∷ 0x38 ∷ 0x18 ∷ 0x18 ∷ 0x18 ∷ 0x7e ∷ 0x00 ∷ [])
    ∷ (0x32, 0x3c ∷ 0x66 ∷ 0x06 ∷ 0x0c ∷ 0x18 ∷ 0x30 ∷ 0x7e ∷ 0x00 ∷ [])
    ∷ (0x33, 0x3c ∷ 0x66 ∷ 0x06 ∷ 0x1c ∷ 0x06 ∷ 0x66 ∷ 0x3c ∷ 0x00 ∷ [])
    ∷ (0x34, 0x06 ∷ 0x0e ∷ 0x1e ∷ 0x36 ∷ 0x66 ∷ 0x7f ∷ 0x06 ∷ 0x00 ∷ [])
    ∷ (0x35, 0x7e ∷ 0x60 ∷ 0x7c ∷ 0x06 ∷ 0x06 ∷ 0x66 ∷ 0x3c ∷ 0x00 ∷ [])
    ∷ (0x36, 0x3c ∷ 0x66 ∷ 0x60 ∷ 0x7c ∷ 0x66 ∷ 0x66 ∷ 0x3c ∷ 0x00 ∷ [])
    ∷ (0x37, 0x7e ∷ 0x66 ∷ 0x0c ∷ 0x18 ∷ 0x18 ∷ 0x18 ∷ 0x18 ∷ 0x00 ∷ [])
    ∷ (0x38, 0x3c ∷ 0x66 ∷ 0x66 ∷ 0x3c ∷ 0x66 ∷ 0x66 ∷ 0x3c ∷ 0x00 ∷ [])
    ∷ (0x39, 0x3c ∷ 0x66 ∷ 0x66 ∷ 0x3e ∷ 0x06 ∷ 0x66 ∷ 0x3c ∷ 0x00 ∷ [])
    ∷ (0x3a, 0x00 ∷ 0x18 ∷ 0x18 ∷ 0x00 ∷ 0x18 ∷ 0x18 ∷ 0x00 ∷ 0x00 ∷ [])
    ∷ (0x3b, 0x00 ∷ 0x18 ∷ 0x18 ∷ 0x00 ∷ 0x18 ∷ 0x18 ∷ 0x30 ∷ 0x00 ∷ [])
    ∷ (0x3c, 0x0e ∷ 0x18 ∷ 0x30 ∷ 0x60 ∷ 0x30 ∷ 0x18 ∷ 0x0e ∷ 0x00 ∷ [])
    ∷ (0x3d, 0x00 ∷ 0x00 ∷ 0x7e ∷ 0x00 ∷ 0x7e ∷ 0x00 ∷ 0x00 ∷ 0x00 ∷ [])
    ∷ (0x3e, 0x70 ∷ 0x18 ∷ 0x0c ∷ 0x06 ∷ 0x0c ∷ 0x18 ∷ 0x70 ∷ 0x00 ∷ [])
    ∷ (0x3f, 0x3c ∷ 0x66 ∷ 0x06 ∷ 0x0c ∷ 0x18 ∷ 0x00 ∷ 0x18 ∷ 0x00 ∷ [])
    ∷ (0x40, 0x3c ∷ 0x66 ∷ 0x6e ∷ 0x6e ∷ 0x60 ∷ 0x62 ∷ 0x3c ∷ 0x00 ∷ [])
    ∷ (0x41, 0x18 ∷ 0x3c ∷ 0x66 ∷ 0x66 ∷ 0x7e ∷ 0x66 ∷ 0x66 ∷ 0x00 ∷ [])
    ∷ (0x42, 0x7c ∷ 0x66 ∷ 0x66 ∷ 0x7c ∷ 0x66 ∷ 0x66 ∷ 0x7c ∷ 0x00 ∷ [])
    ∷ (0x43, 0x3c ∷ 0x66 ∷ 0x60 ∷ 0x60 ∷ 0x60 ∷ 0x66 ∷ 0x3c ∷ 0x00 ∷ [])
    ∷ (0x44, 0x78 ∷ 0x6c ∷ 0x66 ∷ 0x66 ∷ 0x66 ∷ 0x6c ∷ 0x78 ∷ 0x00 ∷ [])
    ∷ (0x45, 0x7e ∷ 0x60 ∷ 0x60 ∷ 0x7c ∷ 0x60 ∷ 0x60 ∷ 0x7e ∷ 0x00 ∷ [])
    ∷ (0x46, 0x7e ∷ 0x60 ∷ 0x60 ∷ 0x7c ∷ 0x60 ∷ 0x60 ∷ 0x60 ∷ 0x00 ∷ [])
    ∷ (0x47, 0x3c ∷ 0x66 ∷ 0x60 ∷ 0x6e ∷ 0x66 ∷ 0x66 ∷ 0x3e ∷ 0x00 ∷ [])
    ∷ (0x48, 0x66 ∷ 0x66 ∷ 0x66 ∷ 0x7e ∷ 0x66 ∷ 0x66 ∷ 0x66 ∷ 0x00 ∷ [])
    ∷ (0x49, 0x3c ∷ 0x18 ∷ 0x18 ∷ 0x18 ∷ 0x18 ∷ 0x18 ∷ 0x3c ∷ 0x00 ∷ [])
    ∷ (0x4a, 0x1e ∷ 0x0c ∷ 0x0c ∷ 0x0c ∷ 0x0c ∷ 0x6c ∷ 0x38 ∷ 0x00 ∷ [])
    ∷ (0x4b, 0x66 ∷ 0x6c ∷ 0x78 ∷ 0x70 ∷ 0x78 ∷ 0x6c ∷ 0x66 ∷ 0x00 ∷ [])
    ∷ (0x4c, 0x60 ∷ 0x60 ∷ 0x60 ∷ 0x60 ∷ 0x60 ∷ 0x60 ∷ 0x7e ∷ 0x00 ∷ [])
    ∷ (0x4d, 0x63 ∷ 0x77 ∷ 0x7f ∷ 0x6b ∷ 0x63 ∷ 0x63 ∷ 0x63 ∷ 0x00 ∷ [])
    ∷ (0x4e, 0x66 ∷ 0x76 ∷ 0x7e ∷ 0x7e ∷ 0x6e ∷ 0x66 ∷ 0x66 ∷ 0x00 ∷ [])
    ∷ (0x4f, 0x3c ∷ 0x66 ∷ 0x66 ∷ 0x66 ∷ 0x66 ∷ 0x66 ∷ 0x3c ∷ 0x00 ∷ [])
    ∷ (0x50, 0x7c ∷ 0x66 ∷ 0x66 ∷ 0x7c ∷ 0x60 ∷ 0x60 ∷ 0x60 ∷ 0x00 ∷ [])
    ∷ (0x51, 0x3c ∷ 0x66 ∷ 0x66 ∷ 0x66 ∷ 0x66 ∷ 0x3c ∷ 0x0e ∷ 0x00 ∷ [])
    ∷ (0x52, 0x7c ∷ 0x66 ∷ 0x66 ∷ 0x7c ∷ 0x78 ∷ 0x6c ∷ 0x66 ∷ 0x00 ∷ [])
    ∷ (0x53, 0x3c ∷ 0x66 ∷ 0x60 ∷ 0x3c ∷ 0x06 ∷ 0x66 ∷ 0x3c ∷ 0x00 ∷ [])
    ∷ (0x54, 0x7e ∷ 0x18 ∷ 0x18 ∷ 0x18 ∷ 0x18 ∷ 0x18 ∷ 0x18 ∷ 0x00 ∷ [])
    ∷ (0x55, 0x66 ∷ 0x66 ∷ 0x66 ∷ 0x66 ∷ 0x66 ∷ 0x66 ∷ 0x3c ∷ 0x00 ∷ [])
    ∷ (0x56, 0x66 ∷ 0x66 ∷ 0x66 ∷ 0x66 ∷ 0x66 ∷ 0x3c ∷ 0x18 ∷ 0x00 ∷ [])
    ∷ (0x57, 0x63 ∷ 0x63 ∷ 0x63 ∷ 0x6b ∷ 0x7f ∷ 0x77 ∷ 0x63 ∷ 0x00 ∷ [])
    ∷ (0x58, 0x66 ∷ 0x66 ∷ 0x3c ∷ 0x18 ∷ 0x3c ∷ 0x66 ∷ 0x66 ∷ 0x00 ∷ [])
    ∷ (0x59, 0x66 ∷ 0x66 ∷ 0x66 ∷ 0x3c ∷ 0x18 ∷ 0x18 ∷ 0x18 ∷ 0x00 ∷ [])
    ∷ (0x5a, 0x7e ∷ 0x06 ∷ 0x0c ∷ 0x18 ∷ 0x30 ∷ 0x60 ∷ 0x7e ∷ 0x00 ∷ [])
    ∷ (0x5b, 0x3c ∷ 0x30 ∷ 0x30 ∷ 0x30 ∷ 0x30 ∷ 0x30 ∷ 0x3c ∷ 0x00 ∷ [])
    ∷ (0x5c, 0x00 ∷ 0x60 ∷ 0x30 ∷ 0x18 ∷ 0x0c ∷ 0x06 ∷ 0x03 ∷ 0x00 ∷ [])
    ∷ (0x5d, 0x3c ∷ 0x0c ∷ 0x0c ∷ 0x0c ∷ 0x0c ∷ 0x0c ∷ 0x3c ∷ 0x00 ∷ [])
    ∷ (0x5e, 0x18 ∷ 0x3c ∷ 0x66 ∷ 0x00 ∷ 0x00 ∷ 0x00 ∷ 0x00 ∷ 0x00 ∷ [])
    ∷ (0x5f, 0x00 ∷ 0x00 ∷ 0x00 ∷ 0x00 ∷ 0x00 ∷ 0x00 ∷ 0x00 ∷ 0xff ∷ [])
    ∷ (0x60, 0x30 ∷ 0x18 ∷ 0x0c ∷ 0x00 ∷ 0x00 ∷ 0x00 ∷ 0x00 ∷ 0x00 ∷ [])
    ∷ (0x61, 0x00 ∷ 0x00 ∷ 0x3c ∷ 0x06 ∷ 0x3e ∷ 0x66 ∷ 0x3e ∷ 0x00 ∷ [])
    ∷ (0x62, 0x60 ∷ 0x60 ∷ 0x7c ∷ 0x66 ∷ 0x66 ∷ 0x66 ∷ 0x7c ∷ 0x00 ∷ [])
    ∷ (0x63, 0x00 ∷ 0x00 ∷ 0x3c ∷ 0x60 ∷ 0x60 ∷ 0x66 ∷ 0x3c ∷ 0x00 ∷ [])
    ∷ (0x64, 0x06 ∷ 0x06 ∷ 0x3e ∷ 0x66 ∷ 0x66 ∷ 0x66 ∷ 0x3e ∷ 0x00 ∷ [])
    ∷ (0x65, 0x00 ∷ 0x00 ∷ 0x3c ∷ 0x66 ∷ 0x7e ∷ 0x60 ∷ 0x3c ∷ 0x00 ∷ [])
    ∷ (0x66, 0x1c ∷ 0x30 ∷ 0x30 ∷ 0x7c ∷ 0x30 ∷ 0x30 ∷ 0x30 ∷ 0x00 ∷ [])
    ∷ (0x67, 0x00 ∷ 0x00 ∷ 0x3e ∷ 0x66 ∷ 0x66 ∷ 0x3e ∷ 0x06 ∷ 0x3c ∷ [])
    ∷ (0x68, 0x60 ∷ 0x60 ∷ 0x7c ∷ 0x66 ∷ 0x66 ∷ 0x66 ∷ 0x66 ∷ 0x00 ∷ [])
    ∷ (0x69, 0x18 ∷ 0x00 ∷ 0x38 ∷ 0x18 ∷ 0x18 ∷ 0x18 ∷ 0x3c ∷ 0x00 ∷ [])
    ∷ (0x6a, 0x06 ∷ 0x00 ∷ 0x0e ∷ 0x06 ∷ 0x06 ∷ 0x06 ∷ 0x66 ∷ 0x3c ∷ [])
    ∷ (0x6b, 0x60 ∷ 0x60 ∷ 0x66 ∷ 0x6c ∷ 0x78 ∷ 0x6c ∷ 0x66 ∷ 0x00 ∷ [])
    ∷ (0x6c, 0x38 ∷ 0x18 ∷ 0x18 ∷ 0x18 ∷ 0x18 ∷ 0x18 ∷ 0x3c ∷ 0x00 ∷ [])
    ∷ (0x6d, 0x00 ∷ 0x00 ∷ 0x66 ∷ 0x7f ∷ 0x7f ∷ 0x6b ∷ 0x63 ∷ 0x00 ∷ [])
    ∷ (0x6e, 0x00 ∷ 0x00 ∷ 0x7c ∷ 0x66 ∷ 0x66 ∷ 0x66 ∷ 0x66 ∷ 0x00 ∷ [])
    ∷ (0x6f, 0x00 ∷ 0x00 ∷ 0x3c ∷ 0x66 ∷ 0x66 ∷ 0x66 ∷ 0x3c ∷ 0x00 ∷ [])
    ∷ (0x70, 0x00 ∷ 0x00 ∷ 0x7c ∷ 0x66 ∷ 0x66 ∷ 0x7c ∷ 0x60 ∷ 0x60 ∷ [])
    ∷ (0x71, 0x00 ∷ 0x00 ∷ 0x3e ∷ 0x66 ∷ 0x66 ∷ 0x3e ∷ 0x06 ∷ 0x06 ∷ [])
    ∷ (0x72, 0x00 ∷ 0x00 ∷ 0x7c ∷ 0x66 ∷ 0x60 ∷ 0x60 ∷ 0x60 ∷ 0x00 ∷ [])
    ∷ (0x73, 0x00 ∷ 0x00 ∷ 0x3e ∷ 0x60 ∷ 0x3c ∷ 0x06 ∷ 0x7c ∷ 0x00 ∷ [])
    ∷ (0x74, 0x18 ∷ 0x18 ∷ 0x7e ∷ 0x18 ∷ 0x18 ∷ 0x18 ∷ 0x0e ∷ 0x00 ∷ [])
    ∷ (0x75, 0x00 ∷ 0x00 ∷ 0x66 ∷ 0x66 ∷ 0x66 ∷ 0x66 ∷ 0x3e ∷ 0x00 ∷ [])
    ∷ (0x76, 0x00 ∷ 0x00 ∷ 0x66 ∷ 0x66 ∷ 0x66 ∷ 0x3c ∷ 0x18 ∷ 0x00 ∷ [])
    ∷ (0x77, 0x00 ∷ 0x00 ∷ 0x63 ∷ 0x6b ∷ 0x7f ∷ 0x7f ∷ 0x36 ∷ 0x00 ∷ [])
    ∷ (0x78, 0x00 ∷ 0x00 ∷ 0x66 ∷ 0x3c ∷ 0x18 ∷ 0x3c ∷ 0x66 ∷ 0x00 ∷ [])
    ∷ (0x79, 0x00 ∷ 0x00 ∷ 0x66 ∷ 0x66 ∷ 0x66 ∷ 0x3e ∷ 0x06 ∷ 0x3c ∷ [])
    ∷ (0x7a, 0x00 ∷ 0x00 ∷ 0x7e ∷ 0x0c ∷ 0x18 ∷ 0x30 ∷ 0x7e ∷ 0x00 ∷ [])
    ∷ (0x7b, 0x0e ∷ 0x18 ∷ 0x18 ∷ 0x70 ∷ 0x18 ∷ 0x18 ∷ 0x0e ∷ 0x00 ∷ [])
    ∷ (0x7c, 0x18 ∷ 0x18 ∷ 0x18 ∷ 0x00 ∷ 0x18 ∷ 0x18 ∷ 0x18 ∷ 0x00 ∷ [])
    ∷ (0x7d, 0x70 ∷ 0x18 ∷ 0x18 ∷ 0x0e ∷ 0x18 ∷ 0x18 ∷ 0x70 ∷ 0x00 ∷ [])
    ∷ (0x7e, 0x76 ∷ 0xdc ∷ 0x00 ∷ 0x00 ∷ 0x00 ∷ 0x00 ∷ 0x00 ∷ 0x00 ∷ [])
    ∷ []

abbrev pub glyph_in : List (ℕ × List ℕ) → ℕ → List ℕ
glyph_in [] c = replicate 8 0
glyph_in ((i, rows) ∷ rest) c = if i == c then rows else glyph_in rest c

-- `font8x8_basic[c]`
unfoldable pub font8x8 : ℕ → List ℕ
unfolding font8x8_basic
font8x8 c = glyph_in font8x8_basic c

abbrev are_bytes : List ℕ → Bool
are_bytes [] = true
are_bytes (b ∷ bs) = ltb b 256 && are_bytes bs

abbrev has_pixel : List ℕ → Bool
has_pixel [] = false
has_pixel (b ∷ bs) = not (b == 0) || has_pixel bs

abbrev is_glyph : ℕ → Bool
is_glyph c =
    let rows = font8x8 c in
    (length rows == 8 && are_bytes rows) && (not (ltb 32 c && ltb c 127) || has_pixel rows)

all_glyphs : all_below 128 is_glyph ≡ true
unfolding all_below font8x8
all_glyphs = refl

-- Each of the 128 glyphs has eight rows of a byte, and those of the printable characters behind the
-- space have a pixel.
pub font8x8-glyph : (c : ℕ) → c < 128 → is_glyph c ≡ true
font8x8-glyph c small = all_below_sound 128 is_glyph c all_glyphs small
