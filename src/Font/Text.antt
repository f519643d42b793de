-- ===== src/Font/Text.antt =====
-- The kernel's text: kernel/drivers/vbe.c with the glyphs of kernel/graphics/font8x8.c.
use quetzal_os.Vbe.{Vbe}
