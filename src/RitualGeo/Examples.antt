-- ===== src/RitualGeo/Examples.antt =====
-- The shapes of the desktop on a small screen.
use quetzal_os.Base.{◌≡◌, refl}
use quetzal_os.Vbe.{Vbe, vbe_fill_rect, vbe_put_pixel, color_jade}
use quetzal_os.Vbe.Rect.{pixel_at}
use quetzal_os.RitualGeo.{draw_step_pyramid}

abbrev screen : Vbe
screen = record { fb_w = 64; fb_h = 48; fb_pitch_pixels = 64; backbuffer = λ i. 0; lfb = λ i. 0 }

second_step : pixel_at (draw_step_pyramid 20 40 12 2 screen) 20 20 ≡ color_jade
unfolding draw_step_pyramid vbe_fill_rect vbe_put_pixel
second_step = refl
