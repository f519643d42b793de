-- ===== src/Mouse/Examples.antt =====
-- A packet at the right edge of the screen.
use quetzal_os.Base.{[], ◌≡◌, refl, true, byte_test, arith}
use quetzal_os.Vbe.{Vbe}
use quetzal_os.Vbe.Keeps.{IsScreen}
use quetzal_os.Mouse.Init.{Sends, handshake, handshake-Sends}
use quetzal_os.Mouse.{Mouse}
use quetzal_os.Mouse.Packet.{IsValid, packet, Moved, packet-Moved}

abbrev mouse : Mouse
mouse = record {
  mouse_x = 790;
  mouse_y = 5;
  mouse_buttons = 0;
  mouse_cycle = 0;
  byte0 = 0;
  byte1 = 0;
  byte2 = 0;
}

mouse-IsValid : IsValid 800 600 mouse
mouse-IsValid = record {
  on_x = omega arith;
  on_y = omega arith;
  cycle = omega arith;
  bytes = omega arith;
}

begins : byte_test 9 3 ≡ true
unfolding byte_test
begins = refl

packet-Moved_example : Moved 9 20 250 800 600 mouse (packet 9 20 250 800 600 mouse)
packet-Moved_example =
    packet-Moved 9 20 250 800 600 mouse mouse-IsValid refl begins (omega arith) (omega arith)
      (omega arith) (omega arith)

abbrev screen : Vbe
screen = record { fb_w = 800; fb_h = 600; fb_pitch_pixels = 800; backbuffer = λ i. 0; lfb = λ i. 0 }

screen-IsScreen : IsScreen screen
screen-IsScreen = record { wide = omega arith; mapped = omega arith; tall = omega arith }

-- A controller that never answers.
handshake-Sends_example :
    Sends
      (λ t. 0)
      (λ t. 0xff)
      (record { time = 0; writes = [] })
      (handshake (λ t. 0) (λ t. 0xff) (record { time = 0; writes = [] }))
handshake-Sends_example = handshake-Sends (λ t. 0) (λ t. 0xff) (record { time = 0; writes = [] })
