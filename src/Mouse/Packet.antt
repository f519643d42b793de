-- ===== src/Mouse/Packet.antt =====
-- The cursor stays on the screen, and what a packet does.
use quetzal_os.Base.{
  ℕ, ◌+◌, ◌-◌, ◌^◌, ◌≤◌, ◌<◌, ◌≡◌, refl, ◌∙◌, true, false, inl, inr, min, bit_and, byte_test, ltb,
  leb, ◌==◌, if◌then◌else◌, Bool-cases, arith, ℤ, pos, pos_part, neg_part, sub_ℕ, ◌+ℤ◌, ◌-ℤ◌,
  int_of,
}
use quetzal_os.Mouse.{Mouse, int8, clamp, mouse_handler}

-- The cursor is on a screen of `sw` times `sh` pixels, and the packet is at one of its three bytes.
pub record IsValid (sw sh : ℕ) (m : Mouse) : Type 0 where
  pub on_x : m.mouse_x < sw
  pub on_y : m.mouse_y < sh
  pub cycle : m.mouse_cycle < 3
  pub bytes : m.byte1 < 256

-- `(int8_t)b` as what it adds and what it takes away.
abbrev pub forward : ℕ → ℕ
forward b = if ltb b 128 then b else 0

abbrev pub back : ℕ → ℕ
back b = if ltb b 128 then 0 else 256 - b

clamp-lt : (a : ℤ) (side : ℕ) → 0 < side → clamp a side < side
unfolding clamp
clamp-lt a side h = ground arith

sub_parts : (a b : ℕ) → a < b → (pos_part (sub_ℕ a b) ≡ 0) × (neg_part (sub_ℕ a b) ≡ b - a)
sub_parts a b h = let less : leb b a ≡ false = ground arith in rw less (refl, omega arith)

int8_parts : (b : ℕ) → b < 256 → (pos_part (int8 b) ≡ forward b) × (neg_part (int8 b) ≡ back b)
int8_parts b h = elim (Bool-cases (ltb b 128)) [
  | inl up ↦ rw up (refl, refl)
  | inr down ↦
      let parts = sub_parts (b + 0) 256 (ground arith) in rw down (parts.0, omega (arith, parts.1))
]

int_of_small : (x : ℕ) → x < 2 ^ 31 → int_of x ≡ pos x
int_of_small x h = let low : ltb x (2 ^ 31) ≡ true = ground arith in rw low refl

-- The clamp of a difference.
clamp_sub :
    (a b side : ℕ)
    → 0 < side
    → side ≤ 2 ^ 31
    → a < 2 ^ 31
    → clamp (sub_ℕ a b) side ≡ min (side - 1) (a - b)
unfolding clamp
clamp_sub a b side hs hb ha = elim (Bool-cases (leb b a)) [
  | inl up ↦ rw up (ground arith)
  | inr down ↦ rw down (ground arith)
]

clamp_plus :
    (x b side : ℕ)
    → x < side
    → side ≤ 2 ^ 30
    → b < 256
    → clamp (int_of x +ℤ int8 b) side ≡ min (side - 1) (x + forward b - back b)
clamp_plus x b side hx hs hb =
    let (up, down) = int8_parts b hb in
    rw (int_of_small x (omega arith), up, down)
      (clamp_sub (x + forward b) (0 + back b) side (omega arith) (omega arith) (ground arith)
        ∙ ground arith)

clamp_minus :
    (y b side : ℕ)
    → y < side
    → side ≤ 2 ^ 30
    → b < 256
    → clamp (int_of y -ℤ int8 b) side ≡ min (side - 1) (y + back b - forward b)
clamp_minus y b side hy hs hb =
    let (up, down) = int8_parts b hb in
    rw (int_of_small y (omega arith), up, down)
      (clamp_sub (y + back b) (0 + forward b) side (omega arith) (omega arith) (ground arith)
        ∙ ground arith)

-- One byte, whatever it is and wherever the packet stands: on a screen that is not empty the cursor
-- stays on the screen and the packet at one of its three bytes.
pub mouse_handler-IsValid :
    (byte sw sh : ℕ) (m : Mouse)
    → byte < 256
    → IsValid sw sh m
    → IsValid sw sh (mouse_handler byte sw sh m).0
unfolding mouse_handler
mouse_handler-IsValid byte sw sh m h v = elim (Bool-cases (m.mouse_cycle == 0)) [
  | inl zero_cycle ↦ elim (Bool-cases (byte_test byte 3)) [
    | inl begins ↦
        rw (zero_cycle, begins)
          (record { on_x = v.on_x; on_y = v.on_y; cycle = omega arith; bytes = v.bytes })
    | inr other ↦ rw (zero_cycle, other) v
  ]
  | inr later ↦ elim (Bool-cases (m.mouse_cycle == 1)) [
    | inl one ↦
        rw (later, one) (record { on_x = v.on_x; on_y = v.on_y; cycle = omega arith; bytes = h })
    | inr last ↦
        let two : (m.mouse_cycle == 2) ≡ true = ground (arith, v.cycle) in
        rw (later, last, two)
          (record {
            on_x = clamp-lt (int_of m.mouse_x +ℤ int8 m.byte1) sw (omega (arith, v.on_x));
            on_y = clamp-lt (int_of m.mouse_y -ℤ int8 byte) sh (omega (arith, v.on_y));
            cycle = omega arith;
            bytes = v.bytes;
          })
  ]
]

-- The three bytes of a packet, one after the other.
abbrev pub packet : ℕ → ℕ → ℕ → ℕ → ℕ → Mouse → Mouse
packet b0 b1 b2 sw sh m =
    (mouse_handler b2 sw sh (mouse_handler b1 sw sh (mouse_handler b0 sw sh m).0).0).0

-- What a packet does to a cursor on the screen.
pub record Moved (b0 b1 b2 sw sh : ℕ) (m r : Mouse) : Type 0 where
  pub x_is : r.mouse_x ≡ min (sw - 1) (m.mouse_x + forward b1 - back b1)
  pub y_is : r.mouse_y ≡ min (sh - 1) (m.mouse_y + back b2 - forward b2)
  pub buttons_are : r.mouse_buttons ≡ bit_and b0 7
  pub waits : r.mouse_cycle ≡ 0

-- A packet of three bytes whose first has bit 3 moves the cursor by the second byte to the right and
-- by the third up, both read as numbers from -128 to 127, no further than to the edges of the screen,
-- which has at most 2 ^ 30 columns and rows; the buttons are the first byte's last three bits, and
-- the next packet is awaited.
pub packet-Moved :
    (b0 b1 b2 sw sh : ℕ) (m : Mouse)
    → IsValid sw sh m
    → m.mouse_cycle ≡ 0
    → byte_test b0 3 ≡ true
    → b1 < 256
    → b2 < 256
    → sw ≤ 2 ^ 30
    → sh ≤ 2 ^ 30
    → Moved b0 b1 b2 sw sh m (packet b0 b1 b2 sw sh m)
unfolding mouse_handler
packet-Moved b0 b1 b2 sw sh m v start begins h1 h2 hw hh =
    rw (start, begins)
      (record {
        x_is = clamp_plus m.mouse_x b1 sw v.on_x hw h1;
        y_is = clamp_minus m.mouse_y b2 sh v.on_y hh h2;
        buttons_are = refl;
        waits = refl;
      })
