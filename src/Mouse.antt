-- ===== src/Mouse.antt =====
-- kernel/drivers/ps2_mouse.c: the packets of three bytes and the cursor. The byte that inb(0x60)
-- reads and the sides of the screen are arguments.
pub mod Packet
pub mod Init
pub mod Cursor
mod Examples
use mathlib.Core.Option
use mathlib.Core.Option.{Option}
use quetzal_os.Base.{
  ℕ, zero, suc, ◌+◌, ◌-◌, ◌*◌, ◌/◌, ◌%◌, ◌^◌, ◌≤◌, ◌<◌, ◌≡◌, ◌≢◌, ◌↔◌, refl, sym, ap, ◌∙◌, fun_ext,
  Bool, true, false, not, ◌&&◌, ◌||◌, ◌⊎◌, inl, inr, List, [], ◌∷◌, ◌++◌, map, Option, none, some,
  append-nil, append_assoc, min, or_nibble, bit_and, bit_or, byte_set, byte_clear, byte_test,
  get_or, set, take, drop, replicate, length, length-append, length-set, length-replicate,
  length-take, length-drop, get_or-set_self, get_or-set_ne, take-append-drop, ltb, leb, ◌==◌,
  if◌then◌else◌, Bool-cases, Option-cases, Bool-ext, ==_iff, ltb_iff, arith, all_below,
  all_below_sound, codes, cstr, copy_str, length-copy_str, cstr-copy_str, length-cstr, cstr-cstr,
  length-take-cstr, u8, u16, u32, u64, sub_u32, ℤ, pos, negsuc, pos_part, neg_part, sub_ℕ, ◌+ℤ◌,
  ◌-ℤ◌, ltb_ℤ, leb_ℤ, eqb_ℤ, int_of, word_of,
}
use quetzal_os.Io.{PortWrite, eoi_master, eoi_slave}

pub record Mouse : Type 0 where
  pub mouse_x : ℕ
  pub mouse_y : ℕ
  pub mouse_buttons : ℕ
  pub mouse_cycle : ℕ
  pub byte0 : ℕ
  pub byte1 : ℕ
  pub byte2 : ℕ

-- `(int8_t)b` at a byte.
abbrev pub int8 : ℕ → ℤ
int8 b = if ltb b 128 then pos b else pos b -ℤ pos 256

-- `if (a < 0) a = 0; if ((uint32_t)a >= side) a = (side > 0) ? (side - 1) : 0;` and the store of `a`.
unfoldable pub clamp : ℤ → ℕ → ℕ
clamp a side =
    let b = if ltb_ℤ a (pos 0) then pos 0 else a in
    if leb side (word_of b) then (if ltb 0 side then side - 1 else 0) else word_of b

-- The end of a packet: the third byte is `byte`.
unfoldable pub move : ℕ → ℕ → ℕ → Mouse → Mouse
unfolding clamp
move byte sw sh m = record m {
  byte2 = byte;
  mouse_cycle = 0;
  mouse_x = clamp (int_of m.mouse_x +ℤ int8 m.byte1) sw;
  mouse_y = clamp (int_of m.mouse_y -ℤ int8 byte) sh;
  mouse_buttons = bit_and m.byte0 7;
}

unfoldable pub mouse_handler : ℕ → ℕ → ℕ → Mouse → Mouse × List PortWrite
unfolding move
mouse_handler byte sw sh m = (
  if m.mouse_cycle == 0
      then (if byte_test byte 3 then record m { byte0 = byte; mouse_cycle = 1 } else m)
      else if m.mouse_cycle == 1
      then record m { byte1 = byte; mouse_cycle = 2 }
      else if m.mouse_cycle == 2
      then move byte sw sh m
      else record m { mouse_cycle = 0 },
  eoi_slave ∷ eoi_master ∷ [],
)

-- `mouse_get_position`: what stands behind its two pointers, `none` for a null one.
abbrev pub mouse_get_position : Option ℕ → Option ℕ → Mouse → Option ℕ × Option ℕ
mouse_get_position out_x out_y m =
    (Option.map (λ _. m.mouse_x) out_x, Option.map (λ _. m.mouse_y) out_y)

abbrev pub mouse_get_buttons : Mouse → ℕ
mouse_get_buttons m = m.mouse_buttons
