-- ===== src/Keyboard/Examples.antt =====
-- The keyboard at concrete inputs.
use quetzal_os.Base.{◌≡◌, refl, true, false, [], ◌++◌, byte_test, set, replicate, arith, codes}
use quetzal_os.Keyboard.{Keyboard, enqueue, arrow_char, table_char, keyboard_handler}
use quetzal_os.Keyboard.Ring.{IsValid, contents}
use quetzal_os.Keyboard.Refine.{Handled, keyboard_handler-Handled}
use quetzal_os.Keyboard.Interleave.{
  System, idle, has_head, IsInv, here, next, irq, load_head, Reach-IsInv, added,
}

abbrev empty_ring : Keyboard
empty_ring = record {
  kbd_buffer = replicate 256 0;
  kbd_head = 0;
  kbd_tail = 0;
  is_e0 = false;
  shift_pressed = false;
}

-- The last two slots and the first: "aB" with the next character going to slot 0.
abbrev near_end : Keyboard
near_end = record {
  kbd_buffer = set (set (replicate 256 0) 254 b'a') 255 b'B';
  kbd_head = 0;
  kbd_tail = 254;
  is_e0 = false;
  shift_pressed = true;
}

near_end-IsValid : IsValid near_end
near_end-IsValid = omega arith

contents-near_end : contents near_end ≡ codes "aB"
contents-near_end = refl

shifted_c : contents (keyboard_handler 0x2e near_end).0 ≡ codes "aBC"
unfolding keyboard_handler enqueue table_char byte_test
shifted_c = refl

arrow_up : contents (keyboard_handler 0x48 (keyboard_handler 0xe0 empty_ring).0).0 ≡ codes "^"
unfolding keyboard_handler enqueue arrow_char byte_test
arrow_up = refl

keyboard_handler-Handled_example : Handled 0x2e near_end (keyboard_handler 0x2e near_end)
keyboard_handler-Handled_example =
    keyboard_handler-Handled 0x2e near_end near_end-IsValid (omega arith)

abbrev start : System
start = record { kbd = near_end; reader = idle; taken_in = codes "aB"; returned = [] }

-- A key arrives between the load of the head and the load of the tail.
abbrev loaded : System
loaded = record start { reader = has_head 0 }

abbrev interrupted : System
interrupted = record loaded {
  kbd = (keyboard_handler 0x2e near_end).0;
  taken_in = codes "aB" ++ added 0x2e near_end;
}

Reach-IsInv_example : IsInv interrupted
Reach-IsInv_example =
    Reach-IsInv {y = start}
      (next (next here (load_head start refl)) (irq loaded 0x2e (omega arith)))
      (record { valid = near_end-IsValid; fifo = refl; knows = tt })
