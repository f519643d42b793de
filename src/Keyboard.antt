-- ===== src/Keyboard.antt =====
-- kernel/drivers/ps2_keyboard.c: scan codes to characters, through a ring of 256 bytes. The handler
-- runs in the interrupt and moves the head only; `keyboard_getchar` runs in the main loop and moves
-- the tail only. The byte read from port 0x60 is an argument of the handler.
pub mod Ring
pub mod Refine
pub mod Interleave
mod Examples
use quetzal_os.Base.{
  ℕ, ◌+◌, ◌%◌, Bool, true, false, not, ◌&&◌, ◌||◌, List, [], ◌∷◌, ◌++◌, codes, get_or, set, ltb,
  ◌==◌, if◌then◌else◌, byte_test, replicate,
}
use quetzal_os.Io.{PortWrite, outb, eoi_master}

abbrev pub kbd_buffer_size : ℕ
kbd_buffer_size = 256

-- The tables of 128 entries; what is not written out here is 0.
abbrev pub scancode_ascii_unshifted : List ℕ
scancode_ascii_unshifted =
    0
    ∷ 27
    ∷ (codes "1234567890-="
        ++ (8
            ∷ 9
            ∷ (codes "qwertyuiop[]"
                ++ (10
                    ∷ 0
                    ∷ (codes "asdfghjkl;'`"
                        ++ (0 ∷ (codes "\\zxcvbnm,./" ++ (0 ∷ b'*' ∷ 0 ∷ b' ' ∷ []))))))))

abbrev pub scancode_ascii_shifted : List ℕ
scancode_ascii_shifted =
    0
    ∷ 27
    ∷ (codes "!@#$%^&*()_+"
        ++ (8
            ∷ 9
            ∷ (codes "QWERTYUIOP{}"
                ++ (10
                    ∷ 0
                    ∷ (codes "ASDFGHJKL:\"~"
                        ++ (0 ∷ (codes "|ZXCVBNM<>?" ++ (0 ∷ b'*' ∷ 0 ∷ b' ' ∷ []))))))))

pub record Keyboard : Type 0 where
  pub kbd_buffer : List ℕ
  pub kbd_head : ℕ
  pub kbd_tail : ℕ
  pub is_e0 : Bool
  pub shift_pressed : Bool

-- `keyboard_init`; the buffer keeps its bytes.
unfoldable pub keyboard_init : Keyboard → Keyboard
keyboard_init k = record k { kbd_head = 0; kbd_tail = 0; is_e0 = false; shift_pressed = false }

-- `if (ch) { ... }` at the end of both paths: the character is dropped where the ring is full.
pub enqueue : ℕ → Keyboard → Keyboard
enqueue ch k =
    let next = (k.kbd_head + 1) % kbd_buffer_size in
    if ch == 0
    then k
    else if next == k.kbd_tail
    then k
    else record k { kbd_buffer = set k.kbd_buffer k.kbd_head ch; kbd_head = next }

-- The arrow keys, behind the prefix 0xE0.
pub arrow_char : ℕ → ℕ
arrow_char scancode =
    if scancode == 0x48
    then b'^'
    else if scancode == 0x50
    then b'v'
    else if scancode == 0x4b
    then b'<'
    else if scancode == 0x4d
    then b'>'
    else 0

-- `shift_pressed ? shifted[scancode] : unshifted[scancode]`
pub table_char : Bool → ℕ → ℕ
table_char shifted scancode =
    if shifted
    then get_or scancode_ascii_shifted scancode 0
    else get_or scancode_ascii_unshifted scancode 0

unfoldable pub keyboard_handler : ℕ → Keyboard → Keyboard × List PortWrite
keyboard_handler scancode k =
    if scancode == 0xe0
    then (record k { is_e0 = true }, eoi_master ∷ [])
    else if k.is_e0
    then (
      if not (byte_test scancode 7)
          then enqueue (arrow_char scancode) (record k { is_e0 = false })
          else record k { is_e0 = false },
      eoi_master ∷ [],
    )
    else (
      if scancode == 0x2a || scancode == 0x36
          then record k { shift_pressed = true }
          else if scancode == 0xaa || scancode == 0xb6
          then record k { shift_pressed = false }
          else if not (byte_test scancode 7)
          then (if ltb scancode 128 then enqueue (table_char k.shift_pressed scancode) k else k)
          else k,
      eoi_master ∷ [],
    )

pub keyboard_has_char : Keyboard → Bool
keyboard_has_char k = not (k.kbd_head == k.kbd_tail)

pub keyboard_getchar : Keyboard → ℕ × Keyboard
keyboard_getchar k = if k.kbd_head == k.kbd_tail then (0, k) else (
  get_or k.kbd_buffer k.kbd_tail 0,
  record k { kbd_tail = (k.kbd_tail + 1) % kbd_buffer_size },
)
