-- ===== src/Kernel/Examples.antt =====
-- The kernel at a small screen, and its boot with no information from the boot loader.
use quetzal_os.Base.{
  ℕ, ◌-◌, ◌^◌, ◌≡◌, refl, true, [], ◌∷◌, ◌++◌, List, some, replicate, set, arith, codes,
}
use quetzal_os.Keyboard.{Keyboard}
use quetzal_os.SymbolTable.{empty_slot}
use quetzal_os.Idt.{gate}
use quetzal_os.Kernel.{Kernel, choose_mode, default_mode, frame}
use quetzal_os.Kernel.Keys.{typed_keys}
use quetzal_os.Kernel.Frame.{IsRunning, Framed, frame-Framed}
use quetzal_os.Kernel.Boot.{
  cold_keyboard, cold_mouse, cold_console, cold_widgets, Hardware, boot_messages,
}
use quetzal_os.Kernel.Irq.{timer, key, mouse_byte, IsLive}
use quetzal_os.Kernel.Steps.{top, Act, go}
use quetzal_os.Kernel.Logged.{act_all_logged}
use quetzal_os.Kernel.Served.{Continues}
use quetzal_os.Kernel.Advance.{at}
use quetzal_os.Kernel.Interleave.{main_loop-Continues}
use quetzal_os.Kernel.Round.{Round, frame-Round}

-- A key that toggles the console is none of the prompt's.
keys_typed : typed_keys (codes "a~b") (codes "x") ≡ codes "xab"
keys_typed = refl

boot_line :
    (boot_messages 800 600).1
    ≡ some (
        codes "[KERNEL] All Subsystems Online. Framebuffer 800x600. Enabling IRQs..."
        ++ 13 ∷ b'\n' ∷ [])
unfolding boot_messages
boot_line = refl

-- A text mode is not taken over.
text_mode :
    choose_mode (
      some (record {
        has_framebuffer = true;
        framebuffer_addr = 0xb8000;
        framebuffer_pitch = 160;
        framebuffer_width = 80;
        framebuffer_height = 25;
        framebuffer_bpp = 16;
        framebuffer_type = 2;
      }))
    ≡ default_mode
unfolding choose_mode
text_mode = refl

-- Two keys wait.
abbrev two_keys : Keyboard
two_keys = record cold_keyboard {
  kbd_buffer = set (set (replicate 256 0) 0 b'h') 1 b'i';
  kbd_head = 2;
}

abbrev kernel : Kernel
kernel = record {
  env = record {
    screen = record { fb_w = 8; fb_h = 4; fb_pitch_pixels = 8; backbuffer = λ i. 0; lfb = λ i. 7 };
    symbols = replicate 32 empty_slot;
    console = cold_console;
    ticks = 12;
  };
  kbd = two_keys;
  mouse = record cold_mouse { mouse_x = 4; mouse_y = 2 };
  widgets = cold_widgets;
}

kernel-IsRunning : IsRunning kernel
kernel-IsRunning = record {
  ready = record {
    screen_ok = omega arith;
    small = omega arith;
    buffers = omega arith;
    lines = record { lines_ok = omega arith; five = refl; count = omega arith };
  };
  prompt = record { size = refl; text = refl; ends = omega arith };
  ring = record { size = refl; head_in = omega arith; tail_in = omega arith };
}

kernel-IsLive : IsLive kernel
kernel-IsLive = record {
  running = kernel-IsRunning;
  cursor = record {
    on_x = omega arith;
    on_y = omega arith;
    cycle = omega arith;
    bytes = omega arith;
  };
}

abbrev block_font : ℕ → List ℕ
block_font c = replicate 8 0xff

frame-Framed_example : Framed block_font kernel (frame block_font kernel)
frame-Framed_example = frame-Framed block_font kernel kernel-IsRunning

-- No card answers the probe, and the mouse's controller is silent.
abbrev hardware : Hardware
hardware = record {
  serial_status = λ t. 0x20;
  patience = 1;
  text_memory = record { vga_buffer = λ i. 0; vga_row = 0; vga_col = 0 };
  memory_map = λ a. record { size = 20; addr = 0; len = 0; kind = 0 };
  inl_data = λ a. 2 ^ 32 - 1;
  back = λ i. 0;
  front = λ i. 0;
  idt_before = record { limit = 0; base = 0; gates = replicate 256 (gate 0 0 0) };
  idt_address = 0x12_0000;
  irq0_stub = 0x10_0400;
  irq1_stub = 0x10_0440;
  irq12_stub = 0x10_0480;
  mouse_status = λ t. 0;
  mouse_data = λ t. 0xfa;
}

-- A key comes while the widgets are drawn, the timer ticks before the ring is looked at.
abbrev busy : List Act
busy =
    go
    ∷ go
    ∷ Act.interrupt (key 0x1e)
    ∷ go
    ∷ go
    ∷ Act.interrupt timer
    ∷ go
    ∷ go
    ∷ go
    ∷ Act.interrupt (mouse_byte 9)
    ∷ go
    ∷ []

main_loop-Continues_example :
    Continues kernel (act_all_logged block_font busy (at top kernel [] []))
main_loop-Continues_example = main_loop-Continues block_font kernel busy kernel-IsLive

frame-Round_example : Round block_font kernel
frame-Round_example = frame-Round block_font kernel kernel-IsRunning
