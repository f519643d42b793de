-- ===== src/Kernel/Boot.antt =====
-- `kernel_main` of kernel/kernel.c up to the main loop, with no interrupt between `sti` and the loop.
-- What it prints to the serial port is collected in `log`, with the number of reads of the line
-- status before each byte; the other messages to devices are in `ports`. The memory behind the two
-- frame buffers, the configuration space and the ports of the mouse are parameters.
pub mod Ready
use quetzal_os.Base.{
  ℕ, zero, suc, ◌+◌, ◌-◌, ◌*◌, ◌/◌, ◌%◌, ◌^◌, ◌≤◌, ◌<◌, ◌≡◌, ◌≢◌, ◌↔◌, refl, sym, ap, ◌∙◌, fun_ext,
  Bool, true, false, not, ◌&&◌, ◌||◌, ◌⊎◌, inl, inr, List, [], ◌∷◌, ◌++◌, map, Option, none, some,
  append-nil, append_assoc, min, or_nibble, bit_and, bit_or, byte_set, byte_clear, byte_test,
  get_or, set, take, drop, replicate, length, length-append, length-set, length-replicate,
  length-take, length-drop, get_or-set_self, get_or-set_ne, take-append-drop, ltb, leb, ◌==◌,
  if◌then◌else◌, Bool-cases, Option-cases, Bool-ext, ==_iff, ltb_iff, arith, all_below,
  all_below_sound, codes, cstr, copy_str, length-copy_str, cstr-copy_str, length-cstr, cstr-cstr,
  length-take-cstr, u8, u16, u32, u64, sub_u32, ℤ, pos, negsuc, pos_part, neg_part, sub_ℕ, ◌+ℤ◌,
  ◌-ℤ◌, ltb_ℤ, leb_ℤ, eqb_ℤ, int_of, word_of,
}
use mathlib.Core.Option
use quetzal_os.Base.{◌>>=◌}
use quetzal_os.Io.{PortWrite}
use quetzal_os.Serial.{serial_init, kprintf, int}
use quetzal_os.Serial.Line.{transmit}
use quetzal_os.VgaText.{VgaText, vga_text_init}
use quetzal_os.Phys.{Phys, MmapEntry, MmapInfo, phys_init}
use quetzal_os.Idt.{Idt, idt_init}
use quetzal_os.Pit.{pit_init}
use quetzal_os.Keyboard.{Keyboard, keyboard_init}
use quetzal_os.Mouse.{Mouse}
use quetzal_os.Mouse.Init.{Ps2, handshake, mouse_reset}
use quetzal_os.Vbe.{
  Vbe, color_jade, color_obsidian, color_aztec_gold, color_feather_white, color_transparent,
}
use quetzal_os.Vbe.Probe.{VbeConfig, vbe_defaults, vbe_init}
use quetzal_os.SymbolTable.{builtins_init}
use quetzal_os.Console.{Console, console_init}
use quetzal_os.Serpentc.{Env, serpentc_eval}
use quetzal_os.Widget.{
  Widget, Widgets, container, bordered, widget_system_init, widget_create, widget_set_style,
}
use quetzal_os.Kernel.{
  WidgetFn, draw_banner_widget, draw_tonalpohualli_widget, draw_ritual_geo_widget, Multiboot, Mode,
  choose_mode, Kernel,
}

-- The static variables of the drivers before `kernel_main`.
abbrev pub cold_keyboard : Keyboard
cold_keyboard = record {
  kbd_buffer = replicate 256 0;
  kbd_head = 0;
  kbd_tail = 0;
  is_e0 = false;
  shift_pressed = false;
}

abbrev pub cold_mouse : Mouse
cold_mouse = record {
  mouse_x = 400;
  mouse_y = 300;
  mouse_buttons = 0;
  mouse_cycle = 0;
  byte0 = 0;
  byte1 = 0;
  byte2 = 0;
}

abbrev pub cold_console : Console
cold_console = record {
  visible = true;
  history = replicate 5 (replicate 64 0);
  history_count = 0;
  prompt_buf = replicate 128 0;
  prompt_len = 0;
}

abbrev pub unused : Widget WidgetFn
unused = record {
  left = 0;
  top = 0;
  wide = 0;
  high = 0;
  title = replicate 80 0;
  bg_color = 0;
  border_color = 0;
  header_color = 0;
  text_color = 0;
  style = container;
  visible = false;
  draw_content = none;
  user_data = 0;
}

abbrev pub cold_widgets : Widgets WidgetFn
cold_widgets = record { widget_pool = replicate 16 unused; widget_count = 0 }

abbrev pub banner_title : List ℕ
banner_title = codes "QUETZAL-OS v0.1 - PRAISE THE FEATHERED SERPENT [RING 0 / SAS 64-BIT]"

-- The three widgets of the desktop on a screen of that width.
unfoldable pub desktop : ℕ → Widgets WidgetFn
desktop width =
    let empty = widget_system_init cold_widgets in
    let (w_banner, s1) =
      widget_create 0 0 width 40 (some banner_title) (some draw_banner_widget) empty in
    let s2 =
      widget_set_style w_banner container color_jade color_jade color_jade color_feather_white s1 in
    let (w_cal, s3) =
      widget_create 16 60 340 90 (some (codes "")) (some draw_tonalpohualli_widget) s2 in
    let s4 =
      widget_set_style w_cal bordered color_obsidian color_aztec_gold color_obsidian
        color_aztec_gold s3 in
    let (w_geo, s5) =
      widget_create 16 100 (sub_u32 width 32) 280 (some (codes "")) (some draw_ritual_geo_widget)
        s4 in
    widget_set_style w_geo container color_transparent color_transparent color_transparent
      color_transparent s5

abbrev pub boot_script : List ℕ
boot_script =
    codes "feather_draw_line(0, 480, 800, 580, COLOR_TURQUOISE); "
    ++ codes "feather_rect(700, 50, 80, 60, COLOR_AZTEC_GOLD);"

-- The two lines that `kernel_main` prints, with the size of the framebuffer.
unfoldable pub boot_messages : ℕ → ℕ → Option (List ℕ) × Option (List ℕ)
unfolding kprintf
boot_messages width height = (
  kprintf (codes "[KERNEL] QuetzalOS v0.1 Long Mode Booting...\n") [],
  kprintf (codes "[KERNEL] All Subsystems Online. Framebuffer %dx%d. Enabling IRQs...\n")
      (int width ∷ int height ∷ []),
)

-- The line that `phys_init` prints at its end.
unfoldable pub phys_message : Phys → Option (List ℕ)
unfolding kprintf
phys_message s = kprintf (codes "[PHYS] Allocator Initialized: Total %d MB, Free %d MB\n") (
    int (u32 (s.total_memory_bytes / (1024 * 1024)))
    ∷ int (u32 (s.free_memory_bytes / (1024 * 1024)))
    ∷ [])

-- All the state behind the boot.
pub record Machine : Type 0 where
  pub vga : VgaText
  pub phys : Phys
  pub config : VbeConfig
  pub idt : Idt
  pub kernel : Kernel
  pub ports : List PortWrite
  pub log : List (ℕ × PortWrite)

-- The calls of `kernel_main` that may not come to an end, in order, over what they are given: the two
-- lines it prints, `phys_init` with the line that it prints, `pit_init` and the first script.
unfoldable pub in_turn :
    (Option (List ℕ) → ℕ → Option (ℕ × List (ℕ × PortWrite)))
    → Option (List ℕ) × Option (List ℕ)
    → Option Phys
    → (Phys → Option (List ℕ))
    → Option (List PortWrite)
    → Option Env
    → (Phys → List PortWrite → Env → List (ℕ × PortWrite) → Machine)
    → Option Machine
in_turn print messages walked message pit script make = do
  booting ← print messages.0 0
  phys ← walked
  report ← print (message phys) booting.0
  pit_writes ← pit
  online ← print messages.1 report.0
  env ← script
  some (make phys pit_writes env (booting.1 ++ (report.1 ++ online.1)))

-- What the machine has before: memory, ports and the places of the stubs.
pub record Hardware : Type 0 where
  pub serial_status : ℕ → ℕ
  pub patience : ℕ
  pub text_memory : VgaText
  pub memory_map : ℕ → MmapEntry
  pub inl_data : ℕ → ℕ
  pub back : ℕ → ℕ
  pub front : ℕ → ℕ
  pub idt_before : Idt
  pub idt_address : ℕ
  pub irq0_stub : ℕ
  pub irq1_stub : ℕ
  pub irq12_stub : ℕ
  pub mouse_status : ℕ → ℕ
  pub mouse_data : ℕ → ℕ

abbrev pub mode_of : Option (MmapInfo × Multiboot) → Mode
mode_of mb = choose_mode (Option.map (λ m. m.1) mb)

module _ (hw : Hardware) where
  -- `vbe_init` on the chosen mode.
  abbrev pub video : Mode → VbeConfig × List PortWrite
  video m = vbe_init hw.inl_data m.fb_addr m.width m.height m.pitch vbe_defaults

  abbrev pub screen_of : VbeConfig → Vbe
  screen_of g = record {
    fb_w = g.fb_w;
    fb_h = g.fb_h;
    fb_pitch_pixels = g.fb_pitch_pixels;
    backbuffer = hw.back;
    lfb = hw.front;
  }

  -- The state before the first script, which draws on the screen.
  abbrev pub first_env : VbeConfig → Env
  first_env g = record {
    screen = screen_of g;
    symbols = builtins_init;
    console = console_init cold_console;
    ticks = 0;
  }

  -- A message goes to the serial port from a time on; `none` means that it is undefined or that the
  -- reads allowed for a byte, `patience`, run out.
  unfoldable pub print_at : Option (List ℕ) → ℕ → Option (ℕ × List (ℕ × PortWrite))
  unfolding transmit
  print_at none t = none
  print_at (some text) t = transmit hw.serial_status hw.patience text t

  -- The state before the main loop, from what the calls of `in_turn` leave.
  unfoldable pub assembled :
      Option (MmapInfo × Multiboot) → Phys → List PortWrite → Env → List (ℕ × PortWrite) → Machine
  unfolding serial_init desktop handshake
  assembled mb phys pit_writes env log =
      let mode = mode_of mb in
      let (g, vbe_writes) = video mode in
      let (table, pic_writes) =
        idt_init hw.idt_address hw.irq0_stub hw.irq1_stub hw.irq12_stub hw.idt_before in
      let mouse_writes =
        (handshake hw.mouse_status hw.mouse_data (record { time = 0; writes = [] })).1.writes in
      record {
        vga = vga_text_init hw.text_memory;
        phys = phys;
        config = g;
        idt = table;
        kernel = record {
          env = env;
          kbd = keyboard_init cold_keyboard;
          mouse = mouse_reset g.fb_w g.fb_h cold_mouse;
          widgets = desktop mode.width;
        };
        ports = serial_init ++ vbe_writes ++ pic_writes ++ pit_writes ++ mouse_writes;
        log = log;
      }

  -- `none` is a part that does not come to an end.
  unfoldable pub kernel_main : Option (MmapInfo × Multiboot) → Option Machine
  unfolding in_turn assembled
  kernel_main mb =
      let mode = mode_of mb in
      let g = (video mode).0 in
      in_turn print_at (boot_messages mode.width mode.height)
        (phys_init hw.memory_map (Option.map (λ m. m.0) mb)) phys_message (pit_init 100)
        (serpentc_eval boot_script (first_env g)) (assembled mb)
