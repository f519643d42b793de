-- ===== src/Kernel/Steps.antt =====
-- The main loop of kernel_main in single calls, with interrupts between any two of them.
use quetzal_os.Base.{ℕ, List, [], ◌∷◌, Option, some, if◌then◌else◌}
use quetzal_os.Base.{◌>>=◌}
use quetzal_os.Pit.{pit_get_ticks}
use quetzal_os.Keyboard.{keyboard_has_char, keyboard_getchar}
use quetzal_os.Mouse.Cursor.{mouse_draw_cursor}
use quetzal_os.Vbe.{Vbe, vbe_draw_line, color_obsidian, color_turquoise}
use quetzal_os.Vbe.Clear.{vbe_clear, vbe_swap_buffers}
use quetzal_os.Console.Draw.{console_draw}
use quetzal_os.Widget
use quetzal_os.Kernel.{Kernel, call_widget, take_key}
use quetzal_os.Kernel.Irq.{Irq, serve}

-- What the loop does next, with its local variables: `ticks` in the first phases, and `ch`.
pub data Phase : Type 0 where
  top : Phase
  clear : ℕ → Phase
  draw_widgets : ℕ → Phase
  baseline : Phase
  test_key : Phase
  get_key : Phase
  handle_key : ℕ → Phase
  overlay : Phase
  pointer : Phase
  swap : Phase
  halt : Phase
  halted : Phase

pub record MainLoop : Type 0 where
  pub phase : Phase
  pub kernel : Kernel

abbrev pub on_screen : (Vbe → Vbe) → Kernel → Kernel
on_screen f s = record s { env = record s.env { screen = f s.env.screen } }

module _ (font : ℕ → List ℕ) where
  -- One call of the loop, by what is next; `hlt` waits. `none` means that a script does not end.
  unfoldable pub next_call : Phase → Kernel → Option MainLoop
  next_call top s = some (record { phase = clear (pit_get_ticks s.env.ticks); kernel = s })
  next_call (clear ticks) s =
      some (record { phase = draw_widgets ticks; kernel = on_screen (vbe_clear color_obsidian) s })
  next_call (draw_widgets ticks) s = some (record {
    phase = baseline;
    kernel =
        on_screen (Widget.widget_draw_all font (call_widget font s.env.ticks) ticks s.widgets) s;
  })
  next_call baseline s = some (record {
    phase = test_key;
    kernel = on_screen (vbe_draw_line 0 440 800 455 color_turquoise) s;
  })
  next_call test_key s =
      some (record { phase = if keyboard_has_char s.kbd then get_key else overlay; kernel = s })
  next_call get_key s = some (record {
    phase = handle_key (keyboard_getchar s.kbd).0;
    kernel = record s { kbd = (keyboard_getchar s.kbd).1 };
  })
  next_call (handle_key ch) s =
      take_key ch s.env >>= λ e. some (record { phase = test_key; kernel = record s { env = e } })
  next_call overlay s = some (record {
    phase = pointer;
    kernel = on_screen (console_draw font s.env.ticks s.env.console) s;
  })
  next_call pointer s =
      some (record { phase = swap; kernel = on_screen (mouse_draw_cursor s.mouse) s })
  next_call swap s = some (record { phase = halt; kernel = on_screen vbe_swap_buffers s })
  next_call halt s = some (record { phase = halted; kernel = s })
  next_call halted s = some (record { phase = halted; kernel = s })

-- An interrupt ends the wait of `hlt`.
abbrev pub wake : Phase → Phase
wake halted = top
wake p = p

-- An interrupt, or the next call of the loop.
pub data Act : Type 0 where
  interrupt : Irq → Act
  go : Act

module _ (font : ℕ → List ℕ) where
  abbrev pub act : Act → MainLoop → Option MainLoop
  act (interrupt x) m = some (record { phase = wake m.phase; kernel = serve x m.kernel })
  act go m = next_call font m.phase m.kernel

  abbrev pub act_all : List Act → MainLoop → Option MainLoop
  act_all [] m = some m
  act_all (x ∷ xs) m = act x m >>= act_all xs
