-- ===== src/Kernel/Irq.antt =====
-- The interrupt handlers on the state of the main loop.
use quetzal_os.Base.{ℕ, arith, u8}
use quetzal_os.Pit.{pit_handler}
use quetzal_os.Keyboard.{keyboard_handler}
use quetzal_os.Keyboard.Refine.{keyboard_handler-Handled}
use quetzal_os.Mouse.{mouse_handler}
use quetzal_os.Mouse.Packet
use quetzal_os.Mouse.Packet.{mouse_handler-IsValid}
use quetzal_os.Kernel.{Kernel}
use quetzal_os.Kernel.Frame.{IsRunning}

-- A timer interrupt, and the interrupts of a key and of the mouse, with what the port returns.
pub data Irq : Type 0 where
  timer : Irq
  key : ℕ → Irq
  mouse_byte : ℕ → Irq

abbrev pub serve : Irq → Kernel → Kernel
serve timer s = record s { env = record s.env { ticks = (pit_handler s.env.ticks).0 } }
serve (key data_byte) s = record s { kbd = (keyboard_handler (u8 data_byte) s.kbd).0 }
serve (mouse_byte data_byte) s = record s {
  mouse = (mouse_handler (u8 data_byte) s.env.screen.fb_w s.env.screen.fb_h s.mouse).0;
}

-- The main loop can run and the cursor is on the screen.
pub record IsLive (s : Kernel) : Type 0 where
  pub running : IsRunning s
  pub cursor : Packet.IsValid s.env.screen.fb_w s.env.screen.fb_h s.mouse

pub serve-IsLive : (x : Irq) (s : Kernel) → IsLive s → IsLive (serve x s)
unfolding pit_handler
serve-IsLive timer s live = record {
  running = record {
    ready = record {
      screen_ok = live.running.ready.screen_ok;
      small = live.running.ready.small;
      buffers = live.running.ready.buffers;
      lines = live.running.ready.lines;
    };
    prompt = live.running.prompt;
    ring = live.running.ring;
  };
  cursor = live.cursor;
}
serve-IsLive (key data_byte) s live =
    let h = keyboard_handler-Handled (u8 data_byte) s.kbd live.running.ring (omega arith) in
    record {
      running = record { ready = live.running.ready; prompt = live.running.prompt; ring = h.valid };
      cursor = live.cursor;
    }
serve-IsLive (mouse_byte data_byte) s live = record {
  running = record {
    ready = live.running.ready;
    prompt = live.running.prompt;
    ring = live.running.ring;
  };
  cursor =
      mouse_handler-IsValid (u8 data_byte) s.env.screen.fb_w s.env.screen.fb_h s.mouse (omega arith)
        live.cursor;
}
