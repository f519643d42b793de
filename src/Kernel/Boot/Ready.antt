-- ===== src/Kernel/Boot/Ready.antt =====
-- The boot comes to an end in a state from which the main loop runs.
use quetzal_os.Base.{ℕ, ◌*◌, ◌/◌, ◌^◌, ◌≤◌, ◌<◌, ◌≡◌, [], map, Option, some, set, replicate}
use mathlib.Core.Option
use quetzal_os.Phys.{Phys}
use quetzal_os.Idt.Gates.{Routes, gate_at}
use quetzal_os.Keyboard.Ring
use quetzal_os.Keyboard.Ring.{contents}
use quetzal_os.Mouse.Packet
use quetzal_os.Vbe.Probe.Setup.{Configured}
use quetzal_os.Console.{Console}
use quetzal_os.Widget.Pool
use quetzal_os.Widget.Pool.{PoolCall}
use quetzal_os.Kernel.{Mode}
use quetzal_os.Kernel.Frame.{IsRunning}
use quetzal_os.Kernel.Boot.{cold_console, Machine, Hardware, video, boot_messages, phys_message}
use quetzal_os.Base.{List, ◌++◌}
use quetzal_os.Io.{PortWrite, outb}
use quetzal_os.Serial.{com1_port}
use quetzal_os.Serial.Line.{AreTimed}

abbrev no_lines : Console
no_lines = record cold_console {
  prompt_buf = set (replicate 128 0) 0 0;
  history = map (λ l. set l 0 0) cold_console.history;
}

-- What the boot needs of the chosen mode: sides that are not 0, four bytes at least for each pixel of
-- a line, and a screen that memory can hold.
pub record IsUsable (m : Mode) : Type 0 where
  pub width_set : 0 < m.width
  pub height_set : 0 < m.height
  pub wide : 4 * m.width ≤ m.pitch
  pub small : m.height * (m.pitch / 4) < 2 ^ 62

-- A message that is defined, and its bytes.
record Text (r : Option (List ℕ)) : Type 0 where
  bytes : List ℕ
  is : r ≡ some bytes

module _ (hw : Hardware) where
  -- What the boot leaves.
  pub record Booted (phys : Phys) (m : Mode) (r : Option Machine) : Type 0 where
    pub after : Machine
    pub returns : r ≡ some after
    pub memory : after.phys ≡ phys
    pub booting : List ℕ
    pub report : List ℕ
    pub online : List ℕ
    pub booting_is : (boot_messages m.width m.height).0 ≡ some booting
    pub report_is : phys_message phys ≡ some report
    pub online_is : (boot_messages m.width m.height).1 ≡ some online
    pub in_order :
        map (λ (w : ℕ × PortWrite). w.1) after.log
        ≡ map (outb com1_port) (booting ++ (report ++ online))
    pub timed : AreTimed hw.serial_status hw.patience 0 after.log
    pub video :
        Configured hw.inl_data m.fb_addr m.width m.height m.pitch (after.config, (video hw m).1)
    pub running : IsRunning after.kernel
    pub no_keys : contents after.kernel.kbd ≡ []
    pub mouse : Packet.IsValid m.width m.height after.kernel.mouse
    pub widgets : Pool.IsValid after.kernel.widgets
    pub gates :
        (j : ℕ) → j < 256 → Routes hw.irq0_stub hw.irq1_stub hw.irq12_stub j (gate_at after.idt j)
