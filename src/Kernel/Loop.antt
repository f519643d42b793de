-- ===== src/Kernel/Loop.antt =====
-- The main loop with interrupts between its rounds.
use quetzal_os.Base.{◌≡◌, refl, List, [], ◌∷◌, Option, some}
use quetzal_os.Base.{◌>>=◌}
use quetzal_os.Base.{ℕ}
use quetzal_os.Kernel.{Kernel, frame}
use quetzal_os.Kernel.Frame.{frame-Framed}
use quetzal_os.Kernel.Irq.{Irq, serve, IsLive, serve-IsLive}

-- An interrupt, or a round of the main loop.
pub data Event : Type 0 where
  interrupt : Irq → Event
  round : Event

module _ (font : ℕ → List ℕ) where
  abbrev pub happen : Event → Kernel → Option Kernel
  happen (interrupt x) s = some (serve x s)
  happen round s = frame font s

  abbrev pub happen_all : List Event → Kernel → Option Kernel
  happen_all [] s = some s
  happen_all (x ∷ xs) s = happen x s >>= happen_all xs

-- `r` is a state from which the loop goes on.
pub record Goes (r : Option Kernel) : Type 0 where
  pub after : Kernel
  pub returns : r ≡ some after
  pub live : IsLive after

module _ (font : ℕ → List ℕ) where
  happen-Goes : (x : Event) (s : Kernel) → IsLive s → Goes (happen font x s)
  happen-Goes (interrupt x) s live = record {
    after = serve x s;
    returns = refl;
    live = serve-IsLive x s live;
  }
  happen-Goes round s live =
      let f = frame-Framed font s live.running in
      record {
        after = f.after;
        returns = f.returns;
        live = record {
          running = f.running;
          cursor = rw (f.screen.same_w, f.screen.same_h, f.same_mouse) live.cursor;
        };
      }

  -- From a state in which the loop can run and the cursor is on the screen, whatever timer, key and
  -- mouse interrupts, with any bytes, come between rounds of the main loop: every round comes to an
  -- end, and the state behind any such sequence is one from which the loop goes on, with a valid
  -- screen, table, console, prompt and ring and the cursor on the screen.
  pub happen_all-Goes : (xs : List Event) (s : Kernel) → IsLive s → Goes (happen_all font xs s)
  happen_all-Goes [] s live = record { after = s; returns = refl; live = live }
  happen_all-Goes (x ∷ xs) s live =
      let first = happen-Goes x s live in
      let rest = happen_all-Goes xs first.after first.live in
      rw (happen_all, first.returns)
        (record { after = rest.after; returns = rest.returns; live = rest.live })
