-- ===== src/Kernel/Interleave.antt =====
-- The main loop with interrupts between any two of its calls.
use quetzal_os.Base.{ℕ, refl, List, [], ◌∷◌, append-nil}
use quetzal_os.Keyboard.Ring.{contents}
use quetzal_os.Kernel.{Kernel}
use quetzal_os.Kernel.Irq.{IsLive}
use quetzal_os.Kernel.Steps.{top, Act, interrupt, go}
use quetzal_os.Kernel.Logged.{Logged, act_logged, act_all_logged, Bounded-refl, IsInv}
use quetzal_os.Kernel.Served.{Continues, interrupt-Continues}
use quetzal_os.Kernel.Advance.{at, next_call-Continues}

module _ (font : ℕ → List ℕ) (s : Kernel) where
  act-Continues : (x : Act) (l : Logged) → IsInv s l → Continues s (act_logged font x l)
  act-Continues (interrupt x) l i = interrupt-Continues font s x l i
  act-Continues go l i =
      next_call-Continues font s l.machine.phase l.machine.kernel l.arrived l.handled i

  act_all-Continues :
      (xs : List Act) (l : Logged) → IsInv s l → Continues s (act_all_logged font xs l)
  act_all-Continues [] l i = record { after = l; returns = refl; inv = i }
  act_all-Continues (x ∷ xs) l i =
      let first = act-Continues x l i in
      let rest = act_all-Continues xs first.after first.inv in
      rw (act_all_logged, first.returns)
        (record { after = rest.after; returns = rest.returns; inv = rest.inv })

  -- From a state in which the main loop can run and the cursor is on the screen, however the calls of
  -- the loop and the timer, key and mouse interrupts, with any bytes, follow one another: no call
  -- fails to return; the characters that waited and those that the ring then took in are, in order,
  -- those that the loop handled, the one that it holds and those that wait, and the prompt is what
  -- the handled ones make of it; the loop can run on, the cursor is on the screen, the screen has its
  -- sides and no cell of either buffer behind it has changed.
  pub main_loop-Continues :
      (xs : List Act) → IsLive s → Continues s (act_all_logged font xs (at top s [] []))
  main_loop-Continues xs live = act_all-Continues xs (at top s [] []) (record {
    live = live;
    waits = tt;
    fifo = append-nil (contents s.kbd);
    typed_is = refl;
    bounded = Bounded-refl s.env.screen;
  })
