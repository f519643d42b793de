-- ===== src/Kernel/Served.antt =====
-- An interrupt between two calls of the main loop keeps what the loop keeps.
use quetzal_os.Base.{
  ℕ, ◌≡◌, ◌≢◌, refl, sym, ap, ◌∙◌, List, [], ◌∷◌, ◌++◌, append_assoc, append-nil, Option, some,
  arith, u8,
}
use quetzal_os.Keyboard.{Keyboard}
use quetzal_os.Keyboard.Ring.{contents}
use quetzal_os.Keyboard.Refine.{keyboard_handler-Handled}
use quetzal_os.Kernel.{Kernel}
use quetzal_os.Kernel.Irq.{Irq, timer, key, mouse_byte, serve, IsLive, serve-IsLive}
use quetzal_os.Kernel.Steps.{
  Phase, top, clear, draw_widgets, baseline, test_key, get_key, handle_key, overlay, pointer, swap,
  halt, halted, MainLoop, wake, interrupt,
}
use quetzal_os.Kernel.Logged.{Logged, arrives, held, act_logged, IsInv, Waits}

-- The next state, and the invariant there.
pub record Continues (s : Kernel) (r : Option Logged) : Type 0 where
  pub after : Logged
  pub returns : r ≡ some after
  pub inv : IsInv s after

grown : (xs ys : List ℕ) → xs ≢ [] → xs ++ ys ≢ []
grown [] ys some_left = absurd (some_left refl)
grown (x ∷ xs) ys some_left = λ e. cc (e)

held-wake : (p : Phase) → held (wake p) ≡ held p
held-wake halted = refl
held-wake top = refl
held-wake (clear ticks) = refl
held-wake (draw_widgets ticks) = refl
held-wake baseline = refl
held-wake test_key = refl
held-wake get_key = refl
held-wake (handle_key ch) = refl
held-wake overlay = refl
held-wake pointer = refl
held-wake swap = refl
held-wake halt = refl

Waits-wake :
    (p : Phase) (k k' : Keyboard) (xs : List ℕ)
    → contents k' ≡ contents k ++ xs
    → Waits p k
    → Waits (wake p) k'
Waits-wake get_key k k' xs e w = λ empty. grown (contents k) xs w (sym e ∙ empty)
Waits-wake halted k k' xs e w = tt
Waits-wake top k k' xs e w = tt
Waits-wake (clear ticks) k k' xs e w = tt
Waits-wake (draw_widgets ticks) k k' xs e w = tt
Waits-wake baseline k k' xs e w = tt
Waits-wake test_key k k' xs e w = tt
Waits-wake (handle_key ch) k k' xs e w = tt
Waits-wake overlay k k' xs e w = tt
Waits-wake pointer k k' xs e w = tt
Waits-wake swap k k' xs e w = tt
Waits-wake halt k k' xs e w = tt

-- What an interrupt does to the ring.
serve-contents :
    (x : Irq) (m : MainLoop)
    → IsLive m.kernel
    → contents (serve x m.kernel).kbd ≡ contents m.kernel.kbd ++ arrives (interrupt x) m
serve-contents timer m live = sym (append-nil _)
serve-contents (mouse_byte data_byte) m live = sym (append-nil _)
serve-contents (key data_byte) m live =
    (keyboard_handler-Handled (u8 data_byte) m.kernel.kbd live.running.ring (omega arith)).queue

serve-env : (x : Irq) (s : Kernel) → (serve x s).env.console ≡ s.env.console
serve-env timer s = refl
serve-env (key data_byte) s = refl
serve-env (mouse_byte data_byte) s = refl

serve-screen : (x : Irq) (s : Kernel) → (serve x s).env.screen ≡ s.env.screen
serve-screen timer s = refl
serve-screen (key data_byte) s = refl
serve-screen (mouse_byte data_byte) s = refl

module _ (font : ℕ → List ℕ) (s : Kernel) where
  pub interrupt-Continues :
      (x : Irq) (l : Logged) → IsInv s l → Continues s (act_logged font (interrupt x) l)
  interrupt-Continues x l i =
      let k = l.machine.kernel.kbd in
      let k' = (serve x l.machine.kernel).kbd in
      let xs = arrives (interrupt x) l.machine in
      let ring : contents k' ≡ contents k ++ xs = serve-contents x l.machine i.live in
      record {
        after = _;
        returns = refl;
        inv = record {
          live = serve-IsLive x l.machine.kernel i.live;
          waits = Waits-wake l.machine.phase k k' xs ring i.waits;
          fifo =
              rw (held-wake l.machine.phase, ring, append-nil)
                (sym (append_assoc (contents s.kbd) l.arrived xs)
                  ∙ ap (λ t. t ++ xs) i.fifo
                  ∙ append_assoc l.handled (held l.machine.phase ++ contents k) xs
                  ∙ ap (λ t. l.handled ++ t) (append_assoc (held l.machine.phase) (contents k) xs));
          typed_is = rw (serve-env x l.machine.kernel, append-nil) i.typed_is;
          bounded = rw (serve-screen x l.machine.kernel) i.bounded;
        };
      }
