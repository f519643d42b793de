-- ===== src/Kernel/Logged.antt =====
-- The main loop with a record of the characters that came and went, and what it keeps.
use quetzal_os.Base.{
  ℕ, ◌<◌, ◌^◌, ◌≤◌, ◌≡◌, ◌≢◌, refl, ap, ◌∙◌, List, [], ◌∷◌, ◌++◌, Option, some, arith, u8,
}
use quetzal_os.Base.{◌>>=◌}
use quetzal_os.Keyboard.{Keyboard}
use quetzal_os.Keyboard.Ring.{contents, accepted}
use quetzal_os.Keyboard.Refine.{key_char}
use quetzal_os.Console.Prompt.{typed}
use quetzal_os.Vbe.{Vbe}
use quetzal_os.Vbe.Frame.{Draws}
use quetzal_os.Vbe.Clear.{vbe_swap_buffers, pixels, vbe_swap_buffers_lem}
use quetzal_os.Kernel.{Kernel}
use quetzal_os.Kernel.Keys.{typed_keys}
use quetzal_os.Kernel.Frame.{sized-IsReady, swap-backbuffer}
use quetzal_os.Kernel.Irq.{timer, key, mouse_byte, IsLive}
use quetzal_os.Kernel.Steps.{
  Phase, get_key, handle_key, MainLoop, on_screen, Act, interrupt, go, act,
}

-- The machine with two records of the past: the characters that the ring took in, and those that the
-- loop handled.
pub record Logged : Type 0 where
  pub machine : MainLoop
  pub arrived : List ℕ
  pub handled : List ℕ

abbrev pub arrives : Act → MainLoop → List ℕ
arrives (interrupt (key data_byte)) m =
    let k = m.kernel.kbd in accepted (key_char k.is_e0 k.shift_pressed (u8 data_byte)) (contents k)
arrives (interrupt timer) m = []
arrives (interrupt (mouse_byte data_byte)) m = []
arrives go m = []

-- The character that the loop holds.
abbrev pub held : Phase → List ℕ
held (handle_key ch) = ch ∷ []
held _ = []

abbrev pub handles : Act → MainLoop → List ℕ
handles (interrupt x) m = []
handles go m = held m.phase

module _ (font : ℕ → List ℕ) where
  abbrev pub act_logged : Act → Logged → Option Logged
  act_logged x l = act font x l.machine >>= λ m. some (record {
    machine = m;
    arrived = l.arrived ++ arrives x l.machine;
    handled = l.handled ++ handles x l.machine;
  })

  abbrev pub act_all_logged : List Act → Logged → Option Logged
  act_all_logged [] l = some l
  act_all_logged (x ∷ xs) l = act_logged x l >>= act_all_logged xs

-- Neither buffer has changed behind the screen, whose sides are the same.
pub record Bounded (v w : Vbe) : Type 0 where
  pub same_w : w.fb_w ≡ v.fb_w
  pub same_h : w.fb_h ≡ v.fb_h
  pub same_pitch : w.fb_pitch_pixels ≡ v.fb_pitch_pixels
  pub behind : (i : ℕ) → pixels v ≤ i → (w.backbuffer i ≡ v.backbuffer i) × (w.lfb i ≡ v.lfb i)

pub Bounded-refl : (v : Vbe) → Bounded v v
Bounded-refl v = record {
  same_w = refl;
  same_h = refl;
  same_pitch = refl;
  behind = λ i h. (refl, refl);
}

pub Bounded-trans : {u v w : Vbe} → Bounded u v → Bounded v w → Bounded u w
Bounded-trans {u} {v} {w} a b =
    let same : pixels v ≡ pixels u = rw (a.same_h, a.same_pitch) refl in
    record {
      same_w = b.same_w ∙ a.same_w;
      same_h = b.same_h ∙ a.same_h;
      same_pitch = b.same_pitch ∙ a.same_pitch;
      behind = λ i h.
          let first = a.behind i h in
          let second = b.behind i (rw same h) in (second.0 ∙ first.0, second.1 ∙ first.1);
    }

pub Draws-Bounded : {v w : Vbe} → Draws v w → Bounded v w
Draws-Bounded d = record {
  same_w = d.same_w;
  same_h = d.same_h;
  same_pitch = d.same_pitch;
  behind = λ i h. (d.behind i h, ap (λ f. f i) d.same_lfb);
}

pub swap-Bounded : (v : Vbe) → pixels v < 2 ^ 62 → Bounded v (vbe_swap_buffers v)
swap-Bounded v small = record {
  same_w = unfold vbe_swap_buffers in refl;
  same_h = unfold vbe_swap_buffers in refl;
  same_pitch = unfold vbe_swap_buffers in refl;
  behind = λ i h. (swap-backbuffer v i, vbe_swap_buffers_lem v i small ∙ ground arith);
}

pub on_screen-IsLive :
    (f : Vbe → Vbe) (s : Kernel)
    → IsLive s
    → Bounded s.env.screen (f s.env.screen)
    → IsLive (on_screen f s)
on_screen-IsLive f s live b = record {
  running = record {
    ready = sized-IsReady s.env (f s.env.screen) b.same_w b.same_h b.same_pitch live.running.ready;
    prompt = live.running.prompt;
    ring = live.running.ring;
  };
  cursor = rw (b.same_w, b.same_h) live.cursor;
}

-- In the phase before `keyboard_getchar` a character waits.
abbrev pub Waits : Phase → Keyboard → Type 0
Waits get_key k = contents k ≢ []
Waits _ k = Unit {0}

-- What the loop keeps, from a first state `s` on.
pub record IsInv (s : Kernel) (l : Logged) : Type 0 where
  pub live : IsLive l.machine.kernel
  pub waits : Waits l.machine.phase l.machine.kernel.kbd
  pub fifo :
      contents s.kbd ++ l.arrived
      ≡ l.handled ++ (held l.machine.phase ++ contents l.machine.kernel.kbd)
  pub typed_is : typed l.machine.kernel.env.console ≡ typed_keys l.handled (typed s.env.console)
  pub bounded : Bounded s.env.screen l.machine.kernel.env.screen
