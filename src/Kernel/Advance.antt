-- ===== src/Kernel/Advance.antt =====
-- A call of the main loop keeps what the loop keeps.
use quetzal_os.Base.{
  ℕ, ◌≡◌, refl, sym, ap, ◌∙◌, inl, inr, List, [], ◌∷◌, ◌++◌, append_assoc, append-nil, Bool-cases,
}
use quetzal_os.Keyboard.{keyboard_has_char, keyboard_getchar}
use quetzal_os.Keyboard.Ring.{contents}
use quetzal_os.Keyboard.Refine.{keyboard_getchar_lem, keyboard_has_char_iff}
use quetzal_os.Mouse.Cursor.{mouse_draw_cursor, mouse_draw_cursor-IsDrawing}
use quetzal_os.Console.Draw.{console_draw, console_draw-IsDrawing}
use quetzal_os.Console.Prompt.{typed}
use quetzal_os.Vbe.{Vbe, vbe_draw_line, color_obsidian, color_turquoise}
use quetzal_os.Vbe.Steps.{IsDrawing}
use quetzal_os.Base.{if◌then◌else◌}
use quetzal_os.Vbe.Frame.{vbe_draw_line-Draws}
use quetzal_os.Vbe.Clear.{vbe_clear, vbe_swap_buffers}
use quetzal_os.Widget
use quetzal_os.Widget.Draw.{widget_draw_all-IsDrawing}
use quetzal_os.Serpentc.Effect.{vbe_clear-Draws}
use quetzal_os.Kernel.{Kernel, call_widget, take_key}
use quetzal_os.Kernel.Widgets.{call_widget-IsDrawing}
use quetzal_os.Kernel.Keys.{typed_key, typed_keys, Taken, take_key-Taken}
use quetzal_os.Kernel.Steps.{
  Phase, top, clear, draw_widgets, baseline, test_key, get_key, handle_key, overlay, pointer, swap,
  halt, halted, on_screen, next_call, go,
}
use quetzal_os.Kernel.Logged.{
  Logged, held, act_logged, Bounded, Bounded-refl, Bounded-trans, Draws-Bounded, swap-Bounded,
  on_screen-IsLive, IsInv, Waits,
}
use quetzal_os.Kernel.Served.{Continues}

-- The state in phase `p`.
abbrev pub at : Phase → Kernel → List ℕ → List ℕ → Logged
at p k arrived handled = record {
  machine = record { phase = p; kernel = k };
  arrived = arrived;
  handled = handled;
}

module _ (font : ℕ → List ℕ) (s : Kernel) where
  -- A call that draws, between two phases in which the loop holds no character.
  draws :
      (p q : Phase) (f : Vbe → Vbe) (k : Kernel) (arrived handled : List ℕ)
      → IsInv s (at p k arrived handled)
      → held p ≡ []
      → held q ≡ []
      → Waits q k.kbd
      → Bounded k.env.screen (f k.env.screen)
      → IsInv s (at q (on_screen f k) (arrived ++ []) (handled ++ held p))
  draws p q f k arrived handled i before after waits b = record {
    live = on_screen-IsLive f k i.live b;
    waits = waits;
    fifo = rw (before, after, append-nil arrived, append-nil handled) (rw before at i.fifo);
    typed_is = rw (before, append-nil) i.typed_is;
    bounded = Bounded-trans i.bounded b;
  }

  typed_keys-append :
      (xs ys : List ℕ) (text : List ℕ)
      → typed_keys (xs ++ ys) text ≡ typed_keys ys (typed_keys xs text)
  typed_keys-append [] ys text = refl
  typed_keys-append (x ∷ xs) ys text = typed_keys-append xs ys (typed_key x text)

  reads_key :
      (k : Kernel) (arrived handled : List ℕ)
      → IsInv s (at get_key k arrived handled)
      → IsInv s (
          at
            (handle_key (keyboard_getchar k.kbd).0)
            (record k { kbd = (keyboard_getchar k.kbd).1 })
            (arrived ++ [])
            (handled ++ []))
  reads_key k arrived handled i = elim (keyboard_getchar_lem k.kbd i.live.running.ring) [
    | inl (empty, same) ↦ absurd (i.waits empty)
    | inr (more, ring) ↦ record {
      live = record {
        running = record {
          ready = i.live.running.ready;
          prompt = i.live.running.prompt;
          ring = ring;
        };
        cursor = i.live.cursor;
      };
      waits = tt;
      fifo = rw (append-nil arrived, append-nil handled) (i.fifo ∙ ap (λ t. handled ++ t) more);
      typed_is = rw append-nil i.typed_is;
      bounded = i.bounded;
    }
  ]

  handles_key :
      (ch : ℕ) (k : Kernel) (arrived handled : List ℕ)
      → IsInv s (at (handle_key ch) k arrived handled)
      → (t : Taken ch k.env (take_key ch k.env))
      → IsInv s (at test_key (record k { env = t.after }) (arrived ++ []) (handled ++ ch ∷ []))
  handles_key ch k arrived handled i t =
      let b = Draws-Bounded t.drawn in
      record {
        live = record {
          running = record { ready = t.ready; prompt = t.prompt; ring = i.live.running.ring };
          cursor = rw (b.same_w, b.same_h) i.live.cursor;
        };
        waits = tt;
        fifo = rw append-nil (i.fifo ∙ sym (append_assoc handled (ch ∷ []) (contents k.kbd)));
        typed_is =
            t.typed_is
            ∙ ap (typed_key ch) i.typed_is
            ∙ sym (typed_keys-append handled (ch ∷ []) (typed s.env.console));
        bounded = Bounded-trans i.bounded b;
      }

  tests_key :
      (k : Kernel) (arrived handled : List ℕ)
      → IsInv s (at test_key k arrived handled)
      → IsInv s (
          at
            (if keyboard_has_char k.kbd then get_key else overlay)
            k
            (arrived ++ [])
            (handled ++ []))
  tests_key k arrived handled i = elim (Bool-cases (keyboard_has_char k.kbd)) [
    | inl more ↦ rw more (
        draws test_key get_key (λ v. v) k arrived handled i refl refl
          (λ empty. cc (more, (keyboard_has_char_iff k.kbd i.live.running.ring).1 empty))
          (Bounded-refl k.env.screen))
    | inr none_left ↦ rw none_left (
        draws test_key overlay (λ v. v) k arrived handled i refl refl tt
          (Bounded-refl k.env.screen))
  ]

  paints :
      (p q : Phase) (f : Vbe → Vbe) (k : Kernel) (arrived handled : List ℕ)
      → IsInv s (at p k arrived handled)
      → IsDrawing f
      → held p ≡ []
      → held q ≡ []
      → Waits q k.kbd
      → IsInv s (at q (on_screen f k) (arrived ++ []) (handled ++ held p))
  paints p q f k arrived handled i each before after waits =
      draws p q f k arrived handled i before after waits
        (Draws-Bounded (each k.env.screen i.live.running.ready.screen_ok))

  pub next_call-Continues :
      (p : Phase) (k : Kernel) (arrived handled : List ℕ)
      → IsInv s (at p k arrived handled)
      → Continues s (act_logged font go (at p k arrived handled))
  unfolding next_call
  next_call-Continues top k arrived handled i = record {
    after = _;
    returns = refl;
    inv =
        draws top (clear k.env.ticks) (λ v. v) k arrived handled i refl refl tt
          (Bounded-refl k.env.screen);
  }
  next_call-Continues (clear ticks) k arrived handled i = record {
    after = _;
    returns = refl;
    inv =
        draws (clear ticks) (draw_widgets ticks) (vbe_clear color_obsidian) k arrived handled i refl
          refl tt
          (Draws-Bounded (vbe_clear-Draws color_obsidian k.env.screen i.live.running.ready.small));
  }
  next_call-Continues (draw_widgets ticks) k arrived handled i = record {
    after = _;
    returns = refl;
    inv =
        paints (draw_widgets ticks) baseline
          (Widget.widget_draw_all font (call_widget font k.env.ticks) ticks k.widgets) k arrived
          handled i
          (widget_draw_all-IsDrawing font (call_widget font k.env.ticks)
            (call_widget-IsDrawing font k.env.ticks) ticks k.widgets)
          refl refl tt;
  }
  next_call-Continues baseline k arrived handled i = record {
    after = _;
    returns = refl;
    inv =
        paints baseline test_key (vbe_draw_line 0 440 800 455 color_turquoise) k arrived handled i
          (vbe_draw_line-Draws 0 440 800 455 color_turquoise) refl refl tt;
  }
  next_call-Continues test_key k arrived handled i = record {
    after = _;
    returns = refl;
    inv = tests_key k arrived handled i;
  }
  next_call-Continues get_key k arrived handled i = record {
    after = _;
    returns = refl;
    inv = reads_key k arrived handled i;
  }
  next_call-Continues (handle_key ch) k arrived handled i =
      let t = take_key-Taken ch k.env i.live.running.ready i.live.running.prompt in
      rw (next_call, t.returns)
        (record { after = _; returns = refl; inv = handles_key ch k arrived handled i t })
  next_call-Continues overlay k arrived handled i = record {
    after = _;
    returns = refl;
    inv =
        paints overlay pointer (console_draw font k.env.ticks k.env.console) k arrived handled i
          (console_draw-IsDrawing font k.env.ticks k.env.console) refl refl tt;
  }
  next_call-Continues pointer k arrived handled i = record {
    after = _;
    returns = refl;
    inv =
        paints pointer swap (mouse_draw_cursor k.mouse) k arrived handled i
          (mouse_draw_cursor-IsDrawing k.mouse) refl refl tt;
  }
  next_call-Continues swap k arrived handled i = record {
    after = _;
    returns = refl;
    inv =
        draws swap halt vbe_swap_buffers k arrived handled i refl refl tt
          (swap-Bounded k.env.screen i.live.running.ready.small);
  }
  next_call-Continues halt k arrived handled i = record {
    after = _;
    returns = refl;
    inv = draws halt halted (λ v. v) k arrived handled i refl refl tt (Bounded-refl k.env.screen);
  }
  next_call-Continues halted k arrived handled i = record {
    after = _;
    returns = refl;
    inv = draws halted halted (λ v. v) k arrived handled i refl refl tt (Bounded-refl k.env.screen);
  }
