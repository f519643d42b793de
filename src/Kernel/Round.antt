-- ===== src/Kernel/Round.antt =====
-- Without interrupts the calls of the main loop make up a round, and come to its end.
use quetzal_os.Base.{
  ℕ, zero, suc, ◌+◌, ◌*◌, ◌<◌, ◌≡◌, refl, ap, inl, inr, List, ◌∷◌, some, replicate, length, arith,
}
use quetzal_os.Keyboard.{Keyboard, keyboard_getchar}
use quetzal_os.Keyboard.Ring
use quetzal_os.Keyboard.Ring.{contents, length-contents}
use quetzal_os.Keyboard.Refine.{keyboard_getchar_lem, keyboard_has_char_iff}
use quetzal_os.Console.Prompt.{IsPrompt}
use quetzal_os.Vbe.Clear.{vbe_swap_buffers}
use quetzal_os.Serpentc.{Env}
use quetzal_os.Serpentc.Effect.{IsReady}
use quetzal_os.Kernel.{Kernel, read_keys, frame, draw_desktop, draw_overlay}
use quetzal_os.Kernel.Keys.{has_some, take_key-Taken, read_keys-Drained}
use quetzal_os.Kernel.Frame.{IsRunning, sized-IsReady, draw_desktop-Draws}
use quetzal_os.Kernel.Steps.{top, test_key, overlay, halted, next_call, Act, go, act_all}

-- `n` calls, and then `xs`.
abbrev calls : ℕ → List Act → List Act
calls zero xs = xs
calls (suc n) xs = go ∷ calls n xs

module _ (font : ℕ → List ℕ) where
  -- The loop over the keys, call by call.
  keys_in_calls :
      (fuel : ℕ) (s : Kernel) (k' : Keyboard) (e' : Env) (xs : List Act)
      → length (contents s.kbd) < fuel
      → Ring.IsValid s.kbd
      → IsReady s.env
      → IsPrompt s.env.console
      → read_keys fuel s.kbd s.env ≡ some (k', e')
      → act_all font
          (calls (3 * length (contents s.kbd) + 1) xs)
          (record { phase = test_key; kernel = s })
        ≡ act_all font xs (record { phase = overlay; kernel = record s { kbd = k'; env = e' } })
  unfolding read_keys next_call
  keys_in_calls zero s k' e' xs room v ready prompt read = absurd (omega arith)
  keys_in_calls (suc fuel) s k' e' xs room v ready prompt read =
      elim (keyboard_getchar_lem s.kbd v) [
        | inl (empty, same) ↦
            let none_left = (keyboard_has_char_iff s.kbd v).1 empty in
            let got = rw none_left at read in
            let same_kbd : k' ≡ s.kbd = cc (got) in
            let same_env : e' ≡ s.env = cc (got) in
            let count : 3 * length (contents s.kbd) + 1 ≡ suc zero =
              omega (arith, ap length empty) in
            rw (count, none_left, same_kbd, same_env) refl
        | inr (more, v') ↦
            let ch = (keyboard_getchar s.kbd).0 in
            let left = (keyboard_getchar s.kbd).1 in
            let some_left = has_some s.kbd ch (contents left) v more in
            let t = take_key-Taken ch s.env ready prompt in
            let len : length (contents s.kbd) ≡ suc (length (contents left)) = ap length more in
            let got = rw (some_left, t.returns) at read in
            let rest =
              keys_in_calls fuel (record s { kbd = left; env = t.after }) k' e' xs
                (omega (arith, len)) v' t.ready t.prompt got in
            let count : 3 * length (contents s.kbd) + 1
                ≡ suc (suc (suc (3 * length (contents left) + 1))) =
              omega (arith, len) in
            rw (count, some_left, t.returns) rest
      ]

replicate-calls : (n m : ℕ) → replicate (n + m) go ≡ calls n (replicate m go)
replicate-calls zero m = let none : 0 + m ≡ m = omega arith in rw none refl
replicate-calls (suc n) m =
    let next : suc n + m ≡ suc (n + m) = omega arith in
    rw next (ap (λ l. go ∷ l) (replicate-calls n m))

-- A round and its calls.
pub record Round (font : ℕ → List ℕ) (s : Kernel) : Type 0 where
  pub after : Kernel
  pub one_round : frame font s ≡ some after
  pub call_by_call :
      act_all font
        (replicate (4 + (3 * length (contents s.kbd) + 5)) go)
        (record { phase = top; kernel = s })
      ≡ some (record { phase = halted; kernel = after })

module _ (font : ℕ → List ℕ) where
  -- From a state with a valid screen, table, console, prompt and ring, with no interrupt: the loop
  -- comes to its `hlt` in nine calls and three for each key that waits, and leaves the state that the
  -- round as a whole leaves.
  pub frame-Round : (s : Kernel) → IsRunning s → Round font s
  unfolding frame next_call draw_desktop draw_overlay
  frame-Round s run =
      let v1 = draw_desktop font s.env.ticks s.widgets s.env.screen in
      let d1 =
        draw_desktop-Draws font s.env.ticks s.widgets s.env.screen run.ready.screen_ok
          run.ready.small in
      let drawn = record s.env { screen = v1 } in
      let ready1 = sized-IsReady s.env v1 d1.same_w d1.same_h d1.same_pitch run.ready in
      let room : length (contents s.kbd) < 256 = omega (arith, length-contents s.kbd) in
      let keys = read_keys-Drained 256 s.kbd drawn room run.ring ready1 run.prompt in
      let split = replicate-calls 4 (3 * length (contents s.kbd) + 5) in
      let tail : 3 * length (contents s.kbd) + 5 ≡ 3 * length (contents s.kbd) + 1 + 4 =
        omega arith in
      let looped =
        keys_in_calls font 256 (record s { env = drawn }) keys.kbd keys.after (replicate 4 go) room
          run.ring ready1 run.prompt keys.returns in
      record {
        after = record s {
          kbd = keys.kbd;
          env = record keys.after {
            screen = vbe_swap_buffers (draw_overlay font s.mouse keys.after keys.after.screen);
          };
        };
        one_round = rw (frame, keys.returns) refl;
        call_by_call = rw (split, tail, replicate-calls (3 * length (contents s.kbd) + 1) 4) looped;
      }
