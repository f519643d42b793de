-- ===== src/Kernel/Keys.antt =====
-- The keys that wait reach the prompt, in order, and the ring is empty behind them.
use quetzal_os.Base.{
  ℕ, zero, suc, ◌<◌, ◌≡◌, refl, ap, ◌∙◌, true, false, ◌||◌, inl, inr, List, [], ◌∷◌, Option, some,
  length, ◌==◌, if◌then◌else◌, Bool-cases, arith,
}
use quetzal_os.Keyboard.{Keyboard, keyboard_has_char, keyboard_getchar}
use quetzal_os.Keyboard.Ring
use quetzal_os.Keyboard.Ring.{contents, fill, length-contents}
use quetzal_os.Keyboard.Refine.{keyboard_getchar_lem, keyboard_has_char_iff}
use quetzal_os.Console.{console_toggle}
use quetzal_os.Console.Prompt.{IsPrompt, typed}
use quetzal_os.Vbe.Frame.{Draws, Draws-refl, Draws-trans}
use quetzal_os.Serpentc.{Env}
use quetzal_os.Serpentc.Effect.{IsReady}
use quetzal_os.Repl.{typed_after, handle_char-Handled}
use quetzal_os.Kernel.{take_key, read_keys}

-- The prompt's text behind a key, and behind a list of keys.
abbrev pub typed_key : ℕ → List ℕ → List ℕ
typed_key ch text =
    if ch == b'`' || ch == b'~' then text else if ch == 0 then text else typed_after ch text

abbrev pub typed_keys : List ℕ → List ℕ → List ℕ
typed_keys [] text = text
typed_keys (ch ∷ keys) text = typed_keys keys (typed_key ch text)

-- The state behind one key.
pub record Taken (ch : ℕ) (e : Env) (r : Option Env) : Type 0 where
  pub after : Env
  pub returns : r ≡ some after
  pub ready : IsReady after
  pub prompt : IsPrompt after.console
  pub typed_is : typed after.console ≡ typed_key ch (typed e.console)
  pub drawn : Draws e.screen after.screen

toggled-IsReady : (e : Env) → IsReady e → IsReady (record e { console = console_toggle e.console })
unfolding console_toggle
toggled-IsReady e ready = record {
  screen_ok = ready.screen_ok;
  small = ready.small;
  buffers = ready.buffers;
  lines = record {
    lines_ok = ready.lines.lines_ok;
    five = ready.lines.five;
    count = ready.lines.count;
  };
}

pub take_key-Taken :
    (ch : ℕ) (e : Env) → IsReady e → IsPrompt e.console → Taken ch e (take_key ch e)
unfolding take_key
take_key-Taken ch e ready prompt = elim (Bool-cases (ch == b'`' || ch == b'~')) [
  | inl toggles ↦ rw toggles (record {
    after = record e { console = console_toggle e.console };
    returns = refl;
    ready = toggled-IsReady e ready;
    prompt =
        unfold console_toggle in
        record { size = prompt.size; text = prompt.text; ends = prompt.ends };
    typed_is = rw toggles (unfold console_toggle in refl);
    drawn = Draws-refl e.screen;
  })
  | inr other ↦ elim (Bool-cases (ch == 0)) [
    | inl null ↦
        rw (other, null)
          (record {
            after = e;
            returns = refl;
            ready = ready;
            prompt = prompt;
            typed_is = rw (other, null) refl;
            drawn = Draws-refl e.screen;
          })
    | inr key ↦
        let h = handle_char-Handled ch e ready prompt in
        rw (other, key)
          (record {
            after = h.after;
            returns = h.returns;
            ready = h.ready;
            prompt = h.prompt;
            typed_is = rw (other, key) h.typed_is;
            drawn = h.drawn;
          })
  ]
]

-- The state behind the loop over the keys `keys`.
pub record Drained (keys : List ℕ) (e : Env) (r : Option (Keyboard × Env)) : Type 0 where
  pub kbd : Keyboard
  pub after : Env
  pub returns : r ≡ some (kbd, after)
  pub ring : Ring.IsValid kbd
  pub empty : contents kbd ≡ []
  pub ready : IsReady after
  pub prompt : IsPrompt after.console
  pub typed_is : typed after.console ≡ typed_keys keys (typed e.console)
  pub drawn : Draws e.screen after.screen

has_none : (k : Keyboard) → Ring.IsValid k → contents k ≡ [] → keyboard_has_char k ≡ false
has_none k v e = (keyboard_has_char_iff k v).1 e

pub has_some :
    (k : Keyboard) (ch : ℕ) (rest : List ℕ)
    → Ring.IsValid k
    → contents k ≡ ch ∷ rest
    → keyboard_has_char k ≡ true
has_some k ch rest v e = elim (Bool-cases (keyboard_has_char k)) [
  | inl left_over ↦ left_over
  | inr nothing ↦ absurd (cc ((keyboard_has_char_iff k v).0 nothing, e))
]

pub read_keys-Drained :
    (fuel : ℕ) (k : Keyboard) (e : Env)
    → length (contents k) < fuel
    → Ring.IsValid k
    → IsReady e
    → IsPrompt e.console
    → Drained (contents k) e (read_keys fuel k e)
unfolding read_keys
read_keys-Drained zero k e room v ready prompt = absurd (omega arith)
read_keys-Drained (suc fuel) k e room v ready prompt = elim (keyboard_getchar_lem k v) [
  | inl (empty, same) ↦
      let none_left = has_none k v empty in
      rw (read_keys, none_left, empty)
        (record {
          kbd = k;
          after = e;
          returns = refl;
          ring = v;
          empty = empty;
          ready = ready;
          prompt = prompt;
          typed_is = refl;
          drawn = Draws-refl e.screen;
        })
  | inr (more, v') ↦
      let ch = (keyboard_getchar k).0 in
      let k' = (keyboard_getchar k).1 in
      let some_left = has_some k ch (contents k') v more in
      let t = take_key-Taken ch e ready prompt in
      let len : length (contents k) ≡ suc (length (contents k')) = ap length more in
      let rest = read_keys-Drained fuel k' t.after (omega (arith, len)) v' t.ready t.prompt in
      rw (read_keys, some_left, t.returns, more)
        (record {
          kbd = rest.kbd;
          after = rest.after;
          returns = rest.returns;
          ring = rest.ring;
          empty = rest.empty;
          ready = rest.ready;
          prompt = rest.prompt;
          typed_is = rest.typed_is ∙ ap (λ text. typed_keys (contents k') text) t.typed_is;
          drawn = Draws-trans t.drawn rest.drawn;
        })
]
