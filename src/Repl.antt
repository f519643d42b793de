-- ===== src/Repl.antt =====
-- `console_handle_char` of kernel/graphics/console.c with the interpreter that it calls: the read,
-- evaluate and print loop of the console, key by key.
mod Examples
use mathlib.Core.Option
use quetzal_os.Base.{
  ℕ, zero, suc, ◌+◌, ◌-◌, ◌*◌, ◌/◌, ◌%◌, ◌^◌, ◌≤◌, ◌<◌, ◌≡◌, ◌≢◌, ◌↔◌, refl, sym, ap, ◌∙◌, fun_ext,
  Bool, true, false, not, ◌&&◌, ◌||◌, ◌⊎◌, inl, inr, List, [], ◌∷◌, ◌++◌, map, Option, none, some,
  append-nil, append_assoc, min, or_nibble, bit_and, bit_or, byte_set, byte_clear, byte_test,
  get_or, set, take, drop, replicate, length, length-append, length-set, length-replicate,
  length-take, length-drop, get_or-set_self, get_or-set_ne, take-append-drop, ltb, leb, ◌==◌,
  if◌then◌else◌, Bool-cases, Option-cases, Bool-ext, ==_iff, ltb_iff, arith, all_below,
  all_below_sound, codes, cstr, copy_str, length-copy_str, cstr-copy_str, length-cstr, cstr-cstr,
  length-take-cstr, u8, u16, u32, u64, sub_u32, ℤ, pos, negsuc, pos_part, neg_part, sub_ℕ, ◌+ℤ◌,
  ◌-ℤ◌, ltb_ℤ, leb_ℤ, eqb_ℤ, int_of, word_of,
}
use quetzal_os.Console.{
  Console, log_entry, console_print, erase_char, type_char, clear_prompt, console_handle_char,
}
use quetzal_os.Console.Lines.{console_print-IsValid}
use quetzal_os.Console.Prompt.{
  IsPrompt, typed, Edited, type_char-Edited, erase_char-Edited, clear_prompt-Edited,
}
use quetzal_os.Vbe.Frame.{Draws, Draws-refl}
use quetzal_os.Serpentc.{Env, serpentc_eval}
use quetzal_os.Serpentc.Effect.{
  IsReady, Keeps, Keeps-IsReady, serpentc_eval-Contained, console_print-prompt,
}

abbrev put_console : Console → Env → Env
put_console c e = record e { console = c }

unfoldable pub handle_char : ℕ → Env → Option Env
unfolding console_handle_char
handle_char ch e = console_handle_char (λ x. x.console) put_console serpentc_eval ch e

-- What has been typed behind a key.
abbrev pub typed_after : ℕ → List ℕ → List ℕ
typed_after ch text =
    if ch == 8
    then take (length text - 1) text
    else if ch == 10
    then []
    else if leb 32 ch && leb ch 126
    then (if ltb (length text) 127 then text ++ ch ∷ [] else text)
    else text

-- The state behind a key.
pub record Handled (ch : ℕ) (e : Env) (r : Option Env) : Type 0 where
  pub after : Env
  pub returns : r ≡ some after
  pub ready : IsReady after
  pub prompt : IsPrompt after.console
  pub typed_is : typed after.console ≡ typed_after ch (typed e.console)
  pub drawn : Draws e.screen after.screen

-- A console with the same lines is as ready.
put_console-IsReady :
    (e : Env) (c : Console)
    → IsReady e
    → quetzal_os.Console.Lines.IsValid c
    → IsReady (put_console c e)
put_console-IsReady e c r v = record {
  screen_ok = r.screen_ok;
  small = r.small;
  buffers = r.buffers;
  lines = v;
}

type_char-lines :
    (ch : ℕ) (c : Console)
    → quetzal_os.Console.Lines.IsValid c
    → quetzal_os.Console.Lines.IsValid (type_char ch c)
unfolding type_char
type_char-lines ch c v = elim (Bool-cases (ltb (c.prompt_len + 1) 128)) [
  | inl room ↦ rw room (record { lines_ok = v.lines_ok; five = v.five; count = v.count })
  | inr full ↦ rw full v
]

erase_char-lines :
    (c : Console)
    → quetzal_os.Console.Lines.IsValid c
    → quetzal_os.Console.Lines.IsValid (erase_char c)
unfolding erase_char
erase_char-lines c v = elim (Bool-cases (ltb 0 c.prompt_len)) [
  | inl some_left ↦ rw some_left (record { lines_ok = v.lines_ok; five = v.five; count = v.count })
  | inr none_left ↦ rw none_left v
]

clear_prompt-lines :
    (c : Console)
    → quetzal_os.Console.Lines.IsValid c
    → quetzal_os.Console.Lines.IsValid (clear_prompt c)
unfolding clear_prompt
clear_prompt-lines c v = record { lines_ok = v.lines_ok; five = v.five; count = v.count }

nil_of_length : (s : List ℕ) → length s ≡ 0 → s ≡ []
nil_of_length [] h = refl
nil_of_length (b ∷ bs) h = absurd (omega arith)

pub fields-IsPrompt :
    (c d : Console)
    → d.prompt_buf ≡ c.prompt_buf
    → d.prompt_len ≡ c.prompt_len
    → IsPrompt c
    → IsPrompt d
fields-IsPrompt c d buf len v = record {
  size = ap length buf ∙ v.size;
  text = ap (λ b. length (cstr b)) buf ∙ v.text ∙ sym len;
  ends = omega (arith, len, v.ends);
}

module _ (e : Env) (ready : IsReady e) (prompt : IsPrompt e.console) where
  -- A key that only edits the prompt.
  edit :
      (ch : ℕ) (c : Console)
      → quetzal_os.Console.Lines.IsValid c
      → Edited c (typed_after ch (typed e.console))
      → Handled ch e (some (put_console c e))
  edit ch c v edited = record {
    after = put_console c e;
    returns = refl;
    ready = put_console-IsReady e c ready v;
    prompt = edited.valid;
    typed_is = edited.typed_is;
    drawn = Draws-refl e.screen;
  }

  -- The prompt is entered: its text is printed and evaluated, and the prompt is empty.
  enter : Handled 10 e (
      Option.map
        (λ x. put_console (clear_prompt x.console) x)
        (serpentc_eval e.console.prompt_buf
          (put_console (console_print (log_entry e.console) e.console) e)))
  enter =
      let printed = put_console (console_print (log_entry e.console) e.console) e in
      let start =
        put_console-IsReady e (console_print (log_entry e.console) e.console) ready
          (console_print-IsValid (log_entry e.console) e.console ready.lines) in
      let run = serpentc_eval-Contained e.console.prompt_buf printed start in
      let (buf, len, _) = console_print-prompt (log_entry e.console) e.console in
      let after_buf : run.after.console.prompt_buf ≡ e.console.prompt_buf =
        run.keeps.prompt_buf ∙ buf in
      let after_len : run.after.console.prompt_len ≡ e.console.prompt_len =
        run.keeps.prompt_len ∙ len in
      let after_prompt = fields-IsPrompt e.console run.after.console after_buf after_len prompt in
      let after_ready = Keeps-IsReady run.keeps start in
      let edited = clear_prompt-Edited run.after.console after_prompt in
      rw run.returns (record {
        after = put_console (clear_prompt run.after.console) run.after;
        returns = refl;
        ready =
            put_console-IsReady run.after (clear_prompt run.after.console) after_ready
              (clear_prompt-lines run.after.console after_ready.lines);
        prompt = edited.valid;
        typed_is = edited.typed_is;
        drawn = run.keeps.drawn;
      })

-- Every key, on a state and a prompt as the program sets them up: the key comes to an end, and with
-- it every script that is entered; a printable character joins the prompt while fewer than 127 bytes
-- stand there, the backspace takes the last one, and Enter leaves an empty prompt; the state and the
-- prompt stay valid, and nothing but the screen's own cells is drawn on.
pub handle_char-Handled :
    (ch : ℕ) (e : Env) → IsReady e → IsPrompt e.console → Handled ch e (handle_char ch e)
unfolding handle_char console_handle_char
handle_char-Handled ch e ready prompt = elim (Bool-cases (ch == 8)) [
  | inl back ↦
      let new = erase_char-lines e.console ready.lines in
      rw back (
        edit e ready prompt ch (erase_char e.console) new
          (rw back (erase_char-Edited e.console prompt)))
  | inr more ↦ elim (Bool-cases (ch == 10)) [
    | inl enters ↦
        let newline : ch ≡ 10 = (==_iff ch 10).0 enters in
        elim (Bool-cases (ltb 0 e.console.prompt_len)) [
          | inl some_left ↦ rw (newline, some_left) (enter e ready prompt)
          | inr none_left ↦
              rw (newline, none_left)
                (record {
                  after = e;
                  returns = refl;
                  ready = ready;
                  prompt = prompt;
                  typed_is = nil_of_length (typed e.console) (ground (arith, prompt.text));
                  drawn = Draws-refl e.screen;
                })
        ]
    | inr other ↦ elim (Bool-cases (leb 32 ch && leb ch 126)) [
      | inl types ↦
          let new = type_char-lines ch e.console ready.lines in
          rw (more, other, types)
            (edit e ready prompt ch (type_char ch e.console) new
              (rw (more, other, types) (type_char-Edited ch e.console prompt (ground arith))))
      | inr ignored ↦
          rw (more, other, ignored)
            (edit e ready prompt ch e.console ready.lines
              (rw (more, other, ignored) (record { typed_is = refl; valid = prompt })))
    ]
  ]
]
