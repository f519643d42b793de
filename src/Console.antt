-- ===== src/Console.antt =====
-- kernel/graphics/console.c: the lines of the console and the prompt. A line is a buffer of 64
-- bytes, the prompt one of 128. `console_print` is not called with a null pointer.
pub mod Lines
pub mod Prompt
pub mod Draw
mod Examples
use mathlib.Core.Option
use quetzal_os.Base.{
  ℕ, zero, suc, ◌+◌, ◌-◌, ◌*◌, ◌/◌, ◌%◌, ◌^◌, ◌≤◌, ◌<◌, ◌≡◌, ◌≢◌, ◌↔◌, refl, sym, ap, ◌∙◌, fun_ext,
  Bool, true, false, not, ◌&&◌, ◌||◌, ◌⊎◌, inl, inr, List, [], ◌∷◌, ◌++◌, map, Option, none, some,
  append-nil, append_assoc, min, or_nibble, bit_and, bit_or, byte_set, byte_clear, byte_test,
  get_or, set, take, drop, replicate, length, length-append, length-set, length-replicate,
  length-take, length-drop, get_or-set_self, get_or-set_ne, take-append-drop, ltb, leb, ◌==◌,
  if◌then◌else◌, Bool-cases, Option-cases, Bool-ext, ==_iff, ltb_iff, arith, all_below,
  all_below_sound, codes, cstr, copy_str, length-copy_str, cstr-copy_str, length-cstr, cstr-cstr,
  length-take-cstr, u8, u16, u32, u64, sub_u32, ℤ, pos, negsuc, pos_part, neg_part, sub_ℕ, ◌+ℤ◌,
  ◌-ℤ◌, ltb_ℤ, leb_ℤ, eqb_ℤ, int_of, word_of,
}

abbrev pub console_max_history : ℕ
console_max_history = 5

abbrev pub console_line_len : ℕ
console_line_len = 64

abbrev pub console_prompt_max : ℕ
console_prompt_max = 128

pub record Console : Type 0 where
  pub visible : Bool
  pub history : List (List ℕ)
  pub history_count : ℕ
  pub prompt_buf : List ℕ
  pub prompt_len : ℕ

-- The copy of `msg` into line `i`.
unfoldable pub put_line : List ℕ → ℕ → List (List ℕ) → List (List ℕ)
put_line msg i [] = []
put_line msg zero (l ∷ ls) = copy_str (console_line_len - 1) msg l ∷ ls
put_line msg (suc i) (l ∷ ls) = l ∷ put_line msg i ls

-- Every line but the last takes the text of the next one.
unfoldable pub shift_lines : List (List ℕ) → List (List ℕ)
shift_lines [] = []
shift_lines (l ∷ []) = l ∷ []
shift_lines (l ∷ m ∷ ls) = copy_str (console_line_len - 1) m l ∷ shift_lines (m ∷ ls)

unfoldable pub console_print : List ℕ → Console → Console
unfolding put_line shift_lines
console_print msg c =
    if ltb c.history_count console_max_history
    then record c {
      history = put_line msg c.history_count c.history;
      history_count = c.history_count + 1;
    }
    else record c { history = put_line msg (console_max_history - 1) (shift_lines c.history) }

abbrev cleared : List (List ℕ) → List (List ℕ)
cleared ls = map (λ l. set l 0 0) ls

unfoldable pub console_init : Console → Console
unfolding console_print
console_init c =
    let blank = record c {
      visible = true;
      history_count = 0;
      prompt_len = 0;
      prompt_buf = set c.prompt_buf 0 0;
      history = cleared c.history;
    } in
    console_print (codes "Type commands (e.g. feather_rect) and press Enter.")
      (console_print (codes "QuetzalOS SerpentC REPL Console Online.") blank)

abbrev pub console_is_visible : Console → Bool
console_is_visible c = c.visible

unfoldable pub console_toggle : Console → Console
console_toggle c = record c { visible = not c.visible }

-- The backspace of `console_handle_char`.
unfoldable pub erase_char : Console → Console
erase_char c =
    if ltb 0 c.prompt_len
    then record c {
      prompt_len = c.prompt_len - 1;
      prompt_buf = set c.prompt_buf (c.prompt_len - 1) 0;
    }
    else c

-- A printable character of `console_handle_char`.
unfoldable pub type_char : ℕ → Console → Console
type_char ch c =
    if ltb (c.prompt_len + 1) console_prompt_max
    then record c {
      prompt_buf = set (set c.prompt_buf c.prompt_len ch) (c.prompt_len + 1) 0;
      prompt_len = c.prompt_len + 1;
    }
    else c

-- `log_entry`, as far as it is written.
abbrev pub log_entry : Console → List ℕ
log_entry c =
    b'>' ∷ b' ' ∷ copy_str (console_line_len - 3) c.prompt_buf (replicate (console_line_len - 2) 0)

-- `prompt_len = 0; prompt_buf[0] = '\0';`
unfoldable pub clear_prompt : Console → Console
clear_prompt c = record c { prompt_len = 0; prompt_buf = set c.prompt_buf 0 0 }

module _ {Env : Type 0} (get : Env → Console) (put : Console → Env → Env)
    (eval : List ℕ → Env → Option Env) where
  -- `console_handle_char`, in a surrounding state that holds the console, with the interpreter that
  -- it calls.
  unfoldable pub console_handle_char : ℕ → Env → Option Env
  unfolding console_print erase_char type_char clear_prompt
  console_handle_char ch env =
      let c = get env in
      let entered = eval c.prompt_buf (put (console_print (log_entry c) c) env) in
      if ch == 8
      then some (put (erase_char c) env)
      else if ch == 10
      then (if ltb 0 c.prompt_len
          then Option.map (λ e. put (clear_prompt (get e)) e) entered
          else some env)
      else if leb 32 ch && leb ch 126
      then some (put (type_char ch c) env)
      else some env
