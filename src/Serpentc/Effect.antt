-- ===== src/Serpentc/Effect.antt =====
-- What a script can change.
use quetzal_os.Base.{
  ℕ, ◌^◌, ◌<◌, ◌≡◌, refl, ◌∙◌, Bool, true, false, ◌||◌, inl, inr, List, Option, some, get_or,
  length, leb, if◌then◌else◌, Option-cases, arith, codes,
}
use quetzal_os.Lexer.{Token}
use quetzal_os.SymbolTable.{Symbol, str_equal, symbol_set, assign_symbol}
use quetzal_os.SymbolTable.Lookup.{HasBuffers}
use quetzal_os.SymbolTable.Laws.{symbol_set_shape}
use quetzal_os.Vbe.{Vbe}
use quetzal_os.Vbe.Clear.{vbe_clear, pixels, vbe_clear_lem}
use quetzal_os.Vbe.Frame.{
  Draws, Draws-refl, Draws-trans, Draws-IsValid, vbe_fill_rect-Draws, vbe_draw_line-Draws,
}
use quetzal_os.Vbe.Outline.{vbe_draw_circle-Draws, vbe_fill_circle-Draws}
use quetzal_os.Console.{Console, console_print}
use quetzal_os.Console.Lines.{console_print-IsValid}
use quetzal_os.Serpentc.{Env, dispatch_builtin, call, assigned, serpentc_eval}
use quetzal_os.Serpentc.Total.{
  Change, unchanged, assigns, calls, Changes, done, next, serpentc_eval-Evaluated,
}

-- A screen, a table and a console as the program sets them up.
pub record IsReady (e : Env) : Type 0 where
  pub screen_ok : quetzal_os.Vbe.Frame.IsValid e.screen
  pub small : pixels e.screen < 2 ^ 62
  pub buffers : HasBuffers e.symbols
  pub lines : quetzal_os.Console.Lines.IsValid e.console

-- Between two states: pixels of the screen were written, variables set, lines printed; nothing else.
pub record Keeps (e f : Env) : Type 0 where
  pub drawn : Draws e.screen f.screen
  pub buffers : HasBuffers f.symbols
  pub slots : length f.symbols ≡ length e.symbols
  pub lines : quetzal_os.Console.Lines.IsValid f.console
  pub prompt_buf : f.console.prompt_buf ≡ e.console.prompt_buf
  pub prompt_len : f.console.prompt_len ≡ e.console.prompt_len
  pub visible : f.console.visible ≡ e.console.visible
  pub ticks : f.ticks ≡ e.ticks

pub vbe_clear-Draws : (color : ℕ) (v : Vbe) → pixels v < 2 ^ 62 → Draws v (vbe_clear color v)
vbe_clear-Draws color v small = record {
  same_w = unfold vbe_clear in refl;
  same_h = unfold vbe_clear in refl;
  same_pitch = unfold vbe_clear in refl;
  same_lfb = unfold vbe_clear in refl;
  behind = λ i h. vbe_clear_lem color v i small ∙ ground arith;
}

-- The screen that a call of `dispatch_builtin` leaves.
record Shows (v : Vbe) (r : Bool × ℕ × Vbe) : Type 0 where
  drawn : Draws v r.2

Shows-if :
    {v : Vbe} {r s : Bool × ℕ × Vbe} (b : Bool)
    → Shows v r
    → Shows v s
    → Shows v (if b then r else s)
Shows-if true x y = x
Shows-if false x y = y

untouched : {v : Vbe} {b : Bool} {n : ℕ} → Shows v (b, n, v)
untouched {v} = record { drawn = Draws-refl v }

dispatch_builtin-Shows :
    (name : List ℕ) (len : ℕ) (args : List ℕ) (ticks : ℕ) (v : Vbe)
    → quetzal_os.Vbe.Frame.IsValid v
    → pixels v < 2 ^ 62
    → Shows v (dispatch_builtin name len args ticks v)
unfolding dispatch_builtin
dispatch_builtin-Shows name len args ticks v h small =
    let arg = λ (i : ℕ). get_or args i 0 in
    let count = length args in
    Shows-if (str_equal name len (codes "feather_draw_line"))
      (Shows-if (leb 5 count)
        (record { drawn = vbe_draw_line-Draws (arg 0) (arg 1) (arg 2) (arg 3) (arg 4) v h })
        untouched)
      (Shows-if (str_equal name len (codes "feather_rect"))
        (Shows-if (leb 5 count)
          (record { drawn = vbe_fill_rect-Draws (arg 0) (arg 1) (arg 2) (arg 3) (arg 4) v h })
          untouched)
        (Shows-if (str_equal name len (codes "feather_draw_circle"))
          (Shows-if (leb 4 count)
            (record { drawn = vbe_draw_circle-Draws (arg 0) (arg 1) (arg 2) (arg 3) v h })
            untouched)
          (Shows-if
            (str_equal name len (codes "feather_circle")
              || str_equal name len (codes "feather_fill_circle"))
            (Shows-if (leb 4 count)
              (record { drawn = vbe_fill_circle-Draws (arg 0) (arg 1) (arg 2) (arg 3) v h })
              untouched)
            (Shows-if (str_equal name len (codes "feather_clear"))
              (Shows-if (leb 1 count) (record { drawn = vbe_clear-Draws (arg 0) v small })
                untouched)
              (Shows-if (str_equal name len (codes "tonal_now")) untouched untouched)))))

pub assign_symbol_shape :
    (name : List ℕ) (len val : ℕ) (table : List Symbol)
    → HasBuffers table
    → HasBuffers (assign_symbol name len val table)
      × (length (assign_symbol name len val table) ≡ length table)
unfolding assign_symbol
assign_symbol_shape name len val table b = elim (Option-cases (symbol_set name len val table)) [
  | inl fails ↦ rw fails (b, refl)
  | inr (t, works) ↦ rw works (symbol_set_shape name len val table b works)
]

-- A line that is printed leaves the prompt alone.
pub console_print-prompt :
    (msg : List ℕ) (c : Console)
    → ((console_print msg c).prompt_buf ≡ c.prompt_buf)
      × ((console_print msg c).prompt_len ≡ c.prompt_len)
      × ((console_print msg c).visible ≡ c.visible)
unfolding console_print
console_print-prompt msg c = ground arith

module _ (e : Env) (ready : IsReady e) where
  assigned-Keeps : (name : Token) (val : ℕ) → Keeps e (assigned name val e)
  unfolding assigned
  assigned-Keeps name val =
      let shape = assign_symbol_shape name.start name.length_of val e.symbols ready.buffers in
      let message = codes "[SerpentC] Variable assigned." in
      let (buf, len, vis) = console_print-prompt message e.console in
      record {
        drawn = Draws-refl e.screen;
        buffers = shape.0;
        slots = shape.1;
        lines = console_print-IsValid message e.console ready.lines;
        prompt_buf = buf;
        prompt_len = len;
        visible = vis;
        ticks = refl;
      }

  call-Keeps : (name : Token) (args : List ℕ) → Keeps e (call name args e)
  unfolding call
  call-Keeps name args =
      let r = dispatch_builtin name.start name.length_of args e.ticks e.screen in
      let message =
        if r.0
        then codes "[SerpentC] Command executed."
        else codes "[SerpentC] Error: unknown function." in
      let (buf, len, vis) = console_print-prompt message e.console in
      record {
        drawn =
            (dispatch_builtin-Shows name.start name.length_of args e.ticks e.screen ready.screen_ok
              ready.small).drawn;
        buffers = ready.buffers;
        slots = refl;
        lines = console_print-IsValid message e.console ready.lines;
        prompt_buf = buf;
        prompt_len = len;
        visible = vis;
        ticks = refl;
      }

  unchanged-Keeps : Keeps e e
  unchanged-Keeps = record {
    drawn = Draws-refl e.screen;
    buffers = ready.buffers;
    slots = refl;
    lines = ready.lines;
    prompt_buf = refl;
    prompt_len = refl;
    visible = refl;
    ticks = refl;
  }

pub Change-Keeps : {e f : Env} → Change e f → IsReady e → Keeps e f
Change-Keeps {e} unchanged r = unchanged-Keeps e r
Change-Keeps {e} (assigns name val) r = assigned-Keeps e r name val
Change-Keeps {e} (calls name args few) r = call-Keeps e r name args

pub Keeps-IsReady : {e f : Env} → Keeps e f → IsReady e → IsReady f
Keeps-IsReady k r = record {
  screen_ok = Draws-IsValid k.drawn r.screen_ok;
  small = rw (k.drawn.same_h, k.drawn.same_pitch) r.small;
  buffers = k.buffers;
  lines = k.lines;
}

Keeps-trans : {e f g : Env} → Keeps e f → Keeps f g → Keeps e g
Keeps-trans x y = record {
  drawn = Draws-trans x.drawn y.drawn;
  buffers = y.buffers;
  slots = y.slots ∙ x.slots;
  lines = y.lines;
  prompt_buf = y.prompt_buf ∙ x.prompt_buf;
  prompt_len = y.prompt_len ∙ x.prompt_len;
  visible = y.visible ∙ x.visible;
  ticks = y.ticks ∙ x.ticks;
}

Changes-Keeps : {e f : Env} → Changes e f → IsReady e → Keeps e f
Changes-Keeps {e} done r = unchanged-Keeps e r
Changes-Keeps (next c cs) r =
    let first = Change-Keeps c r in Keeps-trans first (Changes-Keeps cs (Keeps-IsReady first r))

-- What a script leaves.
pub record Contained (e : Env) (r : Option Env) : Type 0 where
  pub after : Env
  pub returns : r ≡ some after
  pub keeps : Keeps e after

-- Whatever the bytes of a script are, on a ready state it comes to an end, and then no cell of the
-- back buffer behind the screen, no side of the screen and no cell of the linear frame buffer has
-- changed, the table has its slots and buffers, the console is valid, and the prompt and the tick
-- counter are as before.
pub serpentc_eval-Contained :
    (script : List ℕ) (e : Env) → IsReady e → Contained e (serpentc_eval script e)
serpentc_eval-Contained script e r =
    let run = serpentc_eval-Evaluated script e in
    record { after = run.after; returns = run.returns; keeps = Changes-Keeps run.changes r }
