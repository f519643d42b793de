-- ===== src/Serpentc.antt =====
-- kernel/serpentc/serpentc.c, and `dispatch_builtin` of builtins.c: the interpreter of scripts. The
-- state that a script works on is the screen, the variables, the console and the tick counter.
pub mod Progress
pub mod Total
pub mod Effect
pub mod Finish
pub mod Script
mod Examples
use mathlib.Core.Option
use quetzal_os.Base.{
  ℕ, zero, suc, ◌+◌, Bool, true, false, ◌||◌, List, [], ◌∷◌, ◌++◌, Option, none, some, get_or,
  length, ltb, leb, ◌==◌, if◌then◌else◌, codes, u32,
}
use quetzal_os.Lexer.{
  TokenType, Token, Lexer, eof, identifier, number, lparen, rparen, comma, assign, semicolon, error,
  lexer_init, lexer_next,
}
use quetzal_os.SymbolTable.{Symbol, str_equal, symbol_get, assign_symbol}
use quetzal_os.Vbe.{Vbe, vbe_draw_line, vbe_fill_rect}
use quetzal_os.Vbe.Shapes.{vbe_draw_circle, vbe_fill_circle}
use quetzal_os.Vbe.Clear.{vbe_clear}
use quetzal_os.Console.{Console, console_print}

pub record Env : Type 0 where
  pub screen : Vbe
  pub symbols : List Symbol
  pub console : Console
  pub ticks : ℕ

-- The lexer and the token in hand.
pub record Parser : Type 0 where
  pub lex : Lexer
  pub tok : Token

-- `tok = lexer_next(&lex)`
unfoldable pub advance : Parser → Parser
advance p = let (lex, tok) = lexer_next p.lex in record { lex = lex; tok = tok }

-- `dispatch_builtin`: the result, `*out_result` and the screen.
unfoldable pub dispatch_builtin : List ℕ → ℕ → List ℕ → ℕ → Vbe → Bool × ℕ × Vbe
unfolding str_equal vbe_draw_line vbe_fill_rect vbe_draw_circle vbe_fill_circle vbe_clear
dispatch_builtin name len args ticks v =
    let arg = λ (i : ℕ). get_or args i 0 in
    let count = length args in
    if str_equal name len (codes "feather_draw_line")
    then (if leb 5 count
        then (true, 0, vbe_draw_line (arg 0) (arg 1) (arg 2) (arg 3) (arg 4) v)
        else (false, 0, v))
    else if str_equal name len (codes "feather_rect")
    then (if leb 5 count
        then (true, 0, vbe_fill_rect (arg 0) (arg 1) (arg 2) (arg 3) (arg 4) v)
        else (false, 0, v))
    else if str_equal name len (codes "feather_draw_circle")
    then (if leb 4 count
        then (true, 0, vbe_draw_circle (arg 0) (arg 1) (arg 2) (arg 3) v)
        else (false, 0, v))
    else if str_equal name len (codes "feather_circle")
        || str_equal name len (codes "feather_fill_circle")
    then (if leb 4 count
        then (true, 0, vbe_fill_circle (arg 0) (arg 1) (arg 2) (arg 3) v)
        else (false, 0, v))
    else if str_equal name len (codes "feather_clear")
    then (if leb 1 count then (true, 0, vbe_clear (arg 0) v) else (false, 0, v))
    else if str_equal name len (codes "tonal_now")
    then (true, u32 ticks, v)
    else (false, 0, v)

-- The value of a name; one that is not set is 0.
abbrev pub value_of : Token → List Symbol → ℕ
value_of tok symbols = Option.get_or (symbol_get tok.start tok.length_of symbols) 0

-- The enumerator's value.
abbrev pub code_of : TokenType → ℕ
code_of eof = 0
code_of identifier = 1
code_of number = 2
code_of lparen = 3
code_of rparen = 4
code_of comma = 5
code_of assign = 6
code_of semicolon = 7
code_of error = 8

-- `tok.type == kind`
abbrev pub is : TokenType → Parser → Bool
is kind p = code_of p.tok.kind == code_of kind

unfoldable pub parse_expression : List Symbol → Parser → ℕ × Parser
unfolding advance
parse_expression symbols p =
    if is number p
    then (p.tok.value, advance p)
    else if is identifier p
    then (value_of p.tok symbols, advance p)
    else (0, p)

-- `if (tok.type == kind) tok = lexer_next(&lex);`
unfoldable pub skip : TokenType → Parser → Parser
unfolding advance
skip kind p = if is kind p then advance p else p

-- The loop over the arguments. Behind an argument a comma leads to the next round; at anything else
-- the loop ends, at a closing parenthesis by its condition. `none` means that the fuel ran out.
unfoldable pub args_loop : List Symbol → ℕ → Parser → List ℕ → Option (List ℕ × Parser)
unfolding parse_expression advance
args_loop symbols zero p args = none
args_loop symbols (suc fuel) p args =
    let (arg_val, q) = parse_expression symbols p in
    let args' = if ltb (length args) 8 then args ++ arg_val ∷ [] else args in
    let rest = args_loop symbols fuel (advance q) args' in
    if is rparen p || is eof p || is error p
    then some (args, p)
    else if is comma q
    then rest
    else some (args', q)

-- A call whose arguments are read: the builtin, the message.
unfoldable pub call : Token → List ℕ → Env → Env
unfolding dispatch_builtin console_print
call name_tok args env =
    let (done, out_result, screen) =
      dispatch_builtin name_tok.start name_tok.length_of args env.ticks env.screen in
    let message =
      if done
      then codes "[SerpentC] Command executed."
      else codes "[SerpentC] Error: unknown function." in
    record env { screen = screen; console = console_print message env.console }

-- An assignment whose value is read.
unfoldable pub assigned : Token → ℕ → Env → Env
unfolding assign_symbol console_print
assigned name_tok val env = record env {
  symbols = assign_symbol name_tok.start name_tok.length_of val env.symbols;
  console = console_print (codes "[SerpentC] Variable assigned.") env.console;
}

-- One round of the loop of `serpentc_eval`.
unfoldable pub statement : Parser → Env → Option (Parser × Env)
unfolding advance parse_expression skip args_loop call assigned
statement p env =
    let q = advance p in
    let (val, r) = parse_expression env.symbols (advance q) in
    let read = args_loop env.symbols (length p.lex.src + 2) (advance q) [] in
    if is identifier p
    then (if is assign q
        then some (skip semicolon r, assigned p.tok val env)
        else if is lparen q
        then Option.map (λ a. (skip semicolon (skip rparen a.1), call p.tok a.0 env)) read
        else some (advance q, env))
    else some (q, env)

unfoldable pub eval_loop : ℕ → Parser → Env → Option Env
unfolding statement
eval_loop zero p env = none
eval_loop (suc fuel) p env =
    if is eof p || is error p
    then some env
    else elim (statement p env) [ none ↦ none | some s ↦ eval_loop fuel s.0 s.1 ]

-- The script is not null where the program calls this. Each round takes a byte at least, so the fuel
-- is enough.
unfoldable pub serpentc_eval : List ℕ → Env → Option Env
unfolding lexer_init advance eval_loop
serpentc_eval script env =
    let (lex, tok) = lexer_next (lexer_init (some script)) in
    eval_loop (length script + 2) (record { lex = lex; tok = tok }) env
