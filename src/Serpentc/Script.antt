-- ===== src/Serpentc/Script.antt =====
-- The language of the interpreter: the scripts of assignments and calls, how they are written, and
-- what they do. Texts are printed in front of what follows them.
pub mod Names
pub mod Tokens
mod Args
pub mod Statement
pub mod Run
use mathlib.Core.Option
use quetzal_os.Base.{
  ℕ, ◌^◌, Bool, true, false, not, ◌&&◌, List, [], ◌∷◌, ◌++◌, map, Option, get_or, set, take, length,
  ltb, if◌then◌else◌, codes, u32,
}
use quetzal_os.Lexer.{is_alpha, is_alnum}
use quetzal_os.Serial.{print_num}
use quetzal_os.SymbolTable.{Symbol, symbol_get, symbol_set}
use quetzal_os.Console.{console_print}
use quetzal_os.Serpentc.{Env, dispatch_builtin}

pub data Expr : Type 0 where
  num : ℕ → Expr
  var : List ℕ → Expr

pub data Stmt : Type 0 where
  store : List ℕ → Expr → Stmt
  invoke : List ℕ → List Expr → Stmt

-- A name: a letter or an underscore, then letters, digits and underscores.
abbrev pub are_alnum : List ℕ → Bool
are_alnum [] = true
are_alnum (c ∷ cs) = is_alnum c && are_alnum cs

abbrev pub is_word : List ℕ → Bool
is_word [] = false
is_word (c ∷ cs) = is_alpha c && are_alnum cs

abbrev pub is_expr : Expr → Bool
is_expr (num n) = ltb n (2 ^ 64)
is_expr (var x) = is_word x

abbrev pub are_exprs : List Expr → Bool
are_exprs [] = true
are_exprs (e ∷ es) = is_expr e && are_exprs es

abbrev pub is_stmt : Stmt → Bool
is_stmt (store x e) = is_word x && is_expr e
is_stmt (invoke f es) = is_word f && are_exprs es

abbrev pub is_script : List Stmt → Bool
is_script [] = true
is_script (s ∷ ss) = is_stmt s && is_script ss

abbrev pub print_expr : Expr → List ℕ → List ℕ
print_expr (num n) rest = print_num n 10 false ++ rest
print_expr (var x) rest = x ++ rest

-- The arguments behind the first one, and the closing parenthesis.
abbrev pub print_more : List Expr → List ℕ → List ℕ
print_more [] rest = b')' ∷ rest
print_more (e ∷ es) rest = b',' ∷ print_expr e (print_more es rest)

abbrev pub print_args : List Expr → List ℕ → List ℕ
print_args [] rest = b')' ∷ rest
print_args (e ∷ es) rest = print_expr e (print_more es rest)

abbrev pub print_stmt : Stmt → List ℕ → List ℕ
print_stmt (store x e) rest = x ++ b'=' ∷ print_expr e (b';' ∷ rest)
print_stmt (invoke f es) rest = f ++ b'(' ∷ print_args es (b';' ∷ rest)

abbrev pub print_script : List Stmt → List ℕ
print_script [] = []
print_script (s ∷ ss) = print_stmt s (print_script ss)

-- A number is read modulo 2 ^ 32; a variable that is not set is 0.
abbrev pub expr_value : List Symbol → Expr → ℕ
expr_value symbols (num n) = u32 n
expr_value symbols (var x) = Option.get_or (symbol_get x (length x) symbols) 0

-- An assignment is `symbol_set`; where that fails (a name of 32 bytes or more, a full table) the
-- variables stay as they are. Of the arguments of a call, the first eight count.
abbrev pub run_stmt : Stmt → Env → Env
run_stmt (store x e) env = record env {
  symbols =
      Option.get_or (symbol_set x (length x) (expr_value env.symbols e) env.symbols) env.symbols;
  console = console_print (codes "[SerpentC] Variable assigned.") env.console;
}
run_stmt (invoke f es) env =
    let args = take 8 (map (expr_value env.symbols) es) in
    let (known, out_result, screen) = dispatch_builtin f (length f) args env.ticks env.screen in
    let message =
      if known
      then codes "[SerpentC] Command executed."
      else codes "[SerpentC] Error: unknown function." in
    record env { screen = screen; console = console_print message env.console }

abbrev pub run_script : List Stmt → Env → Env
run_script [] env = env
run_script (s ∷ ss) env = run_script ss (run_stmt s env)
