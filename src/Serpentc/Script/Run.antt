-- ===== src/Serpentc/Script/Run.antt =====
-- A printed script does what its statements mean.
use quetzal_os.Base.{
  ℕ, zero, suc, ◌+◌, ◌≤◌, ◌<◌, ◌≡◌, refl, true, List, [], ◌∷◌, some, length, length-append, arith,
}
use quetzal_os.Lexer.{eof, error, scan, skip_space, lexer_init}
use quetzal_os.Serpentc.{Env, Parser, is, advance, eval_loop, serpentc_eval}
use quetzal_os.Serpentc.Script.{
  Expr, Stmt, store, invoke, is_script, print_expr, print_more, print_args, print_stmt,
  print_script, run_stmt, run_script,
}
use quetzal_os.Serpentc.Script.Tokens.{Follows, At, Follows-At, word_black}
use quetzal_os.Serpentc.Script.Statement.{
  statement-Ran, stmt_goes, length-print_expr, length-print_more,
}

script_black : (ss : List Stmt) → is_script ss ≡ true → skip_space (print_script ss) ≡ 0
unfolding skip_space
script_black [] ok = refl
script_black (store x e ∷ ss) ok = word_black x _ (ground arith)
script_black (invoke f es ∷ ss) ok = word_black f _ (ground arith)

length-print_args : (es : List Expr) (t : List ℕ) → length t ≤ length (print_args es t)
length-print_args [] t = omega arith
length-print_args (e ∷ es) t =
    omega (arith, length-print_more es t, length-print_expr e (print_more es t))

length-print_stmt : (s : Stmt) (t : List ℕ) → length t < length (print_stmt s t)
length-print_stmt (store x e) t =
    omega (arith, length-append x (b'=' ∷ print_expr e (b';' ∷ t)), length-print_expr e (b';' ∷ t))
length-print_stmt (invoke f es) t =
    omega
      (arith, length-append f (b'(' ∷ print_args es (b';' ∷ t)), length-print_args es (b';' ∷ t))

length-print_script : (ss : List Stmt) → length ss ≤ length (print_script ss)
length-print_script [] = omega arith
length-print_script (s ∷ ss) =
    omega (arith, length-print_script ss, length-print_stmt s (print_script ss))

eval_loop-run_script :
    (ss : List Stmt) (src : List ℕ) (fuel : ℕ) (p : Parser) (env : Env)
    → is_script ss ≡ true
    → length ss < fuel
    → At src (print_script ss) p
    → eval_loop fuel p env ≡ some (run_script ss env)
unfolding eval_loop scan
eval_loop-run_script ss src zero p env ok enough a = absurd (omega arith)
eval_loop-run_script [] src (suc fuel) p env ok enough a =
    let ends : is eof p ≡ true = rw a.token refl in rw ends refl
eval_loop-run_script (s ∷ ss) src (suc fuel) p env ok enough a =
    let round =
      statement-Ran s src (print_script ss) p env (ground arith) (script_black ss (ground arith))
        a in
    rw (stmt_goes s src (print_script ss) p (ground arith) a, round.returns)
      (eval_loop-run_script ss src fuel round.next (run_stmt s env) (ground arith) (omega arith)
        round.here)

-- A script of assignments `name=value;` and calls `name(value,value);`, whose names are a letter or
-- an underscore with letters, digits and underscores behind it, and whose values are such names and
-- the decimal digits that `print_num` prints of 64-bit numbers, does in every state exactly what its
-- statements mean, one behind the other: an assignment is `symbol_set` of the name with the value,
-- and where that fails (with a name of 32 bytes or more, or when the table is full) the variables
-- stay as they are; a call hands the values of its first eight arguments to the builtin; and each
-- writes its message. The interpreter comes to the end of the script.
pub serpentc_eval-print_script :
    (ss : List Stmt) (env : Env)
    → is_script ss ≡ true
    → serpentc_eval (print_script ss) env ≡ some (run_script ss env)
unfolding serpentc_eval lexer_init advance
serpentc_eval-print_script ss env ok =
    let src = print_script ss in
    let begin : Parser = record {
      lex = record { src = src; pos = 0 };
      tok = record { kind = error; start = []; length_of = 0; value = 0 };
    } in
    let first : Follows src src begin = record {
      source = refl;
      here = refl;
      black = script_black ss ok;
    } in
    eval_loop-run_script ss src (length src + 2) (advance begin) env ok
      (omega (arith, length-print_script ss)) (Follows-At src src begin first)
