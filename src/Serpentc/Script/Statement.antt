-- ===== src/Serpentc/Script/Statement.antt =====
-- One round of the interpreter on a printed statement.
use quetzal_os.Base.{
  ℕ, suc, ◌+◌, ◌≤◌, ◌<◌, ◌≡◌, refl, ap, ◌∙◌, true, false, ◌||◌, List, [], ◌∷◌, map, Option, some,
  take, length, length-append, length-drop, arith,
}
use quetzal_os.Lexer.{
  TokenType, eof, error, identifier, assign, semicolon, lparen, rparen, scan, skip_space,
}
use quetzal_os.Base.{codes}
use quetzal_os.Console.{console_print}
use quetzal_os.Serial.{print_num}
use quetzal_os.SymbolTable.{assign_symbol}
use quetzal_os.SymbolTable.Within.{assign_symbol_within}
use quetzal_os.Serpentc.{
  Env, Parser, is, advance, parse_expression, args_loop, skip, statement, assigned, call,
}
use quetzal_os.Serpentc.Script.{
  Expr, Stmt, store, invoke, is_word, are_exprs, is_stmt, print_expr, print_more, print_args,
  print_stmt, expr_value, run_stmt, num, var,
}
use quetzal_os.Serpentc.Script.Names.{dispatch_within}
use quetzal_os.Serpentc.Script.Tokens.{
  Follows, At, Follows-At, At-Follows, word_token, expr_black, args_black, scan-lparen, scan-rparen,
  scan-assign, scan-semicolon, mark, mark_next, mark_is, word_in_hand, word_is, word_next,
}
use quetzal_os.Serpentc.Script.Args.{parse_expression-Parsed, ReadArgs, args_loop-ReadArgs}

-- A round that leaves the script at `rest` and the state `after`.
pub record Ran (src rest : List ℕ) (after : Env) (r : Option (Parser × Env)) : Type 0 where
  pub next : Parser
  pub returns : r ≡ some (next, after)
  pub here : At src rest next

skip-mark :
    {src rest : List ℕ} {p : Parser} (c : ℕ) (k : TokenType)
    → At src (c ∷ rest) p
    → scan (c ∷ rest) ≡ mark k (c ∷ rest)
    → skip_space rest ≡ 0
    → At src rest (skip k p)
unfolding skip
skip-mark {src} {rest} {p} c k a reads black =
    let found : is k p ≡ true = mark_is rest c k k a reads ∙ ground arith in
    rw found (mark_next rest c k a reads black)

-- The two statements, with the parts as they were read.
module _ (p : Parser) (env : Env) (name : is identifier p ≡ true) where
  statement_store :
      let r = parse_expression env.symbols (advance (advance p)) in
      is assign (advance p) ≡ true
      → statement p env ≡ some (skip semicolon r.1, assigned p.tok r.0 env)
  unfolding statement
  statement_store sets = rw (name, sets) refl

  statement_invoke :
      {args : List ℕ} {last : Parser}
      → is assign (advance p) ≡ false
      → is lparen (advance p) ≡ true
      → args_loop env.symbols (length p.lex.src + 2) (advance (advance p)) [] ≡ some (args, last)
      → statement p env ≡ some (skip semicolon (skip rparen last), call p.tok args env)
  unfolding statement
  statement_invoke other opens read = rw (name, other, opens, read) refl

assigned_word :
    (x rest : List ℕ) (e : Expr) (env : Env)
    → assigned (word_token x rest) (expr_value env.symbols e) env ≡ run_stmt (store x e) env
unfolding assigned assign_symbol
assigned_word x rest e env =
    ap
      (λ t. record env {
        symbols = t;
        console = console_print (codes "[SerpentC] Variable assigned.") env.console;
      })
      (assign_symbol_within rest x (expr_value env.symbols e) env.symbols)

call_word :
    (f rest : List ℕ) (es : List Expr) (env : Env)
    → call (word_token f rest) (take 8 (map (expr_value env.symbols) es)) env
      ≡ run_stmt (invoke f es) env
unfolding call
call_word f rest es env =
    rw (dispatch_within rest f (take 8 (map (expr_value env.symbols) es)) env.ticks env.screen) refl

pub length-print_expr : (e : Expr) (t : List ℕ) → length t ≤ length (print_expr e t)
length-print_expr (num n) t = omega (arith, length-append (print_num n 10 false) t)
length-print_expr (var x) t = omega (arith, length-append x t)

pub length-print_more :
    (es : List Expr) (t : List ℕ) → length es + length t < length (print_more es t)
length-print_more [] t = omega arith
length-print_more (e ∷ es) t =
    omega (arith, length-print_more es t, length-print_expr e (print_more es t))

module _ (src : List ℕ) (p : Parser) (env : Env) (rest : List ℕ) (black : skip_space rest ≡ 0) where
  store-Ran :
      (x : List ℕ) (e : Expr)
      → is_stmt (store x e) ≡ true
      → At src (print_stmt (store x e) rest) p
      → Ran src rest (run_stmt (store x e) env) (statement p env)
  unfolding skip_space
  store-Ran x e ok a =
      let word : is_word x ≡ true = ground arith in
      let text = print_expr e (b';' ∷ rest) in
      let hand = word_in_hand x (b'=' ∷ text) word refl a in
      let p1 = word_next x (b'=' ∷ text) word refl a refl in
      let equals = mark_is text b'=' assign assign p1 (scan-assign text) in
      let p2 =
        mark_next text b'=' assign p1 (scan-assign text)
          (expr_black e (b';' ∷ rest) (ground arith) refl) in
      let read =
        parse_expression-Parsed env.symbols src e (b';' ∷ rest) (advance (advance p)) (ground arith)
          refl refl p2 in
      let q = skip semicolon (parse_expression env.symbols (advance (advance p))).1 in
      record {
        next = q;
        returns =
            statement_store p env (word_is x (b'=' ∷ text) word refl a identifier) equals
            ∙ ap (λ v. some (q, assigned p.tok v env)) read.value
            ∙ ap (λ t. some (q, assigned t (expr_value env.symbols e) env)) hand
            ∙ ap (λ s. some (q, s)) (assigned_word x (b'=' ∷ text) e env);
        here = skip-mark b';' semicolon read.next (scan-semicolon rest) black;
      }

  args_read :
      (es : List Expr) (t : List ℕ) (q : Parser)
      → are_exprs es ≡ true
      → At src (print_args es t) q
      → length (print_args es t) ≤ length src
      → ReadArgs env.symbols src t
          (take 8 (map (expr_value env.symbols) es))
          (args_loop env.symbols (length src + 2) q [])
  unfolding args_loop
  args_read [] t q ok a fits =
      let more : length src + 2 ≡ suc (length src + 1) = omega arith in
      let closes = mark_is t b')' rparen rparen a (scan-rparen t) in
      rw (more, closes) (record { last = q; returns = refl; next = a })
  args_read (e ∷ es) t q ok a fits =
      args_loop-ReadArgs env.symbols src e es t (length src + 2) q [] ok
        (omega (arith, length-print_more es t, length-print_expr e (print_more es t))) (omega arith)
        a

  invoke-Ran :
      (f : List ℕ) (es : List Expr)
      → is_stmt (invoke f es) ≡ true
      → At src (print_stmt (invoke f es) rest) p
      → Ran src rest (run_stmt (invoke f es) env) (statement p env)
  unfolding skip_space
  invoke-Ran f es ok a =
      let word : is_word f ≡ true = ground arith in
      let text = print_args es (b';' ∷ rest) in
      let hand = word_in_hand f (b'(' ∷ text) word refl a in
      let p1 = word_next f (b'(' ∷ text) word refl a refl in
      let opens = mark_is text b'(' lparen lparen p1 (scan-lparen text) in
      let other = mark_is text b'(' lparen assign p1 (scan-lparen text) in
      let f2 : Follows src text (advance p) =
        At-Follows p1 (rw (scan-lparen text) refl) (args_black es (b';' ∷ rest) (ground arith)) in
      let read =
        args_read es (b';' ∷ rest) (advance (advance p)) (ground arith)
          (Follows-At src text (advance p) f2)
          (omega (arith, ap length f2.here, length-drop (advance p).lex.pos src)) in
      let args = take 8 (map (expr_value env.symbols) es) in
      let q = skip semicolon (skip rparen read.last) in
      record {
        next = q;
        returns =
            statement_invoke p env (word_is f (b'(' ∷ text) word refl a identifier) other opens (
              ap (λ l. args_loop env.symbols (length l + 2) (advance (advance p)) []) a.source
              ∙ read.returns)
            ∙ ap (λ t. some (q, call t args env)) hand
            ∙ ap (λ s. some (q, s)) (call_word f (b'(' ∷ text) es env);
        here =
            skip-mark b';' semicolon
              (skip-mark b')' rparen read.next (scan-rparen (b';' ∷ rest)) refl)
              (scan-semicolon rest) black;
      }

pub statement-Ran :
    (s : Stmt) (src rest : List ℕ) (p : Parser) (env : Env)
    → is_stmt s ≡ true
    → skip_space rest ≡ 0
    → At src (print_stmt s rest) p
    → Ran src rest (run_stmt s env) (statement p env)
statement-Ran (store x e) src rest p env ok black a = store-Ran src p env rest black x e ok a
statement-Ran (invoke f es) src rest p env ok black a = invoke-Ran src p env rest black f es ok a

pub stmt_goes :
    (s : Stmt) (src rest : List ℕ) (p : Parser)
    → is_stmt s ≡ true
    → At src (print_stmt s rest) p
    → (is eof p || is error p) ≡ false
stmt_goes (store x e) src rest p ok a =
    let text = b'=' ∷ print_expr e (b';' ∷ rest) in
    rw (word_is x text (ground arith) refl a eof, word_is x text (ground arith) refl a error) refl
stmt_goes (invoke f es) src rest p ok a =
    let text = b'(' ∷ print_args es (b';' ∷ rest) in
    rw (word_is f text (ground arith) refl a eof, word_is f text (ground arith) refl a error) refl
