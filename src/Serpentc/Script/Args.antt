-- ===== src/Serpentc/Script/Args.antt =====
-- Expressions and argument lists are read as they were printed.
use quetzal_os.Base.{
  ℕ, zero, suc, ◌≤◌, ◌<◌, ◌≡◌, refl, sym, ap, ◌∙◌, true, false, ◌||◌, inl, inr, List, [], ◌∷◌, ◌++◌,
  map, Option, some, append-nil, append_assoc, take, length, length-append, ltb, if◌then◌else◌,
  Bool-cases, ltb_iff, arith,
}
use quetzal_os.Lexer.{eof, error, identifier, number, rparen, comma, skip_space}
use quetzal_os.Serial.{print_num}
use quetzal_os.Serial.RoundTrip.{scan-print_num, IsBoundary}
use quetzal_os.SymbolTable.{Symbol}
use quetzal_os.SymbolTable.Within.{symbol_get_within}
use quetzal_os.Serpentc.{Parser, is, advance, parse_expression, args_loop}
use quetzal_os.Serpentc.Script.{
  Expr, num, var, is_expr, are_exprs, print_expr, print_more, expr_value,
}
use quetzal_os.Serpentc.Script.Tokens.{
  At, Follows-At, At-Follows, expr_black, more-IsBoundary, more_black, scan-comma, scan-rparen,
  mark_next, mark_is, word_in_hand, word_is, word_next, drop_append,
}

-- The value of an expression is read, and `rest` is in hand.
pub record Parsed (src rest : List ℕ) (val : ℕ) (r : ℕ × Parser) : Type 0 where
  pub value : r.0 ≡ val
  pub next : At src rest r.1

module _ (symbols : List Symbol) (src : List ℕ) where
  pub parse_expression-Parsed :
      (e : Expr) (rest : List ℕ) (p : Parser)
      → is_expr e ≡ true
      → IsBoundary rest
      → skip_space rest ≡ 0
      → At src (print_expr e rest) p
      → Parsed src rest (expr_value symbols e) (parse_expression symbols p)
  unfolding parse_expression
  parse_expression-Parsed (num n) rest p ok stops black a =
      let reads = scan-print_num n rest (ground arith) stops in
      let kind : is number p ≡ true = rw (a.token, reads) refl in
      rw kind (record {
        value = rw (a.token, reads) refl;
        next =
            Follows-At src rest p
              (At-Follows a (rw reads (drop_append (print_num n 10 false) rest)) black);
      })
  parse_expression-Parsed (var x) rest p ok stops black a =
      let hand = word_in_hand x rest ok stops a in
      rw (word_is x rest ok stops a number, word_is x rest ok stops a identifier)
        (record {
          value = rw (hand, symbol_get_within rest x symbols) refl;
          next = word_next x rest ok stops a black;
        })

  -- An expression is no closing parenthesis and no end.
  pub expr_goes :
      (e : Expr) (rest : List ℕ) (p : Parser)
      → is_expr e ≡ true
      → IsBoundary rest
      → At src (print_expr e rest) p
      → (is rparen p || is eof p || is error p) ≡ false
  expr_goes (num n) rest p ok stops a =
      rw (a.token, scan-print_num n rest (ground arith) stops) refl
  expr_goes (var x) rest p ok stops a =
      rw
        (
          word_is x rest ok stops a rparen,
          word_is x rest ok stops a eof,
          word_is x rest ok stops a error,
        )
        refl

  -- The arguments are read, and the closing parenthesis is in hand.
  pub record ReadArgs (rest args : List ℕ) (r : Option (List ℕ × Parser)) : Type 0 where
    pub last : Parser
    pub returns : r ≡ some (args, last)
    pub next : At src (b')' ∷ rest) last

  -- An argument is kept while there are fewer than eight.
  abbrev keep : List ℕ → ℕ → List ℕ
  keep args val = if ltb (length args) 8 then args ++ val ∷ [] else args

  take_all : (n : ℕ) (xs : List ℕ) → length xs ≤ n → take n xs ≡ xs
  take_all zero [] h = refl
  take_all zero (x ∷ xs) h = absurd (omega arith)
  take_all (suc n) [] h = refl
  take_all (suc n) (x ∷ xs) h = ap (λ l. x ∷ l) (take_all n xs (omega arith))

  take_kept : (n : ℕ) (xs ys : List ℕ) → n ≤ length xs → take n (xs ++ ys) ≡ take n xs
  take_kept zero xs ys h = refl
  take_kept (suc n) [] ys h = absurd (omega arith)
  take_kept (suc n) (x ∷ xs) ys h = ap (λ l. x ∷ l) (take_kept n xs ys (omega arith))

  keep_lem :
      (args vals : List ℕ) (val : ℕ)
      → length args ≤ 8
      → (length (keep args val) ≤ 8)
        × (take 8 (keep args val ++ vals) ≡ take 8 (args ++ val ∷ vals))
  keep_lem args vals val h = elim (Bool-cases (ltb (length args) 8)) [
    | inl room ↦ rw room (
      omega (arith, length-append args (val ∷ []), (ltb_iff (length args) 8).0 room),
      ap (take 8) (append_assoc args (val ∷ []) vals),
    )
    | inr full ↦
        let many : 8 ≤ length args = ground arith in
        rw full (h, take_kept 8 args vals many ∙ sym (take_kept 8 args (val ∷ vals) many))
  ]

  pub args_loop-ReadArgs :
      (e : Expr) (es : List Expr) (rest : List ℕ) (fuel : ℕ) (p : Parser) (args : List ℕ)
      → are_exprs (e ∷ es) ≡ true
      → length es < fuel
      → length args ≤ 8
      → At src (print_expr e (print_more es rest)) p
      → ReadArgs rest
          (take 8 (args ++ map (expr_value symbols) (e ∷ es)))
          (args_loop symbols fuel p args)
  unfolding args_loop
  args_loop-ReadArgs e es rest zero p args ok enough few a = absurd (omega arith)
  args_loop-ReadArgs e [] rest (suc fuel) p args ok enough few a =
      let stops = more-IsBoundary [] rest in
      let read =
        parse_expression-Parsed e (b')' ∷ rest) p (ground arith) stops (more_black [] rest) a in
      let q = (parse_expression symbols p).1 in
      let ends : is comma q ≡ false = mark_is rest b')' rparen comma read.next (scan-rparen rest) in
      let kept = keep_lem args [] (expr_value symbols e) few in
      let k = keep args (expr_value symbols e) in
      let same = sym (take_all 8 k kept.0) ∙ ap (take 8) (sym (append-nil k)) ∙ kept.1 in
      rw (expr_goes e (b')' ∷ rest) p (ground arith) stops a, ends, read.value)
        (record { last = q; returns = ap (λ l. some (l, q)) same; next = read.next })
  args_loop-ReadArgs e (e' ∷ es) rest (suc fuel) p args ok enough few a =
      let more = print_expr e' (print_more es rest) in
      let stops = more-IsBoundary (e' ∷ es) rest in
      let read =
        parse_expression-Parsed e (b',' ∷ more) p (ground arith) stops (more_black (e' ∷ es) rest)
          a in
      let q = (parse_expression symbols p).1 in
      let goes : is comma q ≡ true = mark_is more b',' comma comma read.next (scan-comma more) in
      let kept = keep_lem args (map (expr_value symbols) (e' ∷ es)) (expr_value symbols e) few in
      let inside =
        mark_next more b',' comma read.next (scan-comma more)
          (expr_black e' (print_more es rest) (ground arith) (more-IsBoundary es rest)) in
      let others =
        args_loop-ReadArgs e' es rest fuel (advance q) (keep args (expr_value symbols e))
          (ground arith) (omega arith) kept.0 inside in
      rw (expr_goes e (b',' ∷ more) p (ground arith) stops a, goes, read.value)
        (record {
          last = others.last;
          returns = others.returns ∙ rw kept.1 refl;
          next = others.next;
        })
