-- ===== src/Serpentc/Progress.antt =====
-- How far the parser moves: every token that is read leaves fewer to read.
use quetzal_os.Base.{
  ℕ, zero, suc, ◌-◌, ◌≤◌, ◌<◌, ◌≡◌, refl, ap, ◌∙◌, Bool, true, false, ◌||◌, ◌⊎◌, inl, inr, List, [],
  ◌∷◌, ◌++◌, Option, some, length, length-append, ltb, if◌then◌else◌, Bool-cases, arith,
}
use quetzal_os.Lexer.{TokenType, eof, error, rparen, comma}
use quetzal_os.Lexer.Progress.{lexer_next_moves}
use quetzal_os.SymbolTable.{Symbol}
use quetzal_os.Serpentc.{Parser, advance, is, skip, parse_expression, args_loop}

-- The bytes of the script that the lexer has not read.
abbrev pub unread : Parser → ℕ
unread p = length p.lex.src - p.lex.pos

-- The rounds that are left at most: none at the end of the script.
abbrev pub rounds : Parser → ℕ
rounds p = if is eof p then 0 else suc (unread p)

-- `q` is behind `p` in the same script, by a token at least.
pub record Behind (p q : Parser) : Type 0 where
  pub same : q.lex.src ≡ p.lex.src
  pub inside : q.lex.pos ≤ length p.lex.src
  pub further : unread q ≤ unread p
  pub fewer : rounds q ≤ unread p

abbrev pub IsInside : Parser → Type 0
IsInside p = p.lex.pos ≤ length p.lex.src

pub advance-Behind : (p : Parser) → IsInside p → Behind p (advance p)
unfolding advance
advance-Behind p h =
    let (same, back, inside, moves) = lexer_next_moves p.lex h in
    record {
      same = same;
      inside = inside;
      further = rw same (omega arith);
      fewer = elim moves [
        | inl last ↦ rw (same, last) (omega arith)
        | inr more ↦ rw same (ground arith)
      ];
    }

pub Behind-IsInside : {p q : Parser} → Behind p q → IsInside q
Behind-IsInside b = rw b.same b.inside

pub Behind-advance : {p q : Parser} → Behind p q → Behind p (advance q)
Behind-advance {p} {q} b =
    let a = advance-Behind q (Behind-IsInside b) in
    record {
      same = a.same ∙ b.same;
      inside = omega (arith, a.inside, ap length b.same);
      further = omega (arith, a.further, b.further);
      fewer = omega (arith, a.fewer, b.further);
    }

-- An advance in one of two branches.
pub Behind-if :
    {p q r : Parser} (b : Bool) → Behind p q → Behind p r → Behind p (if b then q else r)
Behind-if true x y = x
Behind-if false x y = y

pub Behind-skip : {p q : Parser} (kind : TokenType) → Behind p q → Behind p (skip kind q)
unfolding skip
Behind-skip {p} {q} kind b = Behind-if (is kind q) (Behind-advance b) b

pub parse_expression-next :
    (symbols : List Symbol) (p : Parser)
    → ((parse_expression symbols p).1 ≡ p) ⊎ ((parse_expression symbols p).1 ≡ advance p)
unfolding parse_expression
parse_expression-next symbols p = ground arith

pub Behind-parse_expression :
    {p q : Parser} (symbols : List Symbol) → Behind p q → Behind p (parse_expression symbols q).1
Behind-parse_expression {p} {q} symbols b = elim (parse_expression-next symbols q) [
  | inl stays ↦ rw stays b
  | inr moves ↦ rw moves (Behind-advance b)
]

-- The result of the loop over the arguments: at most eight of them.
pub record Read (p : Parser) (r : Option (List ℕ × Parser)) : Type 0 where
  pub args : List ℕ
  pub last : Parser
  pub returns : r ≡ some (args, last)
  pub at_most : length args ≤ 8
  pub behind : Behind p last

pub appended-le :
    (args : List ℕ) (val : ℕ)
    → length args ≤ 8
    → length (if ltb (length args) 8 then args ++ val ∷ [] else args) ≤ 8
appended-le args val h = ground (arith, length-append args (val ∷ []))

module _ (symbols : List Symbol) (start : Parser) where
  -- A round behind a comma has fewer rounds left.
  pub next_round :
      (fuel : ℕ) (p : Parser)
      → rounds p < suc fuel
      → is eof p ≡ false
      → IsInside p
      → rounds (advance (parse_expression symbols p).1) < fuel
  next_round fuel p enough more h =
      let before : unread p < fuel = ground arith in
      elim (parse_expression-next symbols p) [
        | inl stays ↦ rw stays (omega (arith, (advance-Behind p h).fewer))
        | inr moves ↦ rw moves (
            omega (
              arith,
              (advance-Behind p h).further,
              (advance-Behind (advance p) (Behind-IsInside (advance-Behind p h))).fewer,
            ))
      ]

  pub args_loop-Read :
      (fuel : ℕ) (p : Parser) (args : List ℕ)
      → rounds p < fuel
      → Behind start p
      → length args ≤ 8
      → Read start (args_loop symbols fuel p args)
  unfolding args_loop
  args_loop-Read zero p args enough b few = absurd (omega arith)
  args_loop-Read (suc fuel) p args enough b few =
      let val = (parse_expression symbols p).0 in
      let q = (parse_expression symbols p).1 in
      let behind = Behind-parse_expression symbols b in
      elim (Bool-cases (is rparen p || is eof p || is error p)) [
        | inl ends ↦
            rw ends (record { args = args; last = p; returns = refl; at_most = few; behind = b })
        | inr goes ↦ elim (Bool-cases (is comma q)) [
          | inl more ↦
              let less : rounds (advance q) < fuel =
                next_round fuel p enough (ground arith) (Behind-IsInside b) in
              rw (goes, more)
                (args_loop-Read fuel (advance q)
                  (if ltb (length args) 8 then args ++ val ∷ [] else args) less
                  (Behind-advance behind) (appended-le args val few))
          | inr done ↦
              rw (goes, done)
                (record {
                  args = if ltb (length args) 8 then args ++ val ∷ [] else args;
                  last = q;
                  returns = refl;
                  at_most = appended-le args val few;
                  behind = behind;
                })
        ]
      ]
