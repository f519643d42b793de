-- ===== src/Serpentc/Total.antt =====
-- Every script comes to an end.
use quetzal_os.Base.{
  ℕ, zero, suc, ◌+◌, ◌≤◌, ◌<◌, ◌≡◌, refl, ◌||◌, inl, inr, List, [], Option, some, length,
  Bool-cases, arith,
}
use quetzal_os.Lexer.{
  Token, eof, error, identifier, number, rparen, lparen, assign, semicolon, lexer_init,
}
use quetzal_os.SymbolTable.{Symbol}
use quetzal_os.Serpentc.{
  Env, Parser, advance, is, skip, parse_expression, args_loop, call, assigned, statement, eval_loop,
  serpentc_eval,
}
use quetzal_os.Serpentc.Progress.{
  Read, rounds, Behind, IsInside, advance-Behind, Behind-IsInside, Behind-advance, Behind-skip,
  Behind-parse_expression, args_loop-Read,
}

-- What one round of the interpreter does to the state: nothing, one assignment or one call.
pub data Change (e : Env) : Env → Type 0 where
  unchanged : Change e e
  assigns : (name : Token) (val : ℕ) → Change e (assigned name val e)
  calls : (name : Token) (args : List ℕ) → length args ≤ 8 → Change e (call name args e)

-- A round goes on in the script.
pub record Stepped (p : Parser) (e : Env) (r : Option (Parser × Env)) : Type 0 where
  pub next : Parser
  pub after : Env
  pub returns : r ≡ some (next, after)
  pub behind : Behind p next
  pub change : Change e after

args_loop_init :
    (p : Parser) (symbols : List Symbol)
    → IsInside p
    → Read p (args_loop symbols (length p.lex.src + 2) (advance (advance p)) [])
args_loop_init p symbols h =
    let b = Behind-advance (advance-Behind p h) in
    args_loop-Read symbols p (length p.lex.src + 2) (advance (advance p)) []
      (omega (arith, b.fewer)) b (omega arith)

statement-Stepped : (p : Parser) (e : Env) → IsInside p → Stepped p e (statement p e)
unfolding statement
statement-Stepped p e h =
    let b = advance-Behind p h in
    let q = advance p in
    let val = (parse_expression e.symbols (advance q)).0 in
    let read = args_loop_init p e.symbols h in
    elim (Bool-cases (is identifier p)) [
      | inl name ↦ elim (Bool-cases (is assign q)) [
        | inl sets ↦
            rw (name, sets)
              (record {
                next = skip semicolon (parse_expression e.symbols (advance q)).1;
                after = assigned p.tok val e;
                returns = refl;
                behind =
                    Behind-skip semicolon (Behind-parse_expression e.symbols (Behind-advance b));
                change = assigns p.tok val;
              })
        | inr other ↦ elim (Bool-cases (is lparen q)) [
          | inl opens ↦
              rw (name, other, opens, read.returns)
                (record {
                  next = skip semicolon (skip rparen read.last);
                  after = call p.tok read.args e;
                  returns = refl;
                  behind = Behind-skip semicolon (Behind-skip rparen read.behind);
                  change = calls p.tok read.args read.at_most;
                })
          | inr rest ↦
              rw (name, other, rest)
                (record {
                  next = advance q;
                  after = e;
                  returns = refl;
                  behind = Behind-advance b;
                  change = unchanged;
                })
        ]
      ]
      | inr other ↦
          rw other (record { next = q; after = e; returns = refl; behind = b; change = unchanged })
    ]

-- Any number of changes, one behind the other.
pub data Changes : Env → Env → Type 0 where
  done : {e : Env} → Changes e e
  next : {e f g : Env} → Change e f → Changes f g → Changes e g

pub record Evaluated (e : Env) (r : Option Env) : Type 0 where
  pub after : Env
  pub returns : r ≡ some after
  pub changes : Changes e after

eval_loop-Evaluated :
    (fuel : ℕ) (p : Parser) (e : Env)
    → rounds p < fuel
    → IsInside p
    → Evaluated e (eval_loop fuel p e)
unfolding eval_loop
eval_loop-Evaluated zero p e enough h = absurd (omega arith)
eval_loop-Evaluated (suc fuel) p e enough h =
    let step = statement-Stepped p e h in
    elim (Bool-cases (is eof p || is error p)) [
      | inl ends ↦ rw ends (record { after = e; returns = refl; changes = done })
      | inr goes ↦
          let less : rounds step.next < fuel = ground (arith, step.behind.fewer) in
          let rest =
            eval_loop-Evaluated fuel step.next step.after less (Behind-IsInside step.behind) in
          rw (goes, step.returns)
            (record {
              after = rest.after;
              returns = rest.returns;
              changes = next step.change rest.changes;
            })
    ]

-- `serpentc_eval` ends with every script in every state, and what it does to the state is a sequence
-- of assignments and of calls with at most eight arguments.
pub serpentc_eval-Evaluated : (script : List ℕ) (e : Env) → Evaluated e (serpentc_eval script e)
unfolding serpentc_eval lexer_init advance
serpentc_eval-Evaluated script e =
    let begin : Parser = record {
      lex = record { src = script; pos = 0 };
      tok = record { kind = number; start = []; length_of = 0; value = 0 };
    } in
    let b = advance-Behind begin (omega arith) in
    eval_loop-Evaluated (length script + 2) (advance begin) e (omega (arith, b.fewer))
      (Behind-IsInside b)
