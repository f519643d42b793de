-- ===== src/Serpentc/Script/Tokens.antt =====
-- A token in hand, and the tokens of a printed script.
use quetzal_os.Base.{
  ℕ, zero, suc, ◌+◌, ◌≡◌, refl, ap, ◌∙◌, true, false, inl, inr, List, [], ◌∷◌, ◌++◌, drop, length,
  ◌==◌, Bool-cases, arith,
}
use quetzal_os.Lexer.{
  TokenType, Token, error, identifier, number, assign, semicolon, lparen, rparen, comma, is_alpha,
  is_alnum, is_space, is_digit, char_type, scan, skip_space, lexer_next,
}
use quetzal_os.Lexer.Ident.{name_run, scan_identifier}
use quetzal_os.Serial.{print_num}
use quetzal_os.Serial.RoundTrip.{scan-print_num, IsBoundary}
use quetzal_os.Serpentc.{Parser, is, code_of, advance}
use quetzal_os.Serpentc.Script.{
  Expr, num, var, are_alnum, is_word, is_expr, are_exprs, print_expr, print_more, print_args,
}

-- What follows a token stands in the script from the lexer's place on, without white space.
pub record Follows (src rest : List ℕ) (p : Parser) : Type 0 where
  pub source : p.lex.src ≡ src
  pub here : drop p.lex.pos src ≡ rest
  pub black : skip_space rest ≡ 0

-- The token in hand is the first one of `s`, and the lexer stands behind it.
pub record At (src s : List ℕ) (p : Parser) : Type 0 where
  pub source : p.lex.src ≡ src
  pub behind : drop p.lex.pos src ≡ drop (scan s).length_of s
  pub token : p.tok ≡ scan s

drop_nil : (n : ℕ) → drop {A = ℕ} n [] ≡ []
drop_nil zero = refl
drop_nil (suc n) = refl

drop_add : (a b : ℕ) (xs : List ℕ) → drop (a + b) xs ≡ drop b (drop a xs)
drop_add zero b xs = let same : 0 + b ≡ b = omega arith in rw same refl
drop_add (suc a) b [] = rw (drop_nil (suc a + b), drop_nil b) refl
drop_add (suc a) b (x ∷ xs) =
    let same : suc a + b ≡ suc (a + b) = omega arith in rw same (drop_add a b xs)

pub Follows-At : (src s : List ℕ) (p : Parser) → Follows src s p → At src s (advance p)
unfolding advance lexer_next
Follows-At src s p f =
    let same : p.lex.pos + 0 ≡ p.lex.pos = omega arith in
    record {
      source = f.source;
      behind =
          rw (f.source, f.here, f.black, same, f.here)
            (drop_add p.lex.pos (scan s).length_of src ∙ rw f.here refl);
      token = rw (f.source, f.here, f.black, same, f.here) refl;
    }

pub drop_append : (xs ys : List ℕ) → drop (length xs) (xs ++ ys) ≡ ys
drop_append [] ys = refl
drop_append (x ∷ xs) ys = drop_append xs ys

-- Behind a token of `s`, of which `rest` is left, `rest` follows.
pub At-Follows :
    {src s rest : List ℕ} {p : Parser}
    → At src s p
    → drop (scan s).length_of s ≡ rest
    → skip_space rest ≡ 0
    → Follows src rest p
At-Follows a left black = record { source = a.source; here = a.behind ∙ left; black = black }

-- A letter, a digit or an underscore is no white space.
black_start : (c : ℕ) (cs : List ℕ) → is_alnum c ≡ true → skip_space (c ∷ cs) ≡ 0
unfolding skip_space
black_start c cs h = let black : is_space c ≡ false = ground arith in rw black refl

name_run_append :
    (x rest : List ℕ) → are_alnum x ≡ true → IsBoundary rest → name_run (x ++ rest) ≡ x
name_run_append [] [] all stops = refl
name_run_append [] (d ∷ rest) all stops = rw stops refl
name_run_append (c ∷ cs) rest all stops =
    let first : is_alnum c ≡ true = ground arith in
    rw first (ap (λ l. c ∷ l) (name_run_append cs rest (ground arith) stops))

abbrev pub word_token : List ℕ → List ℕ → Token
word_token x rest = record { kind = identifier; start = x ++ rest; length_of = length x; value = 0 }

pub scan-word :
    (x rest : List ℕ) → is_word x ≡ true → IsBoundary rest → scan (x ++ rest) ≡ word_token x rest
scan-word [] rest word stops = absurd (cc (word))
scan-word (c ∷ cs) rest word stops =
    let letter : is_alpha c ≡ true = ground arith in
    let alnum : is_alnum c ≡ true = ground arith in
    let all : are_alnum (c ∷ cs) ≡ true = ground arith in
    scan_identifier c (cs ++ rest) letter
    ∙ ap
        (λ l. record { kind = identifier; start = c ∷ cs ++ rest; length_of = length l; value = 0 })
        (name_run_append (c ∷ cs) rest all stops)

pub word_black : (x rest : List ℕ) → is_word x ≡ true → skip_space (x ++ rest) ≡ 0
word_black [] rest word = absurd (cc (word))
word_black (c ∷ cs) rest word = black_start c (cs ++ rest) (ground arith)

space_token : (c : ℕ) (cs : List ℕ) → is_space c ≡ true → (scan (c ∷ cs)).kind ≡ error
unfolding scan char_type
space_token c cs h =
    let zero_char : (c == 0) ≡ false = ground arith in
    let alpha : is_alpha c ≡ false = ground arith in
    let dig : is_digit c ≡ false = ground arith in rw (zero_char, alpha, dig) (ground arith)

number_black : (s : List ℕ) → (scan s).kind ≡ number → skip_space s ≡ 0
unfolding skip_space
number_black [] k = refl
number_black (c ∷ cs) k = elim (Bool-cases (is_space c)) [
  | inl space ↦ absurd (cc (space_token c cs space, k))
  | inr black ↦ rw black refl
]

pub expr_black :
    (e : Expr) (rest : List ℕ)
    → is_expr e ≡ true
    → IsBoundary rest
    → skip_space (print_expr e rest) ≡ 0
expr_black (num n) rest ok stops =
    number_black (print_num n 10 false ++ rest)
      (ap (λ (t : Token). t.kind) (scan-print_num n rest (ground arith) stops))
expr_black (var x) rest ok stops = word_black x rest ok

pub more-IsBoundary : (es : List Expr) (rest : List ℕ) → IsBoundary (print_more es rest)
more-IsBoundary [] rest = refl
more-IsBoundary (e ∷ es) rest = refl

pub more_black : (es : List Expr) (rest : List ℕ) → skip_space (print_more es rest) ≡ 0
unfolding skip_space
more_black [] rest = refl
more_black (e ∷ es) rest = refl

pub args_black :
    (es : List Expr) (rest : List ℕ) → are_exprs es ≡ true → skip_space (print_args es rest) ≡ 0
unfolding skip_space
args_black [] rest ok = refl
args_black (e ∷ es) rest ok =
    expr_black e (print_more es rest) (ground arith) (more-IsBoundary es rest)

-- The characters that are tokens.
abbrev pub mark : TokenType → List ℕ → Token
mark k s = record { kind = k; start = s; length_of = 1; value = 0 }

module _ (rest : List ℕ) where
  pub scan-comma : scan (b',' ∷ rest) ≡ mark comma (b',' ∷ rest)
  unfolding scan char_type
  scan-comma = refl

  pub scan-lparen : scan (b'(' ∷ rest) ≡ mark lparen (b'(' ∷ rest)
  unfolding scan char_type
  scan-lparen = refl

  pub scan-rparen : scan (b')' ∷ rest) ≡ mark rparen (b')' ∷ rest)
  unfolding scan char_type
  scan-rparen = refl

  pub scan-assign : scan (b'=' ∷ rest) ≡ mark assign (b'=' ∷ rest)
  unfolding scan char_type
  scan-assign = refl

  pub scan-semicolon : scan (b';' ∷ rest) ≡ mark semicolon (b';' ∷ rest)
  unfolding scan char_type
  scan-semicolon = refl

  -- The tokens from a mark on.
  pub mark_next :
      {src : List ℕ} {p : Parser} (c : ℕ) (k : TokenType)
      → At src (c ∷ rest) p
      → scan (c ∷ rest) ≡ mark k (c ∷ rest)
      → skip_space rest ≡ 0
      → At src rest (advance p)
  mark_next {src} {p} c k a reads black = Follows-At src rest p (At-Follows a (rw reads refl) black)

  pub mark_is :
      {src : List ℕ} {p : Parser} (c : ℕ) (k wanted : TokenType)
      → At src (c ∷ rest) p
      → scan (c ∷ rest) ≡ mark k (c ∷ rest)
      → is wanted p ≡ (code_of k == code_of wanted)
  mark_is c k wanted a reads = rw (a.token, reads) refl

-- A word in hand, and the token behind it.
module _ {src : List ℕ} {p : Parser} (x rest : List ℕ) (word : is_word x ≡ true)
    (stops : IsBoundary rest) (a : At src (x ++ rest) p) where
  pub word_in_hand : p.tok ≡ word_token x rest
  word_in_hand = a.token ∙ scan-word x rest word stops

  pub word_is : (wanted : TokenType) → is wanted p ≡ (1 == code_of wanted)
  word_is wanted = rw word_in_hand refl

  pub word_next : skip_space rest ≡ 0 → At src rest (advance p)
  word_next black =
      Follows-At src rest p
        (At-Follows a (rw (scan-word x rest word stops) (drop_append x rest)) black)
