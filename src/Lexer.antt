-- ===== src/Lexer.antt =====
-- kernel/serpentc/lexer.c. A script is the list of its bytes before the NUL; `&src[pos]` is the list
-- from `pos` on, and a read behind the last byte is the NUL. Bytes are compared as numbers: those
-- from 128 on, which are negative as `char`, are in none of the classes either way.
pub mod Progress
pub mod Number
pub mod Ident
mod Examples
use quetzal_os.Base.{
  ℕ, zero, suc, ◌+◌, ◌-◌, ◌*◌, ◌/◌, ◌%◌, ◌^◌, ◌≤◌, ◌<◌, ◌≡◌, ◌≢◌, ◌↔◌, refl, sym, ap, ◌∙◌, fun_ext,
  Bool, true, false, not, ◌&&◌, ◌||◌, ◌⊎◌, inl, inr, List, [], ◌∷◌, ◌++◌, map, Option, none, some,
  append-nil, append_assoc, min, bit_and, bit_or, byte_set, byte_clear, byte_test, get_or, set,
  take, drop, replicate, length, length-append, length-set, length-replicate, length-take,
  length-drop, get_or-set_self, get_or-set_ne, take-append-drop, ltb, leb, ◌==◌, if◌then◌else◌,
  Bool-cases, Bool-ext, ==_iff, ltb_iff, arith, all_below, all_below_sound, codes, cstr, copy_str,
  length-copy_str, cstr-copy_str, length-cstr, cstr-cstr, length-take-cstr, u8, u16, u32, u64,
  sub_u32,
}

abbrev pub is_digit : ℕ → Bool
is_digit c = leb b'0' c && leb c b'9'

abbrev pub is_hex_digit : ℕ → Bool
is_hex_digit c = leb b'0' c && leb c b'9' || leb b'a' c && leb c b'f' || leb b'A' c && leb c b'F'

abbrev pub is_alpha : ℕ → Bool
is_alpha c = leb b'a' c && leb c b'z' || leb b'A' c && leb c b'Z' || c == b'_'

abbrev pub is_alnum : ℕ → Bool
is_alnum c = is_alpha c || is_digit c

abbrev pub is_space : ℕ → Bool
is_space c = c == b' ' || c == b'\t' || c == 13 || c == b'\n'

pub data TokenType : Type 0 where
  eof identifier number lparen rparen comma assign semicolon error : TokenType

-- `token_t`; `kind` is its field `type`, and `start` the bytes from the token's first on.
pub record Token : Type 0 where
  pub kind : TokenType
  pub start : List ℕ
  pub length_of : ℕ
  pub value : ℕ

-- `lexer_t`
pub record Lexer : Type 0 where
  pub src : List ℕ
  pub pos : ℕ

-- `lexer_init`; `none` is the null pointer.
unfoldable pub lexer_init : Option (List ℕ) → Lexer
lexer_init none = record { src = []; pos = 0 }
lexer_init (some src) = record { src = src; pos = 0 }

-- The loops of `lexer_next`, each over the bytes from `pos` on. The first returns the number of
-- bytes it skips; the second `len`; the others `val` and `len`.
unfoldable pub skip_space : List ℕ → ℕ
skip_space [] = 0
skip_space (c ∷ cs) = let more = skip_space cs in if is_space c then suc more else 0

unfoldable pub ident_loop : List ℕ → ℕ → ℕ
ident_loop [] len = len
ident_loop (c ∷ cs) len = if is_alnum c then ident_loop cs (len + 1) else len

unfoldable pub hex_value : ℕ → ℕ
hex_value hc =
    if leb b'0' hc && leb hc b'9'
    then hc - b'0'
    else if leb b'a' hc && leb hc b'f'
    then 10 + (hc - b'a')
    else if leb b'A' hc && leb hc b'F'
    then 10 + (hc - b'A')
    else 0

unfoldable pub hex_loop : List ℕ → ℕ → ℕ → ℕ × ℕ
hex_loop [] val len = (val, len)
hex_loop (c ∷ cs) val len =
    if is_hex_digit c
    then hex_loop cs (bit_or (u32 (val * 16)) (hex_value c)) (len + 1)
    else (val, len)

unfoldable pub dec_loop : List ℕ → ℕ → ℕ → ℕ × ℕ
dec_loop [] val len = (val, len)
dec_loop (c ∷ cs) val len =
    if is_digit c then dec_loop cs (u32 (u32 (val * 10) + (c - b'0'))) (len + 1) else (val, len)

-- The final switch.
unfoldable pub char_type : ℕ → TokenType
char_type c =
    if c == b'('
    then lparen
    else if c == b')'
    then rparen
    else if c == b','
    then comma
    else if c == b'='
    then assign
    else if c == b';'
    then semicolon
    else error

-- What `lexer_next` does behind the white space: the token, and by how much `pos` goes on.
unfoldable pub scan : List ℕ → Token
scan [] = record { kind = eof; start = []; length_of = 0; value = 0 }
scan (c ∷ cs) =
    let (hex, hex_len) = hex_loop (drop 1 cs) 0 2 in
    let (dec, dec_len) = dec_loop (c ∷ cs) 0 0 in
    if c == 0
    then record { kind = eof; start = c ∷ cs; length_of = 0; value = 0 }
    else if is_alpha c
    then record { kind = identifier; start = c ∷ cs; length_of = ident_loop (c ∷ cs) 0; value = 0 }
    else if is_digit c
    then (if c == b'0' && (get_or cs 0 0 == b'x' || get_or cs 0 0 == b'X')
        then record { kind = number; start = c ∷ cs; length_of = hex_len; value = hex }
        else record { kind = number; start = c ∷ cs; length_of = dec_len; value = dec })
    else record { kind = char_type c; start = c ∷ cs; length_of = 1; value = 0 }

unfoldable pub lexer_next : Lexer → Lexer × Token
lexer_next lex =
    let pos = lex.pos + skip_space (drop lex.pos lex.src) in
    let tok = scan (drop pos lex.src) in (record lex { pos = pos + tok.length_of }, tok)

-- The text of a token.
abbrev pub text : Token → List ℕ
text tok = take tok.length_of tok.start
