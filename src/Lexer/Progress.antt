-- ===== src/Lexer/Progress.antt =====
-- `lexer_next` stays within the script and moves on with every token but the end.
use quetzal_os.Base.{
  ℕ, ◌+◌, ◌-◌, ◌*◌, ◌≤◌, ◌<◌, ◌≡◌, refl, true, false, ◌&&◌, ◌||◌, ◌⊎◌, inl, inr, List, [], ◌∷◌,
  bit_or, get_or, drop, length, length-drop, ◌==◌, Bool-cases, arith, u32,
}
use quetzal_os.Lexer.{
  eof, Token, Lexer, skip_space, ident_loop, hex_loop, dec_loop, scan, lexer_next, is_alpha,
  is_digit, hex_value,
}

pub skip_space-le : (s : List ℕ) → skip_space s ≤ length s
unfolding skip_space
skip_space-le [] = omega arith
skip_space-le (c ∷ cs) = ground (arith, skip_space-le cs)

pub ident_loop_bounds :
    (s : List ℕ) (len : ℕ) → (len ≤ ident_loop s len) × (ident_loop s len ≤ len + length s)
unfolding ident_loop
ident_loop_bounds [] len = omega arith
ident_loop_bounds (c ∷ cs) len = ground (arith, ident_loop_bounds cs (len + 1))

hex_loop_bounds :
    (s : List ℕ) (val len : ℕ)
    → (len ≤ (hex_loop s val len).1) × ((hex_loop s val len).1 ≤ len + length s)
unfolding hex_loop
hex_loop_bounds [] val len = omega arith
hex_loop_bounds (c ∷ cs) val len =
    ground (arith, hex_loop_bounds cs (bit_or (u32 (val * 16)) (hex_value c)) (len + 1))

dec_loop_bounds :
    (s : List ℕ) (val len : ℕ)
    → (len ≤ (dec_loop s val len).1) × ((dec_loop s val len).1 ≤ len + length s)
unfolding dec_loop
dec_loop_bounds [] val len = omega arith
dec_loop_bounds (c ∷ cs) val len =
    ground (arith, dec_loop_bounds cs (u32 (u32 (val * 10) + (c - b'0'))) (len + 1))

-- A token fits the bytes that are left, and takes one at least unless it is the end.
pub record Fits (s : List ℕ) (tok : Token) : Type 0 where
  pub within : tok.length_of ≤ length s
  pub moves : (tok.kind ≡ eof) ⊎ (0 < tok.length_of)
  pub starts : tok.start ≡ s

Fits-name : (c : ℕ) (cs : List ℕ) → is_alpha c ≡ true → Fits (c ∷ cs) (scan (c ∷ cs))
unfolding scan ident_loop
Fits-name c cs a = elim (Bool-cases (c == 0)) [
  | inl null ↦ absurd (ground arith)
  | inr char ↦
      rw (char, a)
        (record {
          within = ground (arith, ident_loop_bounds cs 1);
          moves = inr (ground (arith, ident_loop_bounds cs 1));
          starts = refl;
        })
]

-- The byte that makes a hexadecimal prefix is there.
prefix_nonempty :
    (cs : List ℕ) → (get_or cs 0 0 == b'x' || get_or cs 0 0 == b'X') ≡ true → 0 < length cs
prefix_nonempty [] h = absurd (ground arith)
prefix_nonempty (c ∷ cs) h = omega arith

Fits-number :
    (c : ℕ) (cs : List ℕ) → is_alpha c ≡ false → is_digit c ≡ true → Fits (c ∷ cs) (scan (c ∷ cs))
unfolding scan dec_loop
Fits-number c cs a d =
    let char : (c == 0) ≡ false = ground arith in
    elim (Bool-cases (c == b'0' && (get_or cs 0 0 == b'x' || get_or cs 0 0 == b'X'))) [
      | inl hex ↦
          rw (char, a, d, hex)
            (record {
              within = omega (
                arith,
                hex_loop_bounds (drop 1 cs) 0 2,
                length-drop 1 cs,
                prefix_nonempty cs (ground arith),
              );
              moves = inr (omega (arith, hex_loop_bounds (drop 1 cs) 0 2));
              starts = refl;
            })
      | inr dec ↦
          rw (char, a, d, dec)
            (record {
              within = omega (arith, dec_loop_bounds cs (u32 (u32 (0 * 10) + (c - b'0'))) 1);
              moves = inr (omega (arith, dec_loop_bounds cs (u32 (u32 (0 * 10) + (c - b'0'))) 1));
              starts = refl;
            })
    ]

pub scan-Fits : (s : List ℕ) → Fits s (scan s)
scan-Fits [] = unfold scan in record { within = omega arith; moves = inl refl; starts = refl }
scan-Fits (c ∷ cs) = elim (Bool-cases (is_alpha c)) [
  | inl a ↦ Fits-name c cs a
  | inr a ↦ elim (Bool-cases (is_digit c)) [
    | inl d ↦ Fits-number c cs a d
    | inr d ↦ elim (Bool-cases (c == 0)) [
      | inl null ↦
          unfold scan in rw null (record { within = omega arith; moves = inl refl; starts = refl })
      | inr char ↦
          unfold scan in
          rw (char, a, d)
            (record { within = omega arith; moves = inr (omega arith); starts = refl })
    ]
  ]
]

-- `lexer_next`, called at a position within the script, leaves the script as it is and the position
-- within it, no further back than before, and further on unless the token is the end.
pub lexer_next_moves :
    (lex : Lexer)
    → lex.pos ≤ length lex.src
    → let (next, tok) = lexer_next lex in
      (next.src ≡ lex.src)
      × (lex.pos ≤ next.pos)
      × (next.pos ≤ length lex.src)
      × ((tok.kind ≡ eof) ⊎ (lex.pos < next.pos))
unfolding lexer_next
lexer_next_moves lex h =
    let skipped = skip_space (drop lex.pos lex.src) in
    let left = drop (lex.pos + skipped) lex.src in
    let fits = scan-Fits left in
    let small : skipped ≤ length lex.src - lex.pos =
      omega (arith, skip_space-le (drop lex.pos lex.src), length-drop lex.pos lex.src) in
    let rest : length left ≡ length lex.src - (lex.pos + skipped) =
      length-drop (lex.pos + skipped) lex.src in
    (
      refl,
      omega arith,
      omega (arith, fits.within),
      elim fits.moves [ inl last ↦ inl last | inr more ↦ inr (omega arith) ],
    )
