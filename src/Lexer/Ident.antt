-- ===== src/Lexer/Ident.antt =====
-- An identifier token takes the longest run of letters, digits and underscores.
use quetzal_os.Base.{
  ℕ, ◌+◌, ◌≡◌, refl, ap, ◌∙◌, true, false, inl, inr, List, [], ◌∷◌, take, length, ◌==◌,
  if◌then◌else◌, Bool-cases, arith,
}
use quetzal_os.Lexer.{identifier, scan, is_alpha, is_alnum, ident_loop}

abbrev pub name_run : List ℕ → List ℕ
name_run [] = []
name_run (c ∷ cs) = if is_alnum c then c ∷ name_run cs else []

ident_loop_lem : (s : List ℕ) (len : ℕ) → ident_loop s len ≡ len + length (name_run s)
unfolding ident_loop
ident_loop_lem [] len = omega arith
ident_loop_lem (c ∷ cs) len = elim (Bool-cases (is_alnum c)) [
  | inl a ↦ rw a (ident_loop_lem cs (len + 1) ∙ omega arith)
  | inr other ↦ rw other (omega arith)
]

ident_start : (s : List ℕ) → ident_loop s 0 ≡ length (name_run s)
ident_start s = omega (arith, ident_loop_lem s 0)

pub take-name_run : (s : List ℕ) → take (length (name_run s)) s ≡ name_run s
take-name_run [] = refl
take-name_run (c ∷ cs) = elim (Bool-cases (is_alnum c)) [
  | inl a ↦ rw a (ap (◌∷◌ c) (take-name_run cs))
  | inr other ↦ rw other refl
]

-- At a letter or an underscore the token is an identifier: all letters, digits and underscores from
-- there on.
pub scan_identifier :
    (c : ℕ) (cs : List ℕ)
    → is_alpha c ≡ true
    → scan (c ∷ cs) ≡ record {
      kind = identifier;
      start = c ∷ cs;
      length_of = length (name_run (c ∷ cs));
      value = 0;
    }
unfolding scan
scan_identifier c cs a =
    let char : (c == 0) ≡ false = ground arith in rw (char, a, ident_start (c ∷ cs)) (rw a refl)
