-- ===== src/Lexer/Number.antt =====
-- The value of a number token: the number that its digits spell, modulo 2 ^ 32.
use quetzal_os.Base.{
  ℕ, ◌+◌, ◌-◌, ◌*◌, ◌%◌, ◌^◌, ◌<◌, ◌≡◌, refl, ◌∙◌, true, false, ◌&&◌, ◌||◌, inl, inr, List, [], ◌∷◌,
  or_nibble, bit_or, get_or, length, ◌==◌, if◌then◌else◌, Bool-cases, arith, u32,
}
use quetzal_os.Lexer.{number, hex_loop, dec_loop, scan, is_alpha, is_digit, is_hex_digit, hex_value}

-- The leading digits.
abbrev pub digit_run : List ℕ → List ℕ
digit_run [] = []
digit_run (c ∷ cs) = if is_digit c then c ∷ digit_run cs else []

abbrev pub hex_run : List ℕ → List ℕ
hex_run [] = []
hex_run (c ∷ cs) = if is_hex_digit c then c ∷ hex_run cs else []

-- The number that decimal digits spell, behind those that make up `acc`.
abbrev pub dec_number : ℕ → List ℕ → ℕ
dec_number acc [] = acc
dec_number acc (c ∷ cs) = dec_number (acc * 10 + (c - b'0')) cs

abbrev pub hex_number : ℕ → List ℕ → ℕ
hex_number acc [] = acc
hex_number acc (c ∷ cs) = hex_number (acc * 16 + hex_value c) cs

dec_loop_lem :
    (s : List ℕ) (acc len : ℕ)
    → dec_loop s (u32 acc) len ≡ (u32 (dec_number acc (digit_run s)), len + length (digit_run s))
unfolding dec_loop
dec_loop_lem [] acc len = ground arith
dec_loop_lem (c ∷ cs) acc len = elim (Bool-cases (is_digit c)) [
  | inl d ↦
      let step : u32 (u32 (u32 acc * 10) + (c - b'0')) ≡ u32 (acc * 10 + (c - b'0')) =
        omega arith in
      rw (d, step) (dec_loop_lem cs (acc * 10 + (c - b'0')) (len + 1) ∙ ground arith)
  | inr other ↦ rw other (ground arith)
]

dec_start : (s : List ℕ) → dec_loop s 0 0 ≡ (u32 (dec_number 0 (digit_run s)), length (digit_run s))
dec_start s = dec_loop_lem s 0 0 ∙ ground arith

hex_value-lt : (c : ℕ) → is_hex_digit c ≡ true → hex_value c < 16
unfolding hex_value
hex_value-lt c h = ground arith

hex_loop_lem :
    (s : List ℕ) (acc len : ℕ)
    → hex_loop s (u32 acc) len ≡ (u32 (hex_number acc (hex_run s)), len + length (hex_run s))
unfolding hex_loop
hex_loop_lem [] acc len = ground arith
hex_loop_lem (c ∷ cs) acc len = elim (Bool-cases (is_hex_digit c)) [
  | inl d ↦
      let shifted : u32 (u32 acc * 16) ≡ acc % 2 ^ 28 * 16 = omega arith in
      let step : bit_or (u32 (u32 acc * 16)) (hex_value c) ≡ u32 (acc * 16 + hex_value c) =
        rw shifted (
          or_nibble (acc % 2 ^ 28) (hex_value c) (hex_value-lt c d)
          ∙ omega (arith, hex_value-lt c d)) in
      rw (d, step) (hex_loop_lem cs (acc * 16 + hex_value c) (len + 1) ∙ ground arith)
  | inr other ↦ rw other (ground arith)
]

-- At a digit that does not begin a hexadecimal prefix, the token takes all digits from there on,
-- and its value is the number that they spell, modulo 2 ^ 32.
pub scan_decimal :
    (c : ℕ) (cs : List ℕ)
    → is_digit c ≡ true
    → (c == b'0' && (get_or cs 0 0 == b'x' || get_or cs 0 0 == b'X')) ≡ false
    → scan (c ∷ cs) ≡ record {
      kind = number;
      start = c ∷ cs;
      length_of = length (digit_run (c ∷ cs));
      value = u32 (dec_number 0 (digit_run (c ∷ cs)));
    }
unfolding scan
scan_decimal c cs d plain =
    let char : (c == 0) ≡ false = ground arith in
    let letter : is_alpha c ≡ false = ground arith in
    rw (char, letter, d, plain, dec_start (c ∷ cs)) (rw d refl)

-- At the prefix 0x or 0X, the token takes the prefix and all hexadecimal digits behind it, and its
-- value is the number that they spell, modulo 2 ^ 32, which is 0 for a prefix alone.
pub scan_hex :
    (x : ℕ) (cs : List ℕ)
    → (x == b'x' || x == b'X') ≡ true
    → scan (b'0' ∷ x ∷ cs) ≡ record {
      kind = number;
      start = b'0' ∷ x ∷ cs;
      length_of = 2 + length (hex_run cs);
      value = u32 (hex_number 0 (hex_run cs));
    }
unfolding scan
scan_hex x cs hex = rw (hex, hex_loop_lem cs 0 2) refl
