-- ===== src/Serial/RoundTrip.antt =====
-- What `print_num` prints, read back by the lexer of scripts.
use quetzal_os.Base.{
  ℕ, ◌+◌, ◌*◌, ◌^◌, ◌≤◌, ◌<◌, ◌≡◌, refl, ap, ◌∙◌, true, false, ◌&&◌, inl, inr, List, [], ◌∷◌, ◌++◌,
  get_or, length, ◌==◌, Bool-cases, ==_iff, arith, all_below, all_below_sound, codes, u32,
}
use quetzal_os.Lexer.{number, scan, is_digit, is_hex_digit, is_alnum, hex_value}
use quetzal_os.Lexer.Number.{digit_run, hex_run, dec_number, hex_number, scan_decimal, scan_hex}
use quetzal_os.Serial.{digit, print_digits, print_num}
use quetzal_os.Serial.Digits.{Reader, Spent, digits_loop-Printed, digits_loop-Leads}

decimal_table : all_below 10 (λ d. digit d == b'0' + d) ≡ true
unfolding all_below
decimal_table = refl

digit_decimal : (d : ℕ) → d < 10 → digit d ≡ b'0' + d
digit_decimal d h = (==_iff _ _).0 (all_below_sound 10 _ d decimal_table h)

is_digit_small : (d : ℕ) → d < 10 → is_digit (b'0' + d) ≡ true
is_digit_small d h = ground arith

hex_table : all_below 16 (λ d. is_hex_digit (digit d) && hex_value (digit d) == d) ≡ true
unfolding all_below hex_value
hex_table = refl

digit_hex : (d : ℕ) → d < 16 → (is_hex_digit (digit d) ≡ true) × (hex_value (digit d) ≡ d)
digit_hex d h = ground (arith, all_below_sound 16 _ d hex_table h)

decimal : Reader 10
decimal = record {
  base_pos = omega arith;
  read = dec_number;
  run = digit_run;
  read_digit = λ acc d cs h. rw (digit_decimal d h) (ap (λ n. dec_number n cs) (omega arith));
  run_digit = λ d cs h. rw (digit_decimal d h) (rw (is_digit_small d h) refl);
}

hexadecimal : Reader 16
hexadecimal = record {
  base_pos = omega arith;
  read = hex_number;
  run = hex_run;
  read_digit = λ acc d cs h. ap (λ n. hex_number (acc * 16 + n) cs) ((digit_hex d h).1);
  run_digit = λ d cs h. rw ((digit_hex d h).0) refl;
}

fuel_decimal : (val : ℕ) → val < 2 ^ 64 → Spent 20 10 val
fuel_decimal val h = omega arith

fuel_hex : (val : ℕ) → val < 2 ^ 64 → Spent 16 16 val
fuel_hex val h = omega arith

-- The text behind a number begins with no letter, digit or underscore.
abbrev pub IsBoundary : List ℕ → Type 0
IsBoundary rest = is_alnum (get_or rest 0 0) ≡ false

digit_run-IsBoundary : (rest : List ℕ) → IsBoundary rest → digit_run rest ≡ []
digit_run-IsBoundary [] h = refl
digit_run-IsBoundary (c ∷ cs) h = ground arith

hex_run-IsBoundary : (rest : List ℕ) → IsBoundary rest → hex_run rest ≡ []
hex_run-IsBoundary [] h = refl
hex_run-IsBoundary (c ∷ cs) h = ground arith

scan_zero :
    (rest : List ℕ)
    → IsBoundary rest
    → scan (b'0' ∷ rest) ≡ record { kind = number; start = b'0' ∷ rest; length_of = 1; value = 0 }
scan_zero rest h =
    scan_decimal b'0' rest refl (ground arith) ∙ rw (digit_run-IsBoundary rest h) refl

scan_digits :
    (val : ℕ) (rest : List ℕ)
    → val < 2 ^ 64
    → 0 < val
    → IsBoundary rest
    → scan (print_digits val 10 ++ rest) ≡ record {
      kind = number;
      start = print_digits val 10 ++ rest;
      length_of = length (print_digits val 10);
      value = u32 val;
    }
unfolding decimal
scan_digits val rest fits more h =
    let p = digits_loop-Printed decimal 20 65 val [] (omega arith) (fuel_decimal val fits) in
    let l = digits_loop-Leads decimal 20 65 val [] (omega arith) (fuel_decimal val fits) more in
    let res = digit l.first ∷ l.others in
    let same : p.res ≡ res = cc (p.returns, l.is) in
    let printed : print_digits val 10 ≡ res = rw l.is refl in
    let runs : digit_run (res ++ rest) ≡ res =
      rw same at (p.runs rest (digit_run-IsBoundary rest h)) in
    let reads : dec_number 0 res ≡ val = rw same at p.reads in
    let first : digit l.first ≡ b'0' + l.first = digit_decimal l.first l.small in
    let is : is_digit (digit l.first) ≡ true = rw first (is_digit_small l.first l.small) in
    let plain : (digit l.first == b'0') ≡ false = rw first (ground (arith, l.pos)) in
    rw printed
      (scan_decimal (digit l.first) (l.others ++ rest) is (rw plain refl) ∙ rw (runs, reads) refl)

-- A 64-bit number that `print_num` prints in decimal, with no letter, digit or underscore behind it,
-- is read by the lexer as one number token, of exactly the printed bytes, whose value is the number
-- modulo 2 ^ 32.
pub scan-print_num :
    (val : ℕ) (rest : List ℕ)
    → val < 2 ^ 64
    → IsBoundary rest
    → scan (print_num val 10 false ++ rest) ≡ record {
      kind = number;
      start = print_num val 10 false ++ rest;
      length_of = length (print_num val 10 false);
      value = u32 val;
    }
unfolding print_num
scan-print_num val rest fits h = elim (Bool-cases (val == 0)) [
  | inl null ↦ let none_left : val ≡ 0 = (==_iff val 0).0 null in rw none_left (scan_zero rest h)
  | inr more ↦ rw more (scan_digits val rest fits (ground arith) h)
]

-- The digits that `print_num` prints in decimal are a run of digits.
pub digit_run-print_num :
    (val : ℕ) (rest : List ℕ)
    → val < 2 ^ 64
    → IsBoundary rest
    → digit_run (print_num val 10 false ++ rest) ≡ print_num val 10 false
unfolding print_num decimal
digit_run-print_num val rest fits h =
    let p = digits_loop-Printed decimal 20 65 val [] (omega arith) (fuel_decimal val fits) in
    let printed : print_digits val 10 ≡ p.res = rw p.returns refl in
    elim (Bool-cases (val == 0)) [
      | inl null ↦ rw (null, digit_run-IsBoundary rest h) refl
      | inr more ↦ rw (more, printed) (p.runs rest (digit_run-IsBoundary rest h))
    ]

scan_hex_digits :
    (val : ℕ) (rest : List ℕ)
    → val < 2 ^ 64
    → IsBoundary rest
    → (hex_run (print_digits val 16 ++ rest) ≡ print_digits val 16)
      × (hex_number 0 (print_digits val 16) ≡ val)
unfolding hexadecimal
scan_hex_digits val rest fits h =
    let p = digits_loop-Printed hexadecimal 16 65 val [] (omega arith) (fuel_hex val fits) in
    let printed : print_digits val 16 ≡ p.res = rw p.returns refl in
    rw printed (p.runs rest (hex_run-IsBoundary rest h), p.reads)

-- The same for a pointer: 0x and the hexadecimal digits.
pub scan-print_num_hex :
    (val : ℕ) (rest : List ℕ)
    → val < 2 ^ 64
    → IsBoundary rest
    → scan (codes "0x" ++ print_num val 16 false ++ rest) ≡ record {
      kind = number;
      start = codes "0x" ++ print_num val 16 false ++ rest;
      length_of = 2 + length (print_num val 16 false);
      value = u32 val;
    }
unfolding print_num hex_value
scan-print_num_hex val rest fits h = elim (Bool-cases (val == 0)) [
  | inl null ↦
      let none_left : val ≡ 0 = (==_iff val 0).0 null in
      rw none_left (scan_hex b'x' (b'0' ∷ rest) refl ∙ rw (hex_run-IsBoundary rest h) refl)
  | inr more ↦
      let (runs, reads) = scan_hex_digits val rest fits h in
      rw more (scan_hex b'x' (print_digits val 16 ++ rest) refl ∙ rw (runs, reads) refl)
]

-- `buf` of `print_num` has 32 bytes: a 64-bit number has at most 20 digits in decimal and 16 in
-- hexadecimal.
pub print_num-le :
    (val : ℕ)
    → val < 2 ^ 64
    → (length (print_num val 10 false) ≤ 20) × (length (print_num val 16 false) ≤ 16)
unfolding print_num
print_num-le val fits =
    let d = digits_loop-Printed decimal 20 65 val [] (omega arith) (fuel_decimal val fits) in
    let x = digits_loop-Printed hexadecimal 16 65 val [] (omega arith) (fuel_hex val fits) in
    elim (Bool-cases (val == 0)) [
      | inl null ↦ rw null (omega arith)
      | inr more ↦ rw (more, d.returns, x.returns) (omega (arith, d.few, x.few))
    ]
