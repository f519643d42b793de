-- ===== src/Serial.antt =====
-- kernel/arch/x86_64/serial.c: the serial port and `kprintf`. What a function prints is the list of
-- the bytes that `serial_putc` gets, in order; `Serial.Line` has `serial_putc` itself. The variable
-- arguments are a list of values.
pub mod Digits
pub mod RoundTrip
pub mod Line
mod Examples
use mathlib.Core.Option
use quetzal_os.Base.{
  ℕ, zero, suc, ◌+◌, ◌-◌, ◌*◌, ◌/◌, ◌%◌, ◌^◌, ◌≤◌, ◌<◌, ◌≡◌, ◌≢◌, ◌↔◌, refl, sym, ap, ◌∙◌, fun_ext,
  Bool, true, false, not, ◌&&◌, ◌||◌, ◌⊎◌, inl, inr, List, [], ◌∷◌, ◌++◌, map, Option, none, some,
  append-nil, append_assoc, min, or_nibble, bit_and, bit_or, byte_set, byte_clear, byte_test,
  get_or, set, take, drop, replicate, length, length-append, length-set, length-replicate,
  length-take, length-drop, get_or-set_self, get_or-set_ne, take-append-drop, ltb, leb, ◌==◌,
  if◌then◌else◌, Bool-cases, Option-cases, Bool-ext, ==_iff, ltb_iff, arith, all_below,
  all_below_sound, codes, cstr, copy_str, length-copy_str, cstr-copy_str, length-cstr, cstr-cstr,
  length-take-cstr, u8, u16, u32, u64, sub_u32, ℤ, pos, negsuc, pos_part, neg_part, sub_ℕ, ◌+ℤ◌,
  ◌-ℤ◌, ltb_ℤ, leb_ℤ, eqb_ℤ, int_of, word_of,
}
use quetzal_os.Io.{PortWrite, outb}

abbrev pub com1_port : ℕ
com1_port = 0x3f8

unfoldable pub serial_init : List PortWrite
serial_init =
    outb (com1_port + 1) 0
    ∷ outb (com1_port + 3) 0x80
    ∷ outb (com1_port + 0) 3
    ∷ outb (com1_port + 1) 0
    ∷ outb (com1_port + 3) 3
    ∷ outb (com1_port + 2) 0xc7
    ∷ outb (com1_port + 4) 0x0b
    ∷ []

-- One byte, with a carriage return before a newline.
abbrev pub with_cr : ℕ → List ℕ
with_cr c = if c == b'\n' then 13 ∷ c ∷ [] else c ∷ []

unfoldable pub serial_puts : List ℕ → List ℕ
serial_puts [] = []
serial_puts (c ∷ cs) = let rest = serial_puts cs in if c == 0 then [] else with_cr c ++ rest

-- `digits[d]` of the literal "0123456789ABCDEF".
abbrev pub digit : ℕ → ℕ
digit d = get_or (codes "0123456789ABCDEF") d 0

-- The first loop of `print_num` fills `buf` from its start and the second one prints it from its end:
-- what is printed grows at the front. `none` means that the fuel ran out.
unfoldable pub digits_loop : ℕ → ℕ → ℕ → List ℕ → Option (List ℕ)
digits_loop zero val base out = none
digits_loop (suc fuel) val base out =
    let rest = digits_loop fuel (val / base) base (digit (val % base) ∷ out) in
    if ltb 0 val then rest else some out

-- `print_num` on a value that is not 0 and not negative.
abbrev pub print_digits : ℕ → ℕ → List ℕ
print_digits val base = Option.get_or (digits_loop 65 val base []) []

abbrev pub is_negative : ℕ → Bool
is_negative val = leb (2 ^ 63) val

-- `val` is a 64-bit word; -(int64_t)val is the word's two's complement.
unfoldable pub print_num : ℕ → ℕ → Bool → List ℕ
unfolding digits_loop
print_num val base is_signed =
    let minus = is_signed && is_negative val in
    let val' = if minus then u64 (2 ^ 64 - val) else val in
    (if minus then b'-' ∷ [] else []) ++ (if val' == 0 then b'0' ∷ [] else print_digits val' base)

-- An argument of `kprintf`: a pointer to a string or null, or an integer of the width that the
-- conversion reads.
pub data Arg : Type 0 where
  str : Option (List ℕ) → Arg
  int : ℕ → Arg

-- The integer that a conversion reads; an argument of another type, or none left, is undefined in C.
abbrev pub int_arg : List Arg → Option ℕ
int_arg [] = none
int_arg (str s ∷ args) = none
int_arg (int n ∷ args) = some n

abbrev pub str_arg : List Arg → Option (List ℕ)
str_arg [] = none
str_arg (int n ∷ args) = none
str_arg (str none ∷ args) = some (codes "(null)")
str_arg (str (some s) ∷ args) = some s

-- `(uint64_t)(int64_t)val` for a 32-bit `int`.
abbrev pub widen : ℕ → ℕ
widen val = if ltb val (2 ^ 31) then val else 2 ^ 64 - 2 ^ 32 + val

-- The switch: what the conversion `c` prints and whether it takes an argument; `none` is undefined.
unfoldable pub conversion : ℕ → List Arg → Option (List ℕ × List Arg)
unfolding serial_puts print_num
conversion c args =
    if c == b's'
    then Option.map (λ s. (serial_puts s, drop 1 args)) (str_arg args)
    else if c == b'd' || c == b'i'
    then Option.map (λ n. (print_num (widen (u32 n)) 10 true, drop 1 args)) (int_arg args)
    else if c == b'u'
    then Option.map (λ n. (print_num (u32 n) 10 false, drop 1 args)) (int_arg args)
    else if c == b'x'
    then Option.map (λ n. (print_num (u64 n) 16 false, drop 1 args)) (int_arg args)
    else if c == b'p'
    then Option.map (λ n. (codes "0x" ++ print_num (u64 n) 16 false, drop 1 args)) (int_arg args)
    else if c == b'c'
    then Option.map (λ n. (u8 n ∷ [], drop 1 args)) (int_arg args)
    else if c == b'%'
    then some (b'%' ∷ [], args)
    else some (b'%' ∷ c ∷ [], args)

abbrev printed_before : List ℕ → Option (List ℕ) → Option (List ℕ)
printed_before out rest = Option.map (λ more. out ++ more) rest

-- `kprintf` over the bytes of the format; `none` is undefined.
unfoldable pub kprintf : List ℕ → List Arg → Option (List ℕ)
unfolding conversion
kprintf [] args = some []
kprintf (c ∷ []) args = if c == b'%' || c == 0 then some [] else some (with_cr c)
kprintf (c ∷ d ∷ fmt) args =
    let plain = printed_before (with_cr c) (kprintf (d ∷ fmt) args) in
    let converted : Option (List ℕ) = elim (conversion d args) [
      | none ↦ none
      | some (out, rest) ↦ printed_before out (kprintf fmt rest)
    ] in
    if c == 0 then some [] else if c == b'%' then (if d == 0 then some [] else converted) else plain
