-- ===== src/SymbolTable/Names.antt =====
-- `str_equal` compares names as strings, and a stored name is the name that was stored.
use quetzal_os.Base.{
  ℕ, zero, suc, ◌≤◌, ◌<◌, ◌≡◌, ◌≢◌, ◌↔◌, refl, ap, true, List, [], ◌∷◌, take, drop, length, arith,
  cstr,
}
use quetzal_os.SymbolTable.{str_equal, put_name}

abbrev pub NoNul : List ℕ → Type 0
NoNul [] = Unit {0}
NoNul (b ∷ bs) = (b ≢ 0) × NoNul bs

-- The pointer and length are a name equal to the string in the buffer.
pub str_equal_iff :
    (s1 : List ℕ) (n : ℕ) (s2 : List ℕ)
    → n ≤ length s1
    → (str_equal s1 n s2 ≡ true) ↔ (take n s1 ≡ cstr s2)
unfolding str_equal
str_equal_iff s1 zero [] h = ground arith
str_equal_iff s1 zero (b ∷ bs) h = ground arith
str_equal_iff [] (suc n) s2 h = absurd (omega arith)
str_equal_iff (a ∷ s1) (suc n) [] h = ground arith
str_equal_iff (a ∷ s1) (suc n) (b ∷ bs) h = ground (arith, str_equal_iff s1 n bs)

pub cstr-put_name :
    (n : ℕ) (src dst : List ℕ)
    → NoNul (take n src)
    → n ≤ length src
    → n < length dst
    → cstr (put_name n src dst) ≡ take n src
unfolding put_name
cstr-put_name n src [] v h lt = absurd (omega arith)
cstr-put_name zero src (d ∷ ds) v h lt = refl
cstr-put_name (suc n) [] (d ∷ ds) v h lt = absurd (omega arith)
cstr-put_name (suc n) (s ∷ ss) (d ∷ ds) v h lt = ground (arith, cstr-put_name n ss ds v.1)

pub length-put_name : (n : ℕ) (src dst : List ℕ) → length (put_name n src dst) ≡ length dst
unfolding put_name
length-put_name n src [] = refl
length-put_name zero src (d ∷ ds) = refl
length-put_name (suc n) src (d ∷ ds) = ap suc (length-put_name n (drop 1 src) ds)
