-- ===== src/Base/Cstr.antt =====
-- NUL-terminated strings in byte buffers: a buffer is the list of its bytes, and a read past the
-- end of a string literal's bytes is its NUL.
use Prim.Native.Nat.{ℕ, zero, suc, ◌≤◌, ◌<◌}
use Prim.Native.Char.{code}
use Prim.Native.String.{String}
use mathlib.Core.Path.{◌≡◌, refl}
use mathlib.Core.List.{List, [], ◌∷◌}
use native.Mathlib.Omega.{arith}
use quetzal_os.Base.Tests.{◌==◌, if◌then◌else◌}
use quetzal_os.Base.Lists.{length, take}

-- The bytes of a C string literal; every literal of the program is ASCII.
abbrev pub codes : String → List ℕ
codes String.[] = []
codes (String.◌∷◌ c s) = code c ∷ codes s

-- The string that a buffer holds: its bytes up to the first NUL.
abbrev pub cstr : List ℕ → List ℕ
cstr [] = []
cstr (b ∷ bs) = if b == 0 then [] else b ∷ cstr bs

-- `for (; i < n && src[i] != '\0'; i++) dst[i] = src[i]; dst[i] = '\0';` with `n` the rounds left
-- and the lists `src[i..]` and `dst[i..]`.
abbrev pub copy_str : ℕ → List ℕ → List ℕ → List ℕ
copy_str n src [] = []
copy_str zero src (d ∷ ds) = 0 ∷ ds
copy_str (suc n) [] (d ∷ ds) = 0 ∷ ds
copy_str (suc n) (s ∷ ss) (d ∷ ds) = if s == 0 then 0 ∷ ds else s ∷ copy_str n ss ds

-- The copy keeps the buffer's size.
pub length-copy_str : (n : ℕ) (src dst : List ℕ) → length (copy_str n src dst) ≡ length dst
length-copy_str n src [] = refl
length-copy_str zero src (d ∷ ds) = refl
length-copy_str (suc n) [] (d ∷ ds) = refl
length-copy_str (suc n) (s ∷ ss) (d ∷ ds) = ground (arith, length-copy_str n ss ds)

-- Where the buffer has room, the copy holds the first `n` bytes of the string.
pub cstr-copy_str :
    (n : ℕ) (src dst : List ℕ) → n < length dst → cstr (copy_str n src dst) ≡ take n (cstr src)
cstr-copy_str n src [] h = absurd (omega arith)
cstr-copy_str zero src (d ∷ ds) h = refl
cstr-copy_str (suc n) [] (d ∷ ds) h = refl
cstr-copy_str (suc n) (s ∷ ss) (d ∷ ds) h = ground (arith, cstr-copy_str n ss ds)

pub length-cstr : (bs : List ℕ) → length (cstr bs) ≤ length bs
length-cstr [] = omega arith
length-cstr (b ∷ bs) = ground (arith, length-cstr bs)

pub cstr-cstr : (bs : List ℕ) → cstr (cstr bs) ≡ cstr bs
cstr-cstr [] = refl
cstr-cstr (b ∷ bs) = ground (arith, cstr-cstr bs)

pub length-take-cstr : (n : ℕ) (bs : List ℕ) → length (take n (cstr bs)) ≤ n
length-take-cstr zero bs = omega arith
length-take-cstr (suc n) [] = omega arith
length-take-cstr (suc n) (b ∷ bs) = ground (arith, length-take-cstr n bs)
