-- ===== src/Console/Lines.antt =====
-- The lines that the console shows: the last five that were printed.
use quetzal_os.Base.{
  ℕ, zero, suc, ◌+◌, ◌≤◌, ◌<◌, ◌≡◌, refl, sym, ap, ◌∙◌, inl, inr, List, [], ◌∷◌, ◌++◌, map, take,
  drop, length, ltb, if◌then◌else◌, Bool-cases, arith, cstr, copy_str, length-copy_str,
  cstr-copy_str, length-take-cstr,
}
use quetzal_os.Console.{Console, put_line, shift_lines, console_print}

-- Five buffers of 64 bytes, each with its NUL.
abbrev pub IsLines : List (List ℕ) → Type 0
IsLines [] = Unit {0}
IsLines (l ∷ ls) = (length l ≡ 64) × (length (cstr l) < 64) × IsLines ls

pub record IsValid (c : Console) : Type 0 where
  pub lines_ok : IsLines c.history
  pub five : length c.history ≡ 5
  pub count : c.history_count ≤ 5

-- The lines as text.
abbrev pub shown : Console → List (List ℕ)
shown c = map cstr (take c.history_count c.history)

-- A line behind others, of which at most four stay.
abbrev pub scrolled : List (List ℕ) → List ℕ → List (List ℕ)
scrolled ls l = if ltb (length ls) 5 then ls ++ l ∷ [] else drop 1 ls ++ l ∷ []

copied-lt : (msg l : List ℕ) → length l ≡ 64 → length (cstr (copy_str 63 msg l)) < 64
copied-lt msg l e =
    let text = cstr-copy_str 63 msg l (omega arith) in
    rw text (omega (arith, length-take-cstr 63 msg))

put_line-IsLines :
    (msg : List ℕ) (i : ℕ) (ls : List (List ℕ)) → IsLines ls → IsLines (put_line msg i ls)
unfolding put_line
put_line-IsLines msg i [] h = tt
put_line-IsLines msg zero (l ∷ ls) (size, ends, rest) =
    (length-copy_str 63 msg l ∙ size, copied-lt msg l size, rest)
put_line-IsLines msg (suc i) (l ∷ ls) (size, ends, rest) =
    (size, ends, put_line-IsLines msg i ls rest)

length-put_line :
    (msg : List ℕ) (i : ℕ) (ls : List (List ℕ)) → length (put_line msg i ls) ≡ length ls
unfolding put_line
length-put_line msg i [] = refl
length-put_line msg zero (l ∷ ls) = refl
length-put_line msg (suc i) (l ∷ ls) = omega (arith, length-put_line msg i ls)

shift_lines-IsLines : (ls : List (List ℕ)) → IsLines ls → IsLines (shift_lines ls)
unfolding shift_lines
shift_lines-IsLines [] h = tt
shift_lines-IsLines (l ∷ []) h = h
shift_lines-IsLines (l ∷ m ∷ ls) (size, ends, rest) =
    (length-copy_str 63 m l ∙ size, copied-lt m l size, shift_lines-IsLines (m ∷ ls) rest)

length-shift_lines : (ls : List (List ℕ)) → length (shift_lines ls) ≡ length ls
unfolding shift_lines
length-shift_lines [] = refl
length-shift_lines (l ∷ []) = refl
length-shift_lines (l ∷ m ∷ ls) = omega (arith, length-shift_lines (m ∷ ls))

pub console_print-IsValid : (msg : List ℕ) (c : Console) → IsValid c → IsValid (console_print msg c)
unfolding console_print
console_print-IsValid msg c v = elim (Bool-cases (ltb c.history_count 5)) [
  | inl room ↦ rw room (record {
    lines_ok = put_line-IsLines msg c.history_count c.history v.lines_ok;
    five = length-put_line msg c.history_count c.history ∙ v.five;
    count = ground arith;
  })
  | inr full ↦ rw full (record {
    lines_ok =
        put_line-IsLines msg 4 (shift_lines c.history) (shift_lines-IsLines c.history v.lines_ok);
    five = length-put_line msg 4 (shift_lines c.history) ∙ length-shift_lines c.history ∙ v.five;
    count = v.count;
  })
]

-- The text of the lines before `i` stays, and line `i` is the message.
shown-put_line :
    (msg : List ℕ) (i : ℕ) (ls : List (List ℕ))
    → IsLines ls
    → i < length ls
    → map cstr (take (suc i) (put_line msg i ls)) ≡ map cstr (take i ls) ++ take 63 (cstr msg) ∷ []
unfolding put_line
shown-put_line msg i [] h lt = absurd (omega arith)
shown-put_line msg zero (l ∷ ls) (size, ends, rest) lt =
    ap (λ t. t ∷ []) (cstr-copy_str 63 msg l (omega arith))
shown-put_line msg (suc i) (l ∷ ls) (size, ends, rest) lt =
    ap (◌∷◌ (cstr l)) (shown-put_line msg i ls rest (omega arith))

-- A line that ends within its buffer is copied whole.
take-line : (n : ℕ) (s : List ℕ) → length s ≤ n → take n s ≡ s
take-line zero [] h = refl
take-line (suc n) [] h = refl
take-line zero (b ∷ bs) h = absurd (omega arith)
take-line (suc n) (b ∷ bs) h = ap (◌∷◌ b) (take-line n bs (omega arith))

copied-line :
    (m l : List ℕ) → length l ≡ 64 → length (cstr m) < 64 → cstr (copy_str 63 m l) ≡ cstr m
copied-line m l size ends = cstr-copy_str 63 m l (omega arith) ∙ take-line 63 (cstr m) (omega arith)

-- Behind the shift, all lines but the last are those that were one further down.
shown-shift_lines :
    (n : ℕ) (ls : List (List ℕ))
    → IsLines ls
    → suc n ≡ length ls
    → map cstr (take n (shift_lines ls)) ≡ map cstr (take n (drop 1 ls))
unfolding shift_lines
shown-shift_lines n [] h e = absurd (omega arith)
shown-shift_lines n (l ∷ []) h e = let one : n ≡ 0 = omega arith in rw one refl
shown-shift_lines zero (l ∷ m ∷ ls) h e = absurd (omega arith)
shown-shift_lines (suc n) (l ∷ m ∷ ls) (size, _, (size', ends, rest)) e =
    rw (copied-line m l size ends)
      (ap (◌∷◌ (cstr m)) (shown-shift_lines n (m ∷ ls) (size', ends, rest) (omega arith)))

length-shown : (n : ℕ) (ls : List (List ℕ)) → n ≤ length ls → length (map cstr (take n ls)) ≡ n
length-shown zero ls h = refl
length-shown (suc n) [] h = absurd (omega arith)
length-shown (suc n) (l ∷ ls) h = omega (arith, length-shown n ls (omega arith))

drop-shown :
    (n : ℕ) (ls : List (List ℕ))
    → n < length ls
    → drop 1 (map cstr (take (suc n) ls)) ≡ map cstr (take n (drop 1 ls))
drop-shown n [] h = absurd (omega arith)
drop-shown n (l ∷ ls) h = refl

-- On a console of five lines that each end within their 64 bytes, `console_print` shows the first
-- 63 bytes of the message behind the lines shown before, of which the last four stay at most.
pub console_print_lem :
    (msg : List ℕ) (c : Console)
    → IsValid c
    → shown (console_print msg c) ≡ scrolled (shown c) (take 63 (cstr msg))
unfolding console_print
console_print_lem msg c v =
    let count = length-shown c.history_count c.history (omega (arith, v.count, v.five)) in
    elim (Bool-cases (ltb c.history_count 5)) [
      | inl room ↦
          let next : c.history_count + 1 ≡ suc c.history_count = omega arith in
          rw (count, room, next)
            (shown-put_line msg c.history_count c.history v.lines_ok (ground (arith, v.five)))
      | inr full ↦
          let five : c.history_count ≡ 5 = ground (arith, v.count) in
          rw (count, five)
            (shown-put_line msg 4 (shift_lines c.history) (shift_lines-IsLines c.history v.lines_ok)
                (omega (arith, v.five, length-shift_lines c.history))
              ∙ rw
                  (
                    shown-shift_lines 4 c.history v.lines_ok (sym v.five),
                    drop-shown 4 c.history (omega (arith, v.five)),
                  )
                  refl)
    ]
