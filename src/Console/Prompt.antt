-- ===== src/Console/Prompt.antt =====
-- The prompt: a text of at most 127 bytes that grows and shrinks at its end.
use quetzal_os.Base.{
  ℕ, zero, suc, ◌+◌, ◌-◌, ◌<◌, ◌≡◌, ◌≢◌, refl, sym, ap, ◌∙◌, true, false, inl, inr, List, [], ◌∷◌,
  ◌++◌, set, take, length, length-append, length-set, length-take, ltb, ◌==◌, if◌then◌else◌,
  Bool-cases, arith, cstr,
}
use quetzal_os.Console.{Console, erase_char, type_char, clear_prompt}

-- The buffer holds a text of `prompt_len` bytes and its NUL.
pub record IsPrompt (c : Console) : Type 0 where
  pub size : length c.prompt_buf ≡ 128
  pub text : length (cstr c.prompt_buf) ≡ c.prompt_len
  pub ends : c.prompt_len < 128

-- What has been typed.
abbrev pub typed : Console → List ℕ
typed c = cstr c.prompt_buf

put_char :
    (buf : List ℕ) (n ch : ℕ)
    → length (cstr buf) ≡ n
    → n + 1 < length buf
    → ch ≢ 0
    → cstr (set (set buf n ch) (suc n) 0) ≡ cstr buf ++ ch ∷ []
put_char [] n ch e h ne = absurd (omega arith)
put_char (b ∷ []) zero ch e h ne = absurd (omega arith)
put_char (b ∷ d ∷ bs) zero ch e h ne = elim (Bool-cases (b == 0)) [
  | inl null ↦ let char : (ch == 0) ≡ false = ground arith in rw (null, char) refl
  | inr more ↦ absurd (ground arith)
]
put_char (b ∷ bs) (suc n) ch e h ne = elim (Bool-cases (b == 0)) [
  | inl null ↦ absurd (ground arith)
  | inr char ↦
      let e' : length (cstr bs) ≡ n = ground arith in
      rw char (ap (◌∷◌ b) (put_char bs n ch e' (omega arith) ne))
]

erase_last :
    (buf : List ℕ) (n : ℕ) → length (cstr buf) ≡ suc n → cstr (set buf n 0) ≡ take n (cstr buf)
erase_last [] n e = absurd (omega arith)
erase_last (b ∷ bs) zero e = refl
erase_last (b ∷ bs) (suc n) e = elim (Bool-cases (b == 0)) [
  | inl null ↦ absurd (ground arith)
  | inr char ↦
      let e' : length (cstr bs) ≡ suc n = ground arith in rw char (ap (◌∷◌ b) (erase_last bs n e'))
]

cstr-clear : (buf : List ℕ) → cstr (set buf 0 0) ≡ []
cstr-clear [] = refl
cstr-clear (b ∷ bs) = refl

-- The prompt is valid and holds the text.
pub record Edited (d : Console) (text : List ℕ) : Type 0 where
  pub typed_is : typed d ≡ text
  pub valid : IsPrompt d

-- A printable character joins the end of the prompt if fewer than 127 bytes stand there, and is
-- dropped otherwise.
pub type_char-Edited :
    (ch : ℕ) (c : Console)
    → IsPrompt c
    → ch ≢ 0
    → Edited (type_char ch c) (if ltb (length (typed c)) 127 then typed c ++ ch ∷ [] else typed c)
unfolding type_char
type_char-Edited ch c v ne = elim (Bool-cases (ltb (c.prompt_len + 1) 128)) [
  | inl room ↦
      let fits : ltb (length (typed c)) 127 ≡ true = ground (arith, v.text) in
      let next : c.prompt_len + 1 ≡ suc c.prompt_len = omega arith in
      let text = put_char c.prompt_buf c.prompt_len ch v.text (ground (arith, v.size)) ne in
      rw (room, fits, next)
        (record {
          typed_is = text;
          valid = record {
            size =
                length-set (set c.prompt_buf c.prompt_len ch) (suc c.prompt_len) 0
                ∙ length-set c.prompt_buf c.prompt_len ch
                ∙ v.size;
            text = rw text (omega (arith, length-append (typed c) (ch ∷ []), v.text));
            ends = ground arith;
          };
        })
  | inr full ↦
      let fits : ltb (length (typed c)) 127 ≡ false = ground (arith, v.text) in
      rw (full, fits) (record { typed_is = refl; valid = v })
]

take-none : (s : List ℕ) → length s ≡ 0 → take (length s - 1) s ≡ s
take-none [] h = refl
take-none (b ∷ bs) h = absurd (omega arith)

-- The backspace takes the last byte, if there is one.
pub erase_char-Edited :
    (c : Console) → IsPrompt c → Edited (erase_char c) (take (length (typed c) - 1) (typed c))
unfolding erase_char
erase_char-Edited c v = elim (Bool-cases (ltb 0 c.prompt_len)) [
  | inl some_left ↦
      let one : length (typed c) ≡ suc (c.prompt_len - 1) = ground (arith, v.text) in
      let less : length (typed c) - 1 ≡ c.prompt_len - 1 = omega (arith, v.text) in
      let text = erase_last c.prompt_buf (c.prompt_len - 1) one in
      rw (some_left, less)
        (record {
          typed_is = text;
          valid = record {
            size = length-set c.prompt_buf (c.prompt_len - 1) 0 ∙ v.size;
            text = rw text (length-take (c.prompt_len - 1) (typed c) ∙ omega (arith, one));
            ends = omega (arith, v.ends);
          };
        })
  | inr none_left ↦
      rw none_left
        (record { typed_is = sym (take-none (typed c) (ground (arith, v.text))); valid = v })
]

pub clear_prompt-Edited : (c : Console) → IsPrompt c → Edited (clear_prompt c) []
unfolding clear_prompt
clear_prompt-Edited c v = record {
  typed_is = cstr-clear c.prompt_buf;
  valid = record {
    size = length-set c.prompt_buf 0 0 ∙ v.size;
    text = rw (cstr-clear c.prompt_buf) refl;
    ends = omega arith;
  };
}
