-- ===== src/Keyboard/Ring.antt =====
-- The characters that the ring holds, oldest first.
use quetzal_os.Base.{
  ℕ, zero, suc, ◌+◌, ◌-◌, ◌%◌, ◌<◌, ◌≡◌, ◌≢◌, refl, sym, ap, false, inl, inr, List, [], ◌∷◌, ◌++◌,
  append-nil, get_or, set, length, length-set, get_or-set_self, get_or-set_ne, ◌==◌, if◌then◌else◌,
  Bool-cases, arith,
}
use quetzal_os.Keyboard.{Keyboard, enqueue}

-- The `n` bytes from index `t` on, going round at 256.
abbrev pub cells : List ℕ → ℕ → ℕ → List ℕ
cells buf t zero = []
cells buf t (suc n) = get_or buf t 0 ∷ cells buf ((t + 1) % 256) n

pub length-cells : (buf : List ℕ) (t n : ℕ) → length (cells buf t n) ≡ n
length-cells buf t zero = refl
length-cells buf t (suc n) = ap suc (length-cells buf ((t + 1) % 256) n)

-- Writing the byte behind them makes them one more.
cells-set :
    (buf : List ℕ) (x n t i : ℕ)
    → length buf ≡ 256
    → t < 256
    → n < 256
    → i ≡ (t + n) % 256
    → cells (set buf i x) t (suc n) ≡ cells buf t n ++ x ∷ []
cells-set buf x zero t i size ht hn e =
    let at_t : i ≡ t = omega arith in rw (at_t, get_or-set_self buf t x 0 (omega arith)) refl
cells-set buf x (suc n) t i size ht hn e =
    let other : i ≢ t = omega arith in
    rw
      (
        get_or-set_ne buf i t x 0 other,
        cells-set buf x n ((t + 1) % 256) i size (omega arith) (omega arith) (omega arith),
      )
      refl

-- How many characters wait.
abbrev pub fill : Keyboard → ℕ
fill k = (k.kbd_head + 256 - k.kbd_tail) % 256

abbrev pub contents : Keyboard → List ℕ
contents k = cells k.kbd_buffer k.kbd_tail (fill k)

-- The ring's invariant.
pub record IsValid (k : Keyboard) : Type 0 where
  pub size : length k.kbd_buffer ≡ 256
  pub head_in : k.kbd_head < 256
  pub tail_in : k.kbd_tail < 256

pub length-contents : (k : Keyboard) → length (contents k) ≡ fill k
length-contents k = length-cells k.kbd_buffer k.kbd_tail (fill k)

-- The bounded queue: a character is taken in unless it is 0 or 255 characters wait.
abbrev pub accepted : ℕ → List ℕ → List ℕ
accepted ch q = if ch == 0 then [] else if length q == 255 then [] else ch ∷ []

pub enqueue-IsValid : (ch : ℕ) (k : Keyboard) → IsValid k → IsValid (enqueue ch k)
unfolding enqueue
enqueue-IsValid ch k v = ground (arith, length-set k.kbd_buffer k.kbd_head ch)

pub enqueue_flags :
    (ch : ℕ) (k : Keyboard)
    → ((enqueue ch k).is_e0 ≡ k.is_e0)
      × ((enqueue ch k).shift_pressed ≡ k.shift_pressed)
      × ((enqueue ch k).kbd_tail ≡ k.kbd_tail)
unfolding enqueue
enqueue_flags ch k = ground arith

contents_push :
    (ch : ℕ) (k : Keyboard)
    → IsValid k
    → (k.kbd_head + 1) % 256 ≢ k.kbd_tail
    → cells
        (set k.kbd_buffer k.kbd_head ch)
        k.kbd_tail
        (((k.kbd_head + 1) % 256 + 256 - k.kbd_tail) % 256)
      ≡ contents k ++ ch ∷ []
contents_push ch k v ne =
    let more : ((k.kbd_head + 1) % 256 + 256 - k.kbd_tail) % 256 ≡ suc (fill k) = omega arith in
    rw more (
      cells-set k.kbd_buffer ch (fill k) k.kbd_tail k.kbd_head v.size v.tail_in (omega arith)
        (omega arith))

-- `enqueue` is the bounded queue's push.
pub contents-enqueue :
    (ch : ℕ) (k : Keyboard)
    → IsValid k
    → contents (enqueue ch k) ≡ contents k ++ accepted ch (contents k)
unfolding enqueue
contents-enqueue ch k v = elim (Bool-cases (ch == 0)) [
  | inl null ↦ rw null (sym (append-nil (contents k)))
  | inr char ↦ elim (Bool-cases ((k.kbd_head + 1) % 256 == k.kbd_tail)) [
    | inl full ↦
        let count : length (contents k) ≡ 255 = ground (arith, length-contents k) in
        rw (char, full, count) (sym (append-nil (contents k)))
    | inr room ↦
        let count : (length (contents k) == 255) ≡ false = ground (arith, length-contents k) in
        rw (char, room, count) (contents_push ch k v (ground arith))
  ]
]
