-- ===== src/Keyboard/Interleave.antt =====
-- The interrupt handler between any two atomic operations of `keyboard_getchar`, of which there
-- are four: load the head, load the tail, read the byte, store the tail.
use quetzal_os.Base.{
  ℕ, suc, ◌+◌, ◌-◌, ◌%◌, ◌<◌, ◌≡◌, ◌≢◌, refl, sym, ap, ◌∙◌, inl, inr, List, [], ◌∷◌, ◌++◌,
  append_assoc, get_or, length, ◌==◌, Bool-cases, arith,
}
use quetzal_os.Keyboard.{Keyboard, keyboard_handler}
use quetzal_os.Keyboard.Ring.{IsValid, contents, cells, fill, accepted, length-contents}
use quetzal_os.Keyboard.Refine.{key_char, keyboard_handler-Handled}

-- Where the reader stands, with its local variables.
pub data Reader : Type 0 where
  idle : Reader
  has_head : ℕ → Reader
  has_both : ℕ → Reader
  has_char : ℕ → ℕ → Reader

-- The keyboard, the reader, and two records of the past: the characters that the ring took in, and
-- those that `keyboard_getchar` returned (a 0 for an empty ring not among them).
pub record System : Type 0 where
  pub kbd : Keyboard
  pub reader : Reader
  pub taken_in : List ℕ
  pub returned : List ℕ

-- The characters that a scan code adds.
abbrev pub added : ℕ → Keyboard → List ℕ
added scancode k = accepted (key_char k.is_e0 k.shift_pressed scancode) (contents k)

pub data Step : System → System → Type 0 where
  irq :
      (y : System) (scancode : ℕ)
      → scancode < 256
      → Step y (record y {
        kbd = (keyboard_handler scancode y.kbd).0;
        taken_in = y.taken_in ++ added scancode y.kbd;
      })
  load_head :
      (y : System) → y.reader ≡ idle → Step y (record y { reader = has_head y.kbd.kbd_head })
  find_empty :
      (y : System) (h : ℕ)
      → y.reader ≡ has_head h
      → h ≡ y.kbd.kbd_tail
      → Step y (record y { reader = idle })
  load_tail :
      (y : System) (h : ℕ)
      → y.reader ≡ has_head h
      → h ≢ y.kbd.kbd_tail
      → Step y (record y { reader = has_both y.kbd.kbd_tail })
  read_byte :
      (y : System) (t : ℕ)
      → y.reader ≡ has_both t
      → Step y (record y { reader = has_char t (get_or y.kbd.kbd_buffer t 0) })
  store_tail :
      (y : System) (t ch : ℕ)
      → y.reader ≡ has_char t ch
      → Step y (record y {
        kbd = record (y.kbd) { kbd_tail = (t + 1) % 256 };
        reader = idle;
        returned = y.returned ++ ch ∷ [];
      })

pub data Reach (y : System) : System → Type 0 where
  here : Reach y y
  next : {z w : System} → Reach y z → Step z w → Reach y w

-- What the reader's variables say of the keyboard as it is now.
abbrev Knows : Reader → Keyboard → Type 0
Knows idle k = Unit {0}
Knows (has_head h) k = h ≢ k.kbd_tail → contents k ≢ []
Knows (has_both t) k = (t ≡ k.kbd_tail) × (contents k ≢ [])
Knows (has_char t ch) k = (t ≡ k.kbd_tail) × (q : List ℕ) × (contents k ≡ ch ∷ q)

-- The invariant: what was taken in is what was returned and what still waits, in order.
pub record IsInv (y : System) : Type 0 where
  pub valid : IsValid y.kbd
  pub fifo : y.taken_in ≡ y.returned ++ contents y.kbd
  pub knows : Knows y.reader y.kbd

nil_of_append : (xs ys : List ℕ) → xs ++ ys ≡ [] → xs ≡ []
nil_of_append [] ys e = refl
nil_of_append (x ∷ xs) ys e = cc

module _ (k k' : Keyboard) (xs : List ℕ) (e : k'.kbd_tail ≡ k.kbd_tail)
    (f : contents k' ≡ contents k ++ xs) where
  still_some : contents k ≢ [] → contents k' ≢ []
  still_some n empty = n (nil_of_append (contents k) xs (sym f ∙ empty))

  -- What the reader knows stays true while the ring only grows.
  Knows-irq : (r : Reader) → Knows r k → Knows r k'
  Knows-irq idle h = tt
  Knows-irq (has_head h) n = λ ne. still_some (n (λ same. ne (same ∙ sym e)))
  Knows-irq (has_both t) (same, n) = (same ∙ sym e, still_some n)
  Knows-irq (has_char t ch) (same, q, c) = (same ∙ sym e, q ++ xs, f ∙ ap (λ l. l ++ xs) c)

first_cell :
    (k : Keyboard) (n : ℕ)
    → fill k ≡ suc n
    → (q : List ℕ) × (contents k ≡ get_or k.kbd_buffer k.kbd_tail 0 ∷ q)
first_cell k n e = (cells k.kbd_buffer ((k.kbd_tail + 1) % 256) n, rw e refl)

-- A ring that is not empty begins with the byte at its tail.
first_char :
    (k : Keyboard)
    → contents k ≢ []
    → (q : List ℕ) × (contents k ≡ get_or k.kbd_buffer k.kbd_tail 0 ∷ q)
first_char k n = elim (Bool-cases (fill k == 0)) [
  | inl none_left ↦ let zero_fill : fill k ≡ 0 = ground arith in absurd (n (rw zero_fill refl))
  | inr more ↦ first_cell k (fill k - 1) (ground arith)
]

-- With the tail moved on by one, the first character is gone and the rest waits.
contents_tail :
    (k : Keyboard) (ch : ℕ) (q : List ℕ)
    → IsValid k
    → contents k ≡ ch ∷ q
    → contents (record k { kbd_tail = (k.kbd_tail + 1) % 256 }) ≡ q
contents_tail k ch q v c =
    let count : fill k ≡ suc (length q) = sym (length-contents k) ∙ ap length c in
    let more : fill k ≡ suc ((k.kbd_head + 256 - (k.kbd_tail + 1) % 256) % 256) = omega arith in
    let shape = rw more at c in cc shape

-- The head and the tail differ only where a character waits.
some_waits : (k : Keyboard) → IsValid k → k.kbd_head ≢ k.kbd_tail → contents k ≢ []
some_waits k v ne empty =
    let none_left : fill k ≡ 0 = sym (length-contents k) ∙ ap length empty in omega arith

Step-IsInv : {y z : System} → Step y z → IsInv y → IsInv z
Step-IsInv (irq y scancode h) i =
    let r = keyboard_handler-Handled scancode y.kbd i.valid h in
    record {
      valid = r.valid;
      fifo = rw (i.fifo, r.queue) (append_assoc y.returned (contents y.kbd) (added scancode y.kbd));
      knows =
          Knows-irq y.kbd (keyboard_handler scancode y.kbd).0 (added scancode y.kbd) r.tail_kept
            r.queue y.reader i.knows;
    }
Step-IsInv (load_head y e) i = record {
  valid = i.valid;
  fifo = i.fifo;
  knows = some_waits y.kbd i.valid;
}
Step-IsInv (find_empty y h e same) i = record { valid = i.valid; fifo = i.fifo; knows = tt }
Step-IsInv (load_tail y h e ne) i = record {
  valid = i.valid;
  fifo = i.fifo;
  knows = (refl, (rw e at i.knows) ne);
}
Step-IsInv (read_byte y t e) i = record {
  valid = i.valid;
  fifo = i.fifo;
  knows = read (rw e at i.knows);
}
  where
    read : Knows (has_both t) y.kbd → Knows (has_char t (get_or y.kbd.kbd_buffer t 0)) y.kbd
    read (same, n) = let (q, c) = first_char y.kbd n in (same, q, rw same c)
Step-IsInv (store_tail y t ch e) i = stored (rw e at i.knows)
  where
    stored :
        Knows (has_char t ch) y.kbd
        → IsInv (record y {
          kbd = record (y.kbd) { kbd_tail = (t + 1) % 256 };
          reader = idle;
          returned = y.returned ++ ch ∷ [];
        })
    stored (same, q, c) =
        let moved : contents (record (y.kbd) { kbd_tail = (t + 1) % 256 }) ≡ q =
          rw same (contents_tail y.kbd ch q i.valid c) in
        record {
          valid = record { size = i.valid.size; head_in = i.valid.head_in; tail_in = omega arith };
          fifo =
              i.fifo
              ∙ ap (λ l. y.returned ++ l) c
              ∙ rw moved (sym (append_assoc y.returned (ch ∷ []) q));
          knows = tt;
        }

-- From any state that satisfies the invariant, however the interrupt handler and the four steps of
-- `keyboard_getchar` interleave, it holds: the characters that the ring took in are those that were
-- returned, followed by those that wait, in order, and the ring is valid.
pub Reach-IsInv : {y z : System} → Reach y z → IsInv y → IsInv z
Reach-IsInv here i = i
Reach-IsInv (next r st) i = Step-IsInv st (Reach-IsInv r i)
