-- ===== src/Keyboard/Refine.antt =====
-- The handler and `keyboard_getchar` against a bounded queue of characters.
use quetzal_os.Base.{
  ℕ, suc, ◌+◌, ◌-◌, ◌%◌, ◌<◌, ◌≡◌, ◌↔◌, refl, sym, ap, ◌∙◌, Bool, true, false, ◌||◌, ◌⊎◌, inl, inr,
  List, [], ◌∷◌, ◌++◌, append-nil, byte_test, length, ltb, leb, ◌==◌, if◌then◌else◌, Bool-cases,
  arith, all_below, all_below_sound,
}
use mathlib.Core.Path.{subst}
use quetzal_os.Io.{PortWrite, eoi_master}
use quetzal_os.Keyboard.{
  Keyboard, enqueue, arrow_char, table_char, keyboard_handler, keyboard_has_char, keyboard_getchar,
}
use quetzal_os.Keyboard.Ring.{
  IsValid, contents, fill, accepted, contents-enqueue, enqueue-IsValid, enqueue_flags,
  length-contents,
}

-- The character that a scan code stands for, 0 for none: behind the prefix an arrow key, else by
-- the table that the shift state picks; nothing for a release code.
abbrev pub key_char : Bool → Bool → ℕ → ℕ
key_char e0 shift scancode =
    if leb 0x80 scancode
    then 0
    else if e0
    then arrow_char scancode
    else if scancode == 0x2a || scancode == 0x36
    then 0
    else table_char shift scancode

-- The shift state behind a scan code; codes behind the prefix do not change it.
abbrev pub next_shift : Bool → Bool → ℕ → Bool
next_shift e0 shift scancode =
    if e0
    then shift
    else if scancode == 0x2a || scancode == 0x36
    then true
    else if scancode == 0xaa || scancode == 0xb6
    then false
    else shift

release_table : all_below 256 (λ x. if byte_test x 7 then leb 0x80 x else ltb x 0x80) ≡ true
unfolding all_below byte_test
release_table = refl

release_bit : (x : ℕ) → x < 256 → byte_test x 7 ≡ leb 0x80 x
release_bit x h = ground (arith, all_below_sound 256 _ x release_table h)

-- What one scan code does to a valid keyboard: the ring takes in the character it stands for, if
-- it stands for one and fewer than 255 characters wait, and keeps the rest; the prefix flag is set
-- exactly behind 0xE0; the shift flag follows the shift keys; the interrupt is acknowledged once.
pub record Handled (scancode : ℕ) (k : Keyboard) (r : Keyboard × List PortWrite) : Type 0 where
  pub queue :
      contents r.0 ≡ contents k ++ accepted (key_char k.is_e0 k.shift_pressed scancode) (contents k)
  pub prefix : r.0.is_e0 ≡ (scancode == 0xe0)
  pub shift : r.0.shift_pressed ≡ next_shift k.is_e0 k.shift_pressed scancode
  pub tail_kept : r.0.kbd_tail ≡ k.kbd_tail
  pub valid : IsValid r.0
  pub acknowledged : r.1 ≡ eoi_master ∷ []

module _ (scancode : ℕ) (k : Keyboard) (e s : Bool) (v : IsValid k)
    (prefix : e ≡ (scancode == 0xe0))
    (shift : s ≡ next_shift k.is_e0 k.shift_pressed scancode) where
  -- The scan code stands for no character: the flags alone change.
  silent :
      key_char k.is_e0 k.shift_pressed scancode ≡ 0
      → Handled scancode k (record k { is_e0 = e; shift_pressed = s }, eoi_master ∷ [])
  silent null = record {
    queue = rw null (sym (append-nil (contents k)));
    prefix = prefix;
    shift = shift;
    tail_kept = refl;
    valid = record { size = v.size; head_in = v.head_in; tail_in = v.tail_in };
    acknowledged = refl;
  }

  -- The scan code stands for `ch`.
  typed :
      (ch : ℕ)
      → key_char k.is_e0 k.shift_pressed scancode ≡ ch
      → Handled scancode k (enqueue ch (record k { is_e0 = e; shift_pressed = s }), eoi_master ∷ [])
  typed ch char =
      let k' : Keyboard = record k { is_e0 = e; shift_pressed = s } in
      let v' : IsValid k' = record { size = v.size; head_in = v.head_in; tail_in = v.tail_in } in
      record {
        queue = rw char (contents-enqueue ch k' v');
        prefix = (enqueue_flags ch k').0 ∙ prefix;
        shift = (enqueue_flags ch k').1 ∙ shift;
        tail_kept = (enqueue_flags ch k').2;
        valid = enqueue-IsValid ch k' v';
        acknowledged = refl;
      }

via :
    {scancode : ℕ} {k : Keyboard} {r t : Keyboard × List PortWrite}
    → Handled scancode k r
    → t ≡ r
    → Handled scancode k t
via {scancode} {k} h e = subst (Handled scancode k) (sym e) h

module _ (scancode : ℕ) (k : Keyboard) (v : IsValid k) (h : scancode < 256)
    (ne : (scancode == 0xe0) ≡ false) where
  plain_key : k.is_e0 ≡ false → Handled scancode k (keyboard_handler scancode k)
  unfolding keyboard_handler
  plain_key e = elim (Bool-cases (scancode == 0x2a || scancode == 0x36)) [
    | inl press ↦
        via (silent scancode k k.is_e0 true v (ground arith) (ground arith) (ground arith))
          (simp (ne, e, press))
    | inr other ↦ elim (Bool-cases (scancode == 0xaa || scancode == 0xb6)) [
      | inl lift ↦
          via (silent scancode k k.is_e0 false v (ground arith) (ground arith) (ground arith))
            (simp (ne, e, other, lift))
      | inr rest ↦ elim (Bool-cases (leb 0x80 scancode)) [
        | inl release ↦
            via
              (silent scancode k k.is_e0 k.shift_pressed v (ground arith) (ground arith)
                (ground arith))
              (ground (arith, release_bit scancode h))
        | inr press ↦
            let low : ltb scancode 128 ≡ true = ground arith in
            via
              (typed scancode k k.is_e0 k.shift_pressed v (ground arith) (ground arith)
                (table_char k.shift_pressed scancode) (ground arith))
              (ground (arith, release_bit scancode h))
      ]
    ]
  ]

  arrow_key : k.is_e0 ≡ true → Handled scancode k (keyboard_handler scancode k)
  unfolding keyboard_handler
  arrow_key e = elim (Bool-cases (leb 0x80 scancode)) [
    | inl release ↦
        via (silent scancode k false k.shift_pressed v (ground arith) (ground arith) (ground arith))
          (simp (ne, e, release_bit scancode h, release))
    | inr press ↦
        via
          (typed scancode k false k.shift_pressed v (ground arith) (ground arith)
            (arrow_char scancode) (ground arith))
          (simp (ne, e, release_bit scancode h, press))
  ]

-- For every scan code of a byte, prefixes and releases included, and every valid keyboard: the ring
-- takes in the character that the code stands for, if it stands for one and fewer than 255
-- characters wait, and keeps the rest; the prefix flag is set exactly behind 0xE0, the shift flag
-- follows the shift keys, and the interrupt is acknowledged once.
pub keyboard_handler-Handled :
    (scancode : ℕ) (k : Keyboard)
    → IsValid k
    → scancode < 256
    → Handled scancode k (keyboard_handler scancode k)
unfolding keyboard_handler
keyboard_handler-Handled scancode k v h = elim (Bool-cases (scancode == 0xe0)) [
  | inl prefix ↦
      via (silent scancode k true k.shift_pressed v (ground arith) (ground arith) (ground arith))
        (simp prefix)
  | inr key ↦ elim (Bool-cases k.is_e0) [
    | inl e ↦ arrow_key scancode k v h key e
    | inr e ↦ plain_key scancode k v h key e
  ]
]

-- On a valid ring, `keyboard_getchar` takes the oldest character and keeps the ring valid; with
-- none it returns 0 and changes nothing.
pub keyboard_getchar_lem :
    (k : Keyboard)
    → IsValid k
    → ((contents k ≡ []) × (keyboard_getchar k ≡ (0, k)))
      ⊎ ((contents k ≡ (keyboard_getchar k).0 ∷ contents (keyboard_getchar k).1)
          × IsValid (keyboard_getchar k).1)
unfolding keyboard_getchar
keyboard_getchar_lem k v = elim (Bool-cases (k.kbd_head == k.kbd_tail)) [
  | inl none_left ↦
      let zero_fill : fill k ≡ 0 = ground arith in inl (rw zero_fill refl, rw none_left refl)
  | inr some_left ↦
      let more : fill k ≡ suc ((k.kbd_head + 256 - (k.kbd_tail + 1) % 256) % 256) = ground arith in
      rw some_left
        (inr (rw more refl, record { size = v.size; head_in = v.head_in; tail_in = omega arith }))
]

-- On a valid ring, `keyboard_has_char` answers no exactly if no character waits.
pub keyboard_has_char_iff :
    (k : Keyboard) → IsValid k → (keyboard_has_char k ≡ false) ↔ (contents k ≡ [])
unfolding keyboard_has_char
keyboard_has_char_iff k v = (
  λ e. let zero_fill : fill k ≡ 0 = ground arith in rw zero_fill refl,
  λ e. let zero_fill : fill k ≡ 0 = omega (arith, ap length e, length-contents k) in ground arith,
)
