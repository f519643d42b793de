-- ===== src/SymbolTable/Lookup.antt =====
-- What a name matches, and what the loops of `symbol_set` leave for the loop of `symbol_get`.
use quetzal_os.Base.{
  ℕ, ◌≤◌, ◌≡◌, ◌≢◌, refl, sym, ◌∙◌, true, false, inl, inr, List, [], ◌∷◌, none, some, take, length,
  Bool-cases, Option-cases, arith, cstr,
}
use quetzal_os.SymbolTable.{
  Symbol, str_equal, put_name, matches, set_existing, set_empty, get_existing, bad_length,
}
use quetzal_os.SymbolTable.Names.{NoNul, str_equal_iff, cstr-put_name}

-- A name as the program passes it: `len` bytes from the pointer on, none of them a NUL, in a length
-- that the table accepts.
pub record IsName (name : List ℕ) (len : ℕ) : Type 0 where
  pub no_nul : NoNul (take len name)
  pub enough : len ≤ length name
  pub accepted : bad_length name len ≡ false

-- Every slot has its buffer.
abbrev pub HasBuffers : List Symbol → Type 0
HasBuffers [] = Unit {0}
HasBuffers (s ∷ ss) = (length s.name ≡ 32) × HasBuffers ss

-- A slot that matches holds the name.
pub stored_name :
    (name : List ℕ) (len : ℕ) (s : Symbol)
    → IsName name len
    → matches name len s ≡ true
    → take len name ≡ cstr s.name
stored_name name len s v m = (str_equal_iff name len s.name v.enough).0 (ground arith)

module _ (n1 : List ℕ) (l1 : ℕ) (n2 : List ℕ) (l2 : ℕ) (v1 : IsName n1 l1) (v2 : IsName n2 l2) where
  -- Equal names match the same slots.
  pub matches_same : take l1 n1 ≡ take l2 n2 → (s : Symbol) → matches n1 l1 s ≡ matches n2 l2 s
  matches_same e s =
      ground (arith, str_equal_iff n1 l1 s.name v1.enough, str_equal_iff n2 l2 s.name v2.enough)

  -- Other names match other slots.
  pub matches_other :
      take l1 n1 ≢ take l2 n2 → (s : Symbol) → matches n1 l1 s ≡ true → matches n2 l2 s ≡ false
  matches_other ne s m = elim (Bool-cases (matches n2 l2 s)) [
    | inl m2 ↦ absurd (ne (stored_name n1 l1 s v1 m ∙ sym (stored_name n2 l2 s v2 m2)))
    | inr other ↦ other
  ]

module _ (name : List ℕ) (len : ℕ) (val : ℕ) (n2 : List ℕ) (l2 : ℕ) where
  pub existing_same :
      (table : List Symbol) {t : List Symbol}
      → ((s : Symbol) → matches name len s ≡ matches n2 l2 s)
      → set_existing name len val table ≡ some t
      → get_existing n2 l2 t ≡ some val
  unfolding set_existing get_existing
  existing_same [] same e = cc
  existing_same (s ∷ ss) same e = elim (Option-cases (set_existing name len val ss)) [
    | inl none_left ↦ ground (arith, same s)
    | inr (u, found) ↦ ground (arith, same s, existing_same ss same found)
  ]

  pub existing_other :
      (table : List Symbol) {t : List Symbol}
      → ((s : Symbol) → matches name len s ≡ true → matches n2 l2 s ≡ false)
      → set_existing name len val table ≡ some t
      → get_existing n2 l2 t ≡ get_existing n2 l2 table
  unfolding set_existing get_existing
  existing_other [] other e = cc
  existing_other (s ∷ ss) other e = elim (Option-cases (set_existing name len val ss)) [
    | inl none_left ↦ ground (arith, other s)
    | inr (u, found) ↦ ground (arith, other s, existing_other ss other found)
  ]

  pub none_existing :
      (table : List Symbol)
      → ((s : Symbol) → matches name len s ≡ matches n2 l2 s)
      → set_existing name len val table ≡ none
      → get_existing n2 l2 table ≡ none
  unfolding set_existing get_existing
  none_existing [] same e = refl
  none_existing (s ∷ ss) same e = elim (Option-cases (set_existing name len val ss)) [
    | inl none_left ↦ ground (arith, same s, none_existing ss same none_left)
    | inr (u, found) ↦ ground arith
  ]

  -- The slot that `set_empty` writes.
  abbrev pub written : Symbol → Symbol
  written s = record { name = put_name len name s.name; value = val; is_set = true }

  pub empty_same :
      (table : List Symbol) {t : List Symbol}
      → HasBuffers table
      → ((s : Symbol) → length s.name ≡ 32 → matches n2 l2 (written s) ≡ true)
      → get_existing n2 l2 table ≡ none
      → set_empty name len val table ≡ some t
      → get_existing n2 l2 t ≡ some val
  unfolding set_empty get_existing
  empty_same [] b same free e = cc
  empty_same (s ∷ ss) b same free e = elim (Option-cases (set_empty name len val ss)) [
    | inl none_left ↦ ground (arith, same s b.0)
    | inr (u, found) ↦
        ground
          (arith, same s b.0, λ (g : get_existing n2 l2 ss ≡ none). empty_same ss b.1 same g found)
  ]

  pub empty_other :
      (table : List Symbol) {t : List Symbol}
      → HasBuffers table
      → ((s : Symbol) → length s.name ≡ 32 → matches n2 l2 (written s) ≡ false)
      → set_empty name len val table ≡ some t
      → get_existing n2 l2 t ≡ get_existing n2 l2 table
  unfolding set_empty get_existing
  empty_other [] b other e = cc
  empty_other (s ∷ ss) b other e = elim (Option-cases (set_empty name len val ss)) [
    | inl none_left ↦ ground (arith, other s b.0)
    | inr (u, found) ↦ ground (arith, other s b.0, empty_other ss b.1 other found)
  ]

module _ (n1 : List ℕ) (l1 : ℕ) (n2 : List ℕ) (l2 : ℕ) (v1 : IsName n1 l1) (v2 : IsName n2 l2)
    (val : ℕ) where
  pub written_name : (s : Symbol) → length s.name ≡ 32 → cstr (put_name l1 n1 s.name) ≡ take l1 n1
  written_name s b = cstr-put_name l1 n1 s.name v1.no_nul v1.enough (ground (arith, v1.accepted))

  pub written_same :
      take l1 n1 ≡ take l2 n2
      → (s : Symbol) → length s.name ≡ 32
      → str_equal n2 l2 (put_name l1 n1 s.name) ≡ true
  written_same e s b = (str_equal_iff n2 l2 _ v2.enough).1 (sym e ∙ sym (written_name s b))

  pub written_other :
      take l1 n1 ≢ take l2 n2
      → (s : Symbol) → length s.name ≡ 32
      → str_equal n2 l2 (put_name l1 n1 s.name) ≡ false
  written_other ne s b = elim (Bool-cases (str_equal n2 l2 (put_name l1 n1 s.name))) [
    | inl m ↦ absurd (ne (sym (written_name s b) ∙ sym ((str_equal_iff n2 l2 _ v2.enough).0 m)))
    | inr other ↦ other
  ]
