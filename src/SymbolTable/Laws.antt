-- ===== src/SymbolTable/Laws.antt =====
-- The table as a map from names to values.
use quetzal_os.Base.{
  ℕ, ◌≡◌, ◌≢◌, ◌↔◌, Bool, true, false, ◌&&◌, inl, inr, List, [], ◌∷◌, none, some, take, length,
  Option-cases, arith, Bool-cases, ◌==◌, if◌then◌else◌, refl,
}
use quetzal_os.SymbolTable.{
  Symbol, set_existing, set_empty, get_existing, symbol_set, symbol_get, bad_length,
}
use quetzal_os.SymbolTable.Names.{length-put_name}
use quetzal_os.SymbolTable.Lookup.{
  IsName, HasBuffers, matches_same, matches_other, existing_same, existing_other, none_existing,
  empty_same, empty_other, written_same, written_other,
}

-- On a table whose slots have buffers of 32 bytes, after a successful `symbol_set` the name that
-- was set reads the new value; a name is the 1 to 31 bytes, none of them a NUL, that its pointer
-- and length delimit.
pub symbol_get-symbol_set :
    (n1 : List ℕ) (l1 val : ℕ) (n2 : List ℕ) (l2 : ℕ) (table : List Symbol) {t : List Symbol}
    → IsName n1 l1
    → IsName n2 l2
    → HasBuffers table
    → symbol_set n1 l1 val table ≡ some t
    → take l1 n1 ≡ take l2 n2
    → symbol_get n2 l2 t ≡ some val
unfolding symbol_set symbol_get
symbol_get-symbol_set n1 l1 val n2 l2 table {t} v1 v2 b e same =
    let accepts : (bad_length n1 l1 ≡ false) × (bad_length n2 l2 ≡ false) =
      (v1.accepted, v2.accepted) in
    elim (Option-cases (set_existing n1 l1 val table)) [
      | inl fresh ↦ ground (
        arith,
        accepts,
        empty_same n1 l1 val n2 l2 table {t = t} b (written_same n1 l1 n2 l2 v1 v2 val same)
            (none_existing n1 l1 val n2 l2 table (matches_same n1 l1 n2 l2 v1 v2 same) fresh),
      )
      | inr (u, found) ↦ ground (
        arith,
        accepts,
        existing_same n1 l1 val n2 l2 table (matches_same n1 l1 n2 l2 v1 v2 same) found,
      )
    ]

-- On a table whose slots have buffers of 32 bytes, after a successful `symbol_set` every name of 1
-- to 31 bytes, none of them a NUL, other than the one that was set reads what it read before.
pub symbol_get-symbol_set_other :
    (n1 : List ℕ) (l1 val : ℕ) (n2 : List ℕ) (l2 : ℕ) (table : List Symbol) {t : List Symbol}
    → IsName n1 l1
    → IsName n2 l2
    → HasBuffers table
    → symbol_set n1 l1 val table ≡ some t
    → take l1 n1 ≢ take l2 n2
    → symbol_get n2 l2 t ≡ symbol_get n2 l2 table
unfolding symbol_set symbol_get
symbol_get-symbol_set_other n1 l1 val n2 l2 table {t} v1 v2 b e ne =
    let accepts : (bad_length n1 l1 ≡ false) × (bad_length n2 l2 ≡ false) =
      (v1.accepted, v2.accepted) in
    elim (Option-cases (set_existing n1 l1 val table)) [
      | inl fresh ↦ ground (
        arith,
        accepts,
        empty_other n1 l1 val n2 l2 table {t = t} b (written_other n1 l1 n2 l2 v1 v2 val ne),
      )
      | inr (u, found) ↦ ground (
        arith,
        accepts,
        existing_other n1 l1 val n2 l2 table (matches_other n1 l1 n2 l2 v1 v2 ne) found,
      )
    ]

abbrev pub eq_bytes : List ℕ → List ℕ → Bool
eq_bytes [] [] = true
eq_bytes [] (y ∷ ys) = false
eq_bytes (x ∷ xs) [] = false
eq_bytes (x ∷ xs) (y ∷ ys) = x == y && eq_bytes xs ys

eq_bytes_iff : (xs ys : List ℕ) → (eq_bytes xs ys ≡ true) ↔ (xs ≡ ys)
eq_bytes_iff [] [] = (λ h. refl, λ h. refl)
eq_bytes_iff [] (y ∷ ys) = (λ h. cc (h), λ h. cc (h))
eq_bytes_iff (x ∷ xs) [] = (λ h. cc (h), λ h. cc (h))
eq_bytes_iff (x ∷ xs) (y ∷ ys) =
    let rest = eq_bytes_iff xs ys in (λ h. ground (arith, rest), λ h. ground (arith, rest))

-- On a table whose slots have buffers of 32 bytes, a successful `symbol_set` is an update of the map
-- from names to values: the name that was set reads the new value, and every other name what it read
-- before; a name is the 1 to 31 bytes, none of them a NUL, that its pointer and length delimit.
pub symbol_get-symbol_set_map :
    (n1 : List ℕ) (l1 val : ℕ) (n2 : List ℕ) (l2 : ℕ) (table : List Symbol) {t : List Symbol}
    → IsName n1 l1
    → IsName n2 l2
    → HasBuffers table
    → symbol_set n1 l1 val table ≡ some t
    → symbol_get n2 l2 t
      ≡ (if eq_bytes (take l1 n1) (take l2 n2) then some val else symbol_get n2 l2 table)
symbol_get-symbol_set_map n1 l1 val n2 l2 table v1 v2 b e =
    elim (Bool-cases (eq_bytes (take l1 n1) (take l2 n2))) [
      | inl same ↦
          rw same
            (symbol_get-symbol_set n1 l1 val n2 l2 table v1 v2 b e ((eq_bytes_iff _ _).0 same))
      | inr other ↦ rw other (
          symbol_get-symbol_set_other n1 l1 val n2 l2 table v1 v2 b e
            (λ same. cc (other, (eq_bytes_iff (take l1 n1) (take l2 n2)).1 same)))
    ]

abbrev pub all_set : List Symbol → Bool
all_set [] = true
all_set (s ∷ ss) = s.is_set && all_set ss

module _ (name : List ℕ) (len val : ℕ) where
  set_empty-none :
      (table : List Symbol) → (set_empty name len val table ≡ none) ↔ (all_set table ≡ true)
  unfolding set_empty
  set_empty-none [] = ground arith
  set_empty-none (s ∷ ss) = ground (arith, set_empty-none ss)

  set_existing-none :
      (table : List Symbol)
      → (set_existing name len val table ≡ none) ↔ (get_existing name len table ≡ none)
  unfolding set_existing get_existing
  set_existing-none [] = ground arith
  set_existing-none (s ∷ ss) = ground (arith, set_existing-none ss)

  set_existing_shape :
      (table : List Symbol) {t : List Symbol}
      → HasBuffers table
      → set_existing name len val table ≡ some t
      → HasBuffers t × (length t ≡ length table)
  unfolding set_existing
  set_existing_shape [] b e = cc
  set_existing_shape (s ∷ ss) b e = elim (Option-cases (set_existing name len val ss)) [
    | inl none_left ↦ ground arith
    | inr (u, found) ↦ ground (arith, set_existing_shape ss b.1 found)
  ]

  set_empty_shape :
      (table : List Symbol) {t : List Symbol}
      → HasBuffers table
      → set_empty name len val table ≡ some t
      → HasBuffers t × (length t ≡ length table)
  unfolding set_empty
  set_empty_shape [] b e = cc
  set_empty_shape (s ∷ ss) b e = elim (Option-cases (set_empty name len val ss)) [
    | inl none_left ↦ ground (arith, length-put_name len name s.name)
    | inr (u, found) ↦ ground (arith, length-put_name len name s.name, set_empty_shape ss b.1 found)
  ]

-- `symbol_set` with a length of 1 to 31 fails exactly if the name is not in the table and no slot
-- is empty.
pub symbol_set_fails_iff :
    (name : List ℕ) (len val : ℕ) (table : List Symbol)
    → bad_length name len ≡ false
    → (symbol_set name len val table ≡ none)
      ↔ ((symbol_get name len table ≡ none) × (all_set table ≡ true))
unfolding symbol_set symbol_get
symbol_set_fails_iff name len val table ok = elim (Option-cases (set_existing name len val table)) [
  | inl fresh ↦
      ground (arith, set_empty-none name len val table, set_existing-none name len val table)
  | inr (u, found) ↦
      ground (arith, set_empty-none name len val table, set_existing-none name len val table)
]

-- A successful `symbol_set` on a table whose slots have buffers of 32 bytes keeps the number of
-- slots and the size of every buffer.
pub symbol_set_shape :
    (name : List ℕ) (len val : ℕ) (table : List Symbol) {t : List Symbol}
    → HasBuffers table
    → symbol_set name len val table ≡ some t
    → HasBuffers t × (length t ≡ length table)
unfolding symbol_set
symbol_set_shape name len val table {t} b e =
    elim (Option-cases (set_existing name len val table)) [
      | inl fresh ↦ ground (arith, set_empty_shape name len val table {t = t} b)
      | inr (u, found) ↦ ground (arith, set_existing_shape name len val table b found)
    ]
