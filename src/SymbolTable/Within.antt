-- ===== src/SymbolTable/Within.antt =====
-- A name is read no further than its length.
use quetzal_os.Base.{ℕ, ◌≡◌, refl, ap, inl, inr, List, [], ◌∷◌, ◌++◌, drop, length, Option-cases}
use quetzal_os.SymbolTable.{
  Symbol, str_equal, put_name, set_existing, set_empty, get_existing, symbol_set, symbol_get,
  assign_symbol,
}

module _ (rest : List ℕ) where
  pub str_equal_within :
      (x other : List ℕ) → str_equal (x ++ rest) (length x) other ≡ str_equal x (length x) other
  unfolding str_equal
  str_equal_within [] other = refl
  str_equal_within (c ∷ cs) other = rw (str_equal_within cs (drop 1 other)) refl

  put_name_within :
      (x dst : List ℕ) → put_name (length x) (x ++ rest) dst ≡ put_name (length x) x dst
  unfolding put_name
  put_name_within [] [] = refl
  put_name_within [] (d ∷ ds) = refl
  put_name_within (c ∷ cs) [] = refl
  put_name_within (c ∷ cs) (d ∷ ds) = ap (λ l. c ∷ l) (put_name_within cs ds)

  module _ (x : List ℕ) where
    get_within :
        (t : List Symbol) → get_existing (x ++ rest) (length x) t ≡ get_existing x (length x) t
    unfolding get_existing
    get_within [] = refl
    get_within (s ∷ ss) = rw (str_equal_within x s.name, get_within ss) refl

    set_within :
        (val : ℕ) (t : List Symbol)
        → set_existing (x ++ rest) (length x) val t ≡ set_existing x (length x) val t
    unfolding set_existing
    set_within val [] = refl
    set_within val (s ∷ ss) = rw (str_equal_within x s.name, set_within val ss) refl

    empty_within :
        (val : ℕ) (t : List Symbol)
        → set_empty (x ++ rest) (length x) val t ≡ set_empty x (length x) val t
    unfolding set_empty
    empty_within val [] = refl
    empty_within val (s ∷ ss) = rw (put_name_within x s.name, empty_within val ss) refl

    pub symbol_get_within :
        (t : List Symbol) → symbol_get (x ++ rest) (length x) t ≡ symbol_get x (length x) t
    unfolding symbol_get
    symbol_get_within t = rw (get_within t) refl

    pub assign_symbol_within :
        (val : ℕ) (t : List Symbol)
        → assign_symbol (x ++ rest) (length x) val t ≡ assign_symbol x (length x) val t
    unfolding assign_symbol symbol_set
    assign_symbol_within val t = elim (Option-cases (set_existing x (length x) val t)) [
      | inl fresh ↦ rw (set_within val t, fresh, empty_within val t) refl
      | inr (u, found) ↦ rw (set_within val t, found) refl
    ]
