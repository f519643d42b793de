-- ===== src/SymbolTable/Examples.antt =====
-- The table at concrete names.
use quetzal_os.Base.{◌≡◌, ◌↔◌, refl, true, List, [], ◌∷◌, none, some, replicate, arith, codes}
use quetzal_os.SymbolTable.{Symbol, builtins_init, symbol_set, symbol_get, empty_slot, str_equal}
use quetzal_os.SymbolTable.Lookup.{IsName}
use quetzal_os.SymbolTable.Laws.{all_set, symbol_set_fails_iff}
use quetzal_os.Base.{if◌then◌else◌}
use quetzal_os.SymbolTable.Laws.{eq_bytes, symbol_get-symbol_set_map}

jade : symbol_get (codes "COLOR_JADE = 1") 10 builtins_init ≡ some 0xa86b
unfolding symbol_get builtins_init str_equal
jade = refl

abbrev small : List Symbol
small = empty_slot ∷ []

abbrev holding_x : List Symbol
holding_x = record { name = b'x' ∷ replicate 31 0; value = 7; is_set = true } ∷ []

set_x : symbol_set (codes "x = 7") 1 7 small ≡ some holding_x
unfolding symbol_set str_equal
set_x = refl

x-IsName : IsName (codes "x = 7") 1
x-IsName = record { no_nul = omega arith; enough = omega arith; accepted = refl }

y-IsName : IsName (codes "y;") 1
y-IsName = record { no_nul = omega arith; enough = omega arith; accepted = refl }

again-IsName : IsName (codes "x + 1") 1
again-IsName = record { no_nul = omega arith; enough = omega arith; accepted = refl }

symbol_set_fails_iff_example :
    (symbol_set (codes "y;") 1 3 holding_x ≡ none)
    ↔ ((symbol_get (codes "y;") 1 holding_x ≡ none) × (all_set holding_x ≡ true))
symbol_set_fails_iff_example = symbol_set_fails_iff (codes "y;") 1 3 holding_x refl

symbol_get-symbol_set_map_example :
    symbol_get (codes "y;") 1 holding_x
    ≡ (if eq_bytes (b'x' ∷ []) (b'y' ∷ []) then some 7 else symbol_get (codes "y;") 1 small)
symbol_get-symbol_set_map_example =
    symbol_get-symbol_set_map (codes "x = 7") 1 7 (codes "y;") 1 small x-IsName y-IsName
      (omega arith) set_x
