-- ===== src/SymbolTable.antt =====
-- kernel/serpentc/builtins.c: the table of 32 variables. A name is a pointer to its bytes and a
-- length; a slot holds a copy with a NUL in a buffer of 32 bytes.
pub mod Names
pub mod Lookup
pub mod Within
pub mod Laws
mod Examples
use mathlib.Core.Option
use quetzal_os.Base.{
  ℕ, zero, suc, ◌+◌, ◌-◌, ◌*◌, ◌/◌, ◌%◌, ◌^◌, ◌≤◌, ◌<◌, ◌≡◌, ◌≢◌, ◌↔◌, refl, sym, ap, ◌∙◌, fun_ext,
  Bool, true, false, not, ◌&&◌, ◌||◌, ◌⊎◌, inl, inr, List, [], ◌∷◌, ◌++◌, map, Option, none, some,
  append-nil, append_assoc, min, or_nibble, bit_and, bit_or, byte_set, byte_clear, byte_test,
  get_or, set, take, drop, replicate, length, length-append, length-set, length-replicate,
  length-take, length-drop, get_or-set_self, get_or-set_ne, take-append-drop, ltb, leb, ◌==◌,
  if◌then◌else◌, Bool-cases, Bool-ext, ==_iff, ltb_iff, arith, all_below, all_below_sound, codes,
  cstr, copy_str, length-copy_str, cstr-copy_str, length-cstr, cstr-cstr, length-take-cstr, u8, u16,
  u32, u64, sub_u32,
}

abbrev pub serpentc_max_vars : ℕ
serpentc_max_vars = 32

abbrev pub serpentc_max_name : ℕ
serpentc_max_name = 32

-- `symbol_t`
pub record Symbol : Type 0 where
  pub name : List ℕ
  pub value : ℕ
  pub is_set : Bool

-- The loop of `str_equal` over `s1[i..]` and `s2[i..]`, with `len1 - i` rounds left.
unfoldable pub str_equal : List ℕ → ℕ → List ℕ → Bool
str_equal s1 zero s2 = get_or s2 0 0 == 0
str_equal s1 (suc n) s2 =
    let rest = str_equal (drop 1 s1) n (drop 1 s2) in
    if get_or s2 0 0 == 0 || not (get_or s1 0 0 == get_or s2 0 0) then false else rest

-- `for (j = 0; j < len; j++) dst[j] = src[j]; dst[len] = '\0';` from `j` on.
pub put_name : ℕ → List ℕ → List ℕ → List ℕ
put_name n src [] = []
put_name zero src (d ∷ ds) = 0 ∷ ds
put_name (suc n) src (d ∷ ds) = get_or src 0 0 ∷ put_name n (drop 1 src) ds

-- The slots before the one written stay.
abbrev pub prepend : Symbol → Option (List Symbol) → Option (List Symbol)
prepend s none = none
prepend s (some t) = some (s ∷ t)

module _ (name : List ℕ) (len : ℕ) where
  abbrev pub matches : Symbol → Bool
  matches s = s.is_set && str_equal name len s.name

  -- The first loop of `symbol_set`: the table with the value written, if the name is there.
  pub set_existing : ℕ → List Symbol → Option (List Symbol)
  set_existing val [] = none
  set_existing val (s ∷ ss) =
      let rest = prepend s (set_existing val ss) in
      if matches s then some (record s { value = val } ∷ ss) else rest

  -- The second loop: the first empty slot takes the name and the value.
  pub set_empty : ℕ → List Symbol → Option (List Symbol)
  set_empty val [] = none
  set_empty val (s ∷ ss) =
      let rest = prepend s (set_empty val ss) in
      if not s.is_set
      then some (record { name = put_name len name s.name; value = val; is_set = true } ∷ ss)
      else rest

  -- The loop of `symbol_get`.
  pub get_existing : List Symbol → Option ℕ
  get_existing [] = none
  get_existing (s ∷ ss) = let rest = get_existing ss in if matches s then some s.value else rest

  abbrev pub bad_length : Bool
  bad_length = len == 0 || leb serpentc_max_name len

  -- The new table; `none` is the result 0, with the table unchanged.
  unfoldable pub symbol_set : ℕ → List Symbol → Option (List Symbol)
  unfolding set_existing set_empty put_name
  symbol_set val table =
      let fresh = set_empty val table in
      if bad_length then none else elim (set_existing val table) [ some t ↦ some t | none ↦ fresh ]

  unfoldable pub symbol_get : List Symbol → Option ℕ
  unfolding get_existing
  symbol_get table = if bad_length then none else get_existing table

-- `symbol_set` where the result is not looked at.
unfoldable pub assign_symbol : List ℕ → ℕ → ℕ → List Symbol → List Symbol
unfolding symbol_set
assign_symbol name len val table = Option.get_or (symbol_set name len val table) table

-- `symbols[i].is_set = 0; symbols[i].name[0] = '\0'; symbols[i].value = 0`; the buffers begin as zeros.
abbrev pub empty_slot : Symbol
empty_slot = record { name = replicate 32 0; value = 0; is_set = false }

-- `builtins_init`
unfoldable pub builtins_init : List Symbol
unfolding assign_symbol
builtins_init =
    let t1 = assign_symbol (codes "COLOR_OBSIDIAN") 14 0x000b_0b0e (replicate 32 empty_slot) in
    let t2 = assign_symbol (codes "COLOR_JADE") 10 0x0000_a86b t1 in
    let t3 = assign_symbol (codes "COLOR_AZTEC_GOLD") 16 0x00c5_9b27 t2 in
    let t4 = assign_symbol (codes "COLOR_COCHINEAL_RED") 19 0x009e_0027 t3 in
    let t5 = assign_symbol (codes "COLOR_TURQUOISE") 15 0x0040_e0d0 t4 in
    assign_symbol (codes "COLOR_FEATHER_WHITE") 19 0x00f0_f8ff t5
