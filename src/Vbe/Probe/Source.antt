-- ===== src/Vbe/Probe/Source.antt =====
-- The displays that the PCI probe looks for, by the words of their configuration.
use quetzal_os.Base.{
  ℕ, ◌+◌, ◌*◌, ◌/◌, ◌%◌, ◌^◌, ◌≢◌, ◌≤◌, ◌<◌, ◌≡◌, refl, sym, ap, ◌∙◌, Bool, true, false, not, ◌&&◌,
  ◌⊎◌, inl, inr, none, some, ltb, ◌==◌, if◌then◌else◌, Bool-cases, arith,
}
use quetzal_os.Base.{leb, bit_and, byte_test, all_below, all_below_sound}
use quetzal_os.Vbe.Probe.Address.{config_word, pci_read_config_lem}
use quetzal_os.Vbe.Probe.{is_display, bar_address, probe_function, max_funcs, pci_read_config}

-- An address that the kernel's map of 4 GB holds and a base register can have.
pub record IsFrame (r : ℕ) : Type 0 where
  pub set : 0 < r
  pub low : r < 2 ^ 32
  pub aligned : r % 16 ≡ 0

-- The 32-bit words of a function's configuration, at their offsets: the vendor in the low half of word
-- 0, the class in the high byte of word 8, the base registers from word 16 on.
-- A function that the probe takes for a display: it is there, and it is of class 3 or of one of the
-- vendors 0x1234, 0x8086 and 0x1013.
pub record IsCard (w0 w8 : ℕ) : Type 0 where
  pub not_absent : w0 % 2 ^ 16 ≢ 0xffff
  pub not_zero : w0 % 2 ^ 16 ≢ 0
  pub known :
      (w8 / 2 ^ 24 % 2 ^ 8 ≡ 3)
      ⊎ ((w0 % 2 ^ 16 ≡ 0x1234) ⊎ ((w0 % 2 ^ 16 ≡ 0x8086) ⊎ (w0 % 2 ^ 16 ≡ 0x1013)))

-- The first base register is one of memory (bit 0 is 0), and `r` is the address in it without its low
-- four bits, with the second one as the high half where bits 1 and 2 say 64 bits.
pub record IsBase (w16 w20 r : ℕ) : Type 0 where
  pub memory : w16 % 2 ≡ 0
  pub narrow : w16 / 2 % 4 ≢ 2 → r + w16 % 16 ≡ w16
  pub wide : w16 / 2 % 4 ≡ 2 → r + w16 % 16 ≡ w20 * 2 ^ 32 + w16
  pub set : 0 < r
  pub low : r < 2 ^ 32

-- The function with these words is a display and its base registers hold the address.
pub record IsSource (w0 w8 w16 w20 r : ℕ) : Type 0 where
  pub card : IsCard w0 w8
  pub base : IsBase w16 w20 r

module _ (inl_data : ℕ → ℕ) where
  -- The same of the words as the probe reads them.
  abbrev Card : ℕ → ℕ → ℕ → Type 0
  Card bus dev func =
      IsCard (pci_read_config inl_data bus dev func 0) (pci_read_config inl_data bus dev func 8)

  abbrev Base : ℕ → ℕ → ℕ → ℕ → Type 0
  Base bus dev func r =
      IsBase (pci_read_config inl_data bus dev func 16) (pci_read_config inl_data bus dev func 20) r

  abbrev pub Source : ℕ → ℕ → ℕ → ℕ → Type 0
  Source bus dev func r =
      IsSource (pci_read_config inl_data bus dev func 0) (pci_read_config inl_data bus dev func 8)
        (pci_read_config inl_data bus dev func 16) (pci_read_config inl_data bus dev func 20) r

  is_display-IsCard :
      (bus dev func : ℕ) → is_display inl_data bus dev func ≡ true → Card bus dev func
  is_display-IsCard bus dev func h = record {
    not_absent = ground arith;
    not_zero = ground arith;
    known = ground arith;
  }

  IsCard-is_display :
      (bus dev func : ℕ) → Card bus dev func → is_display inl_data bus dev func ≡ true
  IsCard-is_display bus dev func c =
      let a = c.not_absent in let b = c.not_zero in let k = c.known in ground arith

  guards :
      (a b d : Bool) (x r : ℕ)
      → (if a
          then (if b then (if not d && ltb x 0x1_0000_0000 then some x else none) else none)
          else none)
        ≡ some r
      → (a ≡ true) × (b ≡ true) × (r ≡ x) × (d ≡ false) × (x < 2 ^ 32)
  guards a b d x r h = ground arith

  pub probe_function-IsSource :
      (bus dev func r : ℕ) → probe_function inl_data bus dev func ≡ some r → Source bus dev func r
  unfolding probe_function
  probe_function-IsSource bus dev func r h =
      let bar0 = pci_read_config inl_data bus dev func 0x10 in
      let x = bar_address inl_data bus dev func in
      let (display, memory, is, more, low) =
        guards (is_display inl_data bus dev func) (not (bar0 == 0) && not (bar0 % 2 == 1)) (x == 0)
          x r h in
      record {
        card = is_display-IsCard bus dev func display;
        base = record {
          memory = ground arith;
          narrow = λ n.
              let other : (bar0 / 2 % 4 == 2) ≡ false = ground arith in
              let at : x ≡ bar0 / 16 * 16 = rw other refl in omega arith;
          wide = λ n.
              let both : (bar0 / 2 % 4 == 2) ≡ true = ground arith in
              let at : x ≡ pci_read_config inl_data bus dev func 20 * 2 ^ 32 + bar0 / 16 * 16 =
                rw both refl in
              omega arith;
          set = ground arith;
          low = omega arith;
        };
      }

  passes :
      (a b : Bool) (x r : ℕ)
      → a ≡ true
      → b ≡ true
      → x ≡ r
      → 0 < r
      → r < 2 ^ 32
      → (if a
          then (if b then (if not (x == 0) && ltb x 0x1_0000_0000 then some x else none) else none)
          else none)
        ≡ some r
  passes a b x r ha hb e set low = rw (ha, hb, e) (ground arith)

  bar_address-aligned : (bus dev func : ℕ) → bar_address inl_data bus dev func % 16 ≡ 0
  bar_address-aligned bus dev func = ground arith

  IsBase-bar_address :
      (bus dev func r : ℕ) → Base bus dev func r → bar_address inl_data bus dev func ≡ r
  IsBase-bar_address bus dev func r b =
      let bar0 = pci_read_config inl_data bus dev func 0x10 in
      elim (Bool-cases (bar0 / 2 % 4 == 2)) [
        | inl both ↦ let at = b.wide (ground arith) in rw both (omega arith)
        | inr other ↦ let at = b.narrow (ground arith) in rw other (omega arith)
      ]

  IsBase-set :
      (bus dev func r : ℕ)
      → Base bus dev func r
      → not (pci_read_config inl_data bus dev func 0x10 == 0)
          && not (pci_read_config inl_data bus dev func 0x10 % 2 == 1)
        ≡ true
  IsBase-set bus dev func r b =
      let bar0 = pci_read_config inl_data bus dev func 0x10 in
      let even = b.memory in
      let set = b.set in
      elim (Bool-cases (bar0 / 2 % 4 == 2)) [
        | inl both ↦ ground arith
        | inr other ↦ let at = b.narrow (ground arith) in ground arith
      ]

  pub IsSource-probe_function :
      (bus dev func r : ℕ) → Source bus dev func r → probe_function inl_data bus dev func ≡ some r
  unfolding probe_function
  IsSource-probe_function bus dev func r s =
      let bar0 = pci_read_config inl_data bus dev func 0x10 in
      let x = bar_address inl_data bus dev func in
      let at : x ≡ r = IsBase-bar_address bus dev func r s.base in
      let memory = s.base.memory in
      let some_bar : not (bar0 == 0) && not (bar0 % 2 == 1) ≡ true =
        IsBase-set bus dev func r s.base in
      passes (is_display inl_data bus dev func) (not (bar0 == 0) && not (bar0 % 2 == 1)) x r
        (IsCard-is_display bus dev func s.card) some_bar at s.base.set s.base.low

  IsSource-IsFrame : (bus dev func r : ℕ) → Source bus dev func r → IsFrame r
  IsSource-IsFrame bus dev func r s =
      let at = IsBase-bar_address bus dev func r s.base in
      record {
        set = s.base.set;
        low = s.base.low;
        aligned = ap (λ a. a % 16) (sym at) ∙ bar_address-aligned bus dev func;
      }

  -- The function is one of a bus below 256 and a device below 32: function 0, or one below 8 of a device
  -- whose header type, in byte 2 of word 12 of function 0, has bit 7.
  pub record IsProbed (bus dev func : ℕ) : Type 0 where
    pub bus_small : bus < 256
    pub dev_small : dev < 32
    pub func_small :
        (func ≡ 0) ⊎ ((func < 8) × (128 ≤ config_word inl_data bus dev 0 12 / 2 ^ 16 % 2 ^ 8))

  -- Its words make it a display with the address.
  abbrev pub IsDisplayAt : ℕ → ℕ → ℕ → ℕ → Type 0
  IsDisplayAt bus dev func r =
      IsSource (config_word inl_data bus dev func 0) (config_word inl_data bus dev func 8)
        (config_word inl_data bus dev func 16) (config_word inl_data bus dev func 20) r

  -- Some function that the probe looks at is a display with the address `r`.
  pub record Found (r : ℕ) : Type 0 where
    pub bus : ℕ
    pub dev : ℕ
    pub func : ℕ
    pub probed : IsProbed bus dev func
    pub source : IsDisplayAt bus dev func r

  -- No function that it looks at is one.
  abbrev pub NoneFound : Type 0
  NoneFound = (bus dev func r : ℕ) → IsProbed bus dev func → ¬ IsDisplayAt bus dev func r

  agree : (x y : Bool) → (if x then y else not y) ≡ true → x ≡ y
  agree true true h = refl
  agree true false h = sym h
  agree false true h = h
  agree false false h = refl

  bit_seven : (h : ℕ) → h < 256 → byte_test h 7 ≡ leb 128 h
  unfolding byte_test all_below
  bit_seven h small =
      agree (byte_test h 7) (leb 128 h) (
        all_below_sound 256 (λ i. if byte_test i 7 then leb 128 i else not (leb 128 i)) h refl
          small)

  max_funcs_lem :
      (bus dev : ℕ)
      → bus < 256
      → dev < 32
      → max_funcs inl_data bus dev
        ≡ (if leb 128 (config_word inl_data bus dev 0 12 / 2 ^ 16 % 2 ^ 8) then 8 else 1)
  max_funcs_lem bus dev hb hd =
      let word = pci_read_config_lem inl_data bus dev 0 12 hb hd (omega arith) (omega arith) refl in
      rw (word, bit_seven (config_word inl_data bus dev 0 12 / 2 ^ 16 % 2 ^ 8) (omega arith)) refl

  pub IsProbed-lt : (bus dev func : ℕ) → IsProbed bus dev func → func < max_funcs inl_data bus dev
  IsProbed-lt bus dev func p =
      let s = p.func_small in ground (arith, max_funcs_lem bus dev p.bus_small p.dev_small)

  pub probed :
      (bus dev func : ℕ)
      → bus < 256
      → dev < 32
      → func < max_funcs inl_data bus dev
      → IsProbed bus dev func
  probed bus dev func hb hd hf = record {
    bus_small = hb;
    dev_small = hd;
    func_small = ground (arith, max_funcs_lem bus dev hb hd);
  }

  -- The words are read where they stand.
  pub Source-same :
      (bus dev func r : ℕ)
      → IsProbed bus dev func
      → Source bus dev func r ≡ IsDisplayAt bus dev func r
  Source-same bus dev func r p =
      let small : func < 8 = let s = p.func_small in ground arith in
      let word = λ (reg : ℕ) (h : reg < 256) (e : bit_and reg 0xfc ≡ reg).
        pci_read_config_lem inl_data bus dev func reg p.bus_small p.dev_small small h e in
      rw
        (
          word 0 (omega arith) refl,
          word 8 (omega arith) refl,
          word 16 (omega arith) refl,
          word 20 (omega arith) refl,
        )
        refl

  pub Found-IsFrame : {r : ℕ} → Found r → IsFrame r
  Found-IsFrame {r} f =
      IsSource-IsFrame f.bus f.dev f.func r
        (rw (Source-same f.bus f.dev f.func r f.probed) f.source)
