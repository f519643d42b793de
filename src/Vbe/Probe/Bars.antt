-- ===== src/Vbe/Probe/Bars.antt =====
-- What the PCI probe finds.
use quetzal_os.Base.{
  ℕ, zero, suc, ◌+◌, ◌≤◌, ◌<◌, ◌≡◌, refl, sym, ◌⊎◌, inl, inr, Option, none, some, ltb, Option-cases,
  Bool-cases, arith,
}
use quetzal_os.Vbe.Probe.{
  search, probe_function, max_funcs, probe_device, probe_bus, pci_find_vga_lfb,
  qos_default_lfb_phys,
}
use quetzal_os.Vbe.Probe.Source.{
  IsFrame, Source, IsProbed, Found, NoneFound, probe_function-IsSource, IsSource-probe_function,
  IsProbed-lt, probed, Source-same, Found-IsFrame,
}

-- The search stopped at `at`, the first place of the range where `f` has a result.
pub record First (lo hi : ℕ) (f : ℕ → Option ℕ) (r : ℕ) : Type 0 where
  pub at : ℕ
  pub from : lo ≤ at
  pub below : at < hi
  pub found : f at ≡ some r
  pub earlier : (j : ℕ) → lo ≤ j → j < at → f j ≡ none

-- Nothing of the range has a result.
abbrev pub Nothing : ℕ → ℕ → (ℕ → Option ℕ) → Type 0
Nothing lo hi f = (j : ℕ) → lo ≤ j → j < hi → f j ≡ none

first_or_later : (lo j : ℕ) → lo ≤ j → (lo ≡ j) ⊎ (lo + 1 ≤ j)
first_or_later lo j h = elim (Bool-cases (ltb lo j)) [
  | inl less ↦ inr (ground arith)
  | inr same ↦ inl (ground arith)
]

extend :
    (lo : ℕ) (P : ℕ → Type 0) (hi : ℕ)
    → P lo
    → ((j : ℕ) → lo + 1 ≤ j → j < hi → P j)
    → (j : ℕ) → lo ≤ j
    → j < hi
    → P j
extend lo P hi here rest j h k = elim (first_or_later lo j h) [
  | inl same ↦ rw (sym same) here
  | inr later ↦ rest j later k
]

pub search-cases :
    (n lo : ℕ) (f : ℕ → Option ℕ)
    → ((r : ℕ) × (search n lo f ≡ some r) × First lo (lo + n) f r)
      ⊎ ((search n lo f ≡ none) × Nothing lo (lo + n) f)
unfolding search
search-cases zero lo f = inr (refl, λ j h k. absurd (omega arith))
search-cases (suc n) lo f = elim (Option-cases (f lo)) [
  | inr (r, here) ↦ inl (
    r,
    rw (search, here) refl,
    record {
      at = lo;
      from = omega arith;
      below = omega arith;
      found = here;
      earlier = λ j h k. absurd (omega arith);
    },
  )
  | inl miss ↦ elim (search-cases n (lo + 1) f) [
    | inl (r, is, first) ↦ inl (
      r,
      rw (search, miss) is,
      record {
        at = first.at;
        from = omega (arith, first.from);
        below = omega (arith, first.below);
        found = first.found;
        earlier = extend lo (λ j. f j ≡ none) first.at miss (λ j h k. first.earlier j h k);
      },
    )
    | inr (is, nothing) ↦ inr (
      rw (search, miss) is,
      extend lo (λ j. f j ≡ none) (lo + suc n) miss (λ j h k. nothing j h (omega arith)),
    )
  ]
]

module _ (inl_data : ℕ → ℕ) where
  probe_device-cases :
      (bus dev : ℕ)
      → ((r func : ℕ) × (probe_device inl_data bus dev ≡ some r)
          × (func < max_funcs inl_data bus dev)
          × Source inl_data bus dev func r)
        ⊎ ((probe_device inl_data bus dev ≡ none)
            × ((func : ℕ)
                → func < max_funcs inl_data bus dev
                → probe_function inl_data bus dev func ≡ none))
  unfolding probe_device
  probe_device-cases bus dev =
      let n = max_funcs inl_data bus dev in
      elim (search-cases n 0 (λ func. probe_function inl_data bus dev func)) [
        | inl (r, is, first) ↦ inl (
          r,
          first.at,
          is,
          omega (arith, first.below),
          probe_function-IsSource inl_data bus dev first.at r first.found,
        )
        | inr (is, nothing) ↦ inr (is, λ func h. nothing func (omega arith) (omega arith))
      ]

  probe_bus-cases :
      (bus : ℕ)
      → bus < 256
      → ((r : ℕ) × (probe_bus inl_data bus ≡ some r) × Found inl_data r)
        ⊎ ((probe_bus inl_data bus ≡ none)
            × ((dev func : ℕ)
                → IsProbed inl_data bus dev func
                → probe_function inl_data bus dev func ≡ none))
  unfolding probe_bus
  probe_bus-cases bus small = elim (search-cases 32 0 (λ dev. probe_device inl_data bus dev)) [
    | inl (r, is, first) ↦ elim (probe_device-cases bus first.at) [
      | inl (r', func, is', room, source) ↦
          let same : r' ≡ r = cc (is', first.found) in
          inl (
            r,
            is,
            record {
              bus = bus;
              dev = first.at;
              func = func;
              probed = probed inl_data bus first.at func small first.below room;
              source =
                  rw
                    (
                      same,
                      Source-same inl_data bus first.at func r
                          (probed inl_data bus first.at func small first.below room),
                    )
                    at source;
            },
          )
      | inr (is', nothing) ↦ absurd (cc (is', first.found))
    ]
    | inr (is, nothing) ↦ inr (
      is,
      λ dev func p. elim (probe_device-cases bus dev) [
        | inl (r', func', is', room, source) ↦
            let miss = nothing dev (omega arith) (omega (arith, p.dev_small)) in
            absurd (cc (is', miss))
        | inr (is', silent) ↦ silent func (IsProbed-lt inl_data bus dev func p)
      ],
    )
  ]

  default-IsFrame : IsFrame qos_default_lfb_phys
  default-IsFrame = record { set = omega arith; low = omega arith; aligned = refl }

  -- Whatever the configuration space holds, the probe's address is not 0, is below 4 GB and is a
  -- multiple of 16; and it is that in the base registers of a display function on one of the 256 buses,
  -- or it is the default and no function that the probe looks at is such a display.
  pub pci_find_vga_lfb-cases :
      IsFrame (pci_find_vga_lfb inl_data)
      × (Found inl_data (pci_find_vga_lfb inl_data)
          ⊎ ((pci_find_vga_lfb inl_data ≡ qos_default_lfb_phys) × NoneFound inl_data))
  unfolding pci_find_vga_lfb
  pci_find_vga_lfb-cases = elim (search-cases 256 0 (probe_bus inl_data)) [
    | inl (r, is, first) ↦ elim (probe_bus-cases first.at first.below) [
      | inl (r', is', found) ↦
          let same : r' ≡ r = cc (is', first.found) in
          let here : Found inl_data r = rw same at found in
          rw (pci_find_vga_lfb, is) (Found-IsFrame inl_data here, inl here)
      | inr (is', silent) ↦ absurd (cc (is', first.found))
    ]
    | inr (is, nothing) ↦
        rw (pci_find_vga_lfb, is)
          (
            default-IsFrame,
            inr (
              refl,
              λ bus dev func r p s. elim (probe_bus-cases bus p.bus_small) [
                | inl (r', is', found) ↦
                    let miss = nothing bus (omega arith) p.bus_small in absurd (cc (is', miss))
                | inr (is', silent) ↦ cc (
                  silent dev func p,
                  IsSource-probe_function inl_data bus dev func r
                      (rw (Source-same inl_data bus dev func r p) s),
                )
              ],
            ),
          )
  ]
