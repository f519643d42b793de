-- ===== src/Vbe/Probe.antt =====
-- The PCI probe, the mode set and `vbe_init` of kernel/drivers/vbe.c. What `inl(0xCFC)` returns is a
-- function `inl_data` of the address that was written to 0xCF8.
mod Address
pub mod Source
pub mod Bars
pub mod Setup
use quetzal_os.Base.{
  ℕ, zero, suc, ◌+◌, ◌-◌, ◌*◌, ◌/◌, ◌%◌, ◌^◌, ◌≤◌, ◌<◌, ◌≡◌, refl, Bool, true, false, not, ◌&&◌,
  ◌||◌, List, [], ◌∷◌, Option, none, some, bit_or, bit_and, byte_test, ltb, leb, ◌==◌,
  if◌then◌else◌, u8, u16, u32,
}
use quetzal_os.Io.{PortWrite, outw}

abbrev pub qos_default_lfb_phys : ℕ
qos_default_lfb_phys = 0xfd00_0000

abbrev pub qos_default_fb_width : ℕ
qos_default_fb_width = 800

abbrev pub qos_default_fb_height : ℕ
qos_default_fb_height = 600

abbrev pub qos_default_fb_pitch : ℕ
qos_default_fb_pitch = 3200

abbrev pub config_address : ℕ → ℕ → ℕ → ℕ → ℕ
config_address bus dev func offset =
    bit_or
      (bit_or (bit_or (bit_or (bus * 2 ^ 16) (dev * 2 ^ 11)) (func * 2 ^ 8)) (bit_and offset 0xfc))
      0x8000_0000

-- The first result of `f` at `i`, `i + 1` and so on, with the rounds left: what each of the three
-- loops does with its body.
unfoldable pub search : ℕ → ℕ → (ℕ → Option ℕ) → Option ℕ
search zero i f = none
search (suc n) i f = let rest = search n (i + 1) f in elim (f i) [ none ↦ rest | some r ↦ some r ]

module _ (inl_data : ℕ → ℕ) where
  abbrev pub pci_read_config : ℕ → ℕ → ℕ → ℕ → ℕ
  pci_read_config bus dev func offset = u32 (inl_data (config_address bus dev func offset))

  -- The address in the base registers of a function.
  abbrev pub bar_address : ℕ → ℕ → ℕ → ℕ
  bar_address bus dev func =
      let bar0 = pci_read_config bus dev func 0x10 in
      let low = bar0 / 16 * 16 in
      if bar0 / 2 % 4 == 2 then pci_read_config bus dev func 0x14 * 2 ^ 32 + low else low

  abbrev pub is_display : ℕ → ℕ → ℕ → Bool
  is_display bus dev func =
      let vendor = u16 (pci_read_config bus dev func 0) in
      let class_code = u8 (pci_read_config bus dev func 8 / 2 ^ 24) in
      (not (vendor == 0xffff) && not (vendor == 0))
      && (class_code == 3 || (vendor == 0x1234 || (vendor == 0x8086 || vendor == 0x1013)))

  -- The body of the inner loop: the address that it returns.
  unfoldable pub probe_function : ℕ → ℕ → ℕ → Option ℕ
  probe_function bus dev func =
      let bar0 = pci_read_config bus dev func 0x10 in
      let lfb_phys = bar_address bus dev func in
      if is_display bus dev func
      then (if not (bar0 == 0) && not (bar0 % 2 == 1)
          then (if not (lfb_phys == 0) && ltb lfb_phys 0x1_0000_0000 then some lfb_phys else none)
          else none)
      else none

  abbrev pub max_funcs : ℕ → ℕ → ℕ
  max_funcs bus dev =
      let header_type = u8 (pci_read_config bus dev 0 0x0c / 2 ^ 16) in
      if byte_test header_type 7 then 8 else 1

  unfoldable pub probe_device : ℕ → ℕ → Option ℕ
  unfolding probe_function search
  probe_device bus dev = search (max_funcs bus dev) 0 (λ func. probe_function bus dev func)

  unfoldable pub probe_bus : ℕ → Option ℕ
  unfolding probe_device search
  probe_bus bus = search 32 0 (λ dev. probe_device bus dev)

  unfoldable pub pci_find_vga_lfb : ℕ
  unfolding probe_bus search
  pci_find_vga_lfb = elim (search 256 0 probe_bus) [ none ↦ qos_default_lfb_phys | some r ↦ r ]

unfoldable pub bochs_vbe_set_mode : ℕ → ℕ → ℕ → List PortWrite
bochs_vbe_set_mode width height bpp =
    outw 0x1ce 4
    ∷ outw 0x1cf 0
    ∷ outw 0x1ce 1
    ∷ outw 0x1cf width
    ∷ outw 0x1ce 2
    ∷ outw 0x1cf height
    ∷ outw 0x1ce 3
    ∷ outw 0x1cf bpp
    ∷ outw 0x1ce 4
    ∷ outw 0x1cf 0x41
    ∷ []

-- The static variables that `vbe_init` sets; the pointer `lfb` is its address.
pub record VbeConfig : Type 0 where
  pub lfb : ℕ
  pub fb_w : ℕ
  pub fb_h : ℕ
  pub fb_pitch_pixels : ℕ
  pub externally_configured : Bool

-- Their values before.
abbrev pub vbe_defaults : VbeConfig
vbe_defaults = record {
  lfb = qos_default_lfb_phys;
  fb_w = qos_default_fb_width;
  fb_h = qos_default_fb_height;
  fb_pitch_pixels = qos_default_fb_pitch / 4;
  externally_configured = false;
}

module _ (inl_data : ℕ → ℕ) where
  abbrev pub located : ℕ → VbeConfig → VbeConfig
  located lfb_addr g =
      let probed = pci_find_vga_lfb inl_data in
      if lfb_addr == 0
      then (if probed == 0 then g else record g { lfb = probed })
      else record g { lfb = lfb_addr; externally_configured = true }

  abbrev pub sized : ℕ → ℕ → ℕ → VbeConfig → VbeConfig
  sized width height pitch g = record g {
    fb_w = if ltb 0 width then width else g.fb_w;
    fb_h = if ltb 0 height then height else g.fb_h;
    fb_pitch_pixels = if ltb 0 pitch then pitch / 4 else g.fb_pitch_pixels;
  }

  unfoldable pub vbe_init : ℕ → ℕ → ℕ → ℕ → VbeConfig → VbeConfig × List PortWrite
  unfolding bochs_vbe_set_mode
  vbe_init lfb_addr width height pitch g =
      let g' = sized width height pitch (located lfb_addr g) in
      (
        g',
        if g'.externally_configured then [] else bochs_vbe_set_mode (u16 g'.fb_w) (u16 g'.fb_h) 32,
      )
