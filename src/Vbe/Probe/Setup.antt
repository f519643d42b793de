-- ===== src/Vbe/Probe/Setup.antt =====
-- What `vbe_init` leaves for the drawing operations.
use quetzal_os.Base.{
  ◌/◌, ℕ, ◌*◌, ◌<◌, ◌%◌, ◌^◌, ◌∷◌, if◌then◌else◌, ◌≤◌, ◌≡◌, ◌≢◌, refl, false, true, List, [], ◌⊎◌,
  inl, inr, ltb, ◌==◌, Bool-cases, ==_iff, arith,
}
use quetzal_os.Io.{PortWrite, outb, outw, outl}
use quetzal_os.Vbe.Probe.{VbeConfig, pci_find_vga_lfb, bochs_vbe_set_mode, vbe_init}
use quetzal_os.Vbe.Probe.Bars.{pci_find_vga_lfb-cases}
use quetzal_os.Vbe.Probe.Source.{Found, NoneFound}

-- What a card with a 16-bit index port 0x1ce and a data port 0x1cf is told: the value of each write to the
-- data port with the register that the last write to the index port selected, in order.
abbrev pub told : ℕ → List PortWrite → List (ℕ × ℕ)
told index [] = []
told index (outb port value ∷ ws) = told index ws
told index (outl port value ∷ ws) = told index ws
told index (outw port value ∷ ws) =
    let selected = told value ws in
    let rest = told index ws in
    if port == 0x1ce then selected else if port == 0x1cf then (index, value) ∷ rest else rest

-- Off, the width, the height, the bits of a pixel, and on with the linear frame buffer.
abbrev pub mode_registers : ℕ → ℕ → List (ℕ × ℕ)
mode_registers w h = (4, 0) ∷ (1, w % 2 ^ 16) ∷ (2, h % 2 ^ 16) ∷ (3, 32) ∷ (4, 0x41) ∷ []

-- The size asked for, lines that fit the buffer's lines, and either the address given, with the mode
-- left alone, or an address that was probed, with the mode set.
pub record Configured (inl_data : ℕ → ℕ) (a w h p : ℕ) (r : VbeConfig × List PortWrite)
    : Type 0 where
  pub width : r.0.fb_w ≡ w
  pub height : r.0.fb_h ≡ h
  pub pitch : r.0.fb_pitch_pixels ≡ p / 4
  pub wide : r.0.fb_w ≤ r.0.fb_pitch_pixels
  pub given : a ≢ 0 → (r.0.lfb ≡ a) × (r.1 ≡ [])
  pub probed :
      a ≡ 0
      → (Found inl_data r.0.lfb ⊎ ((r.0.lfb ≡ 0xfd00_0000) × NoneFound inl_data))
        × (told 0 r.1 ≡ mode_registers w h)

-- With a width and a height that are not 0, a pitch of at least four bytes for each pixel of a line
-- and a mode that no boot loader has set before, `vbe_init` takes over the size and leaves lines that
-- fit the buffer's lines. An address other than 0 it uses, and sets no mode. With the address 0 it
-- uses the address in the base registers of a display that the probe finds (0xfd000000 if there is
-- none), and switches the card's mode off, sets the width and the height modulo 2 ^ 16 and 32 bits a
-- pixel, and switches the mode on with the linear frame buffer.
pub vbe_init-Configured :
    (inl_data : ℕ → ℕ) (a w h p : ℕ) (g : VbeConfig)
    → g.externally_configured ≡ false
    → 0 < w
    → 0 < h
    → 4 * w ≤ p
    → Configured inl_data a w h p (vbe_init inl_data a w h p g)
unfolding vbe_init bochs_vbe_set_mode
vbe_init-Configured inl_data a w h p g fresh hw hh hp =
    let width : ltb 0 w ≡ true = ground arith in
    let height : ltb 0 h ≡ true = ground arith in
    let lines : ltb 0 p ≡ true = ground arith in
    elim (Bool-cases (a == 0)) [
      | inr given ↦
          rw (given, width, height, lines)
            (record {
              width = refl;
              height = refl;
              pitch = refl;
              wide = omega arith;
              given = λ ne. (refl, refl);
              probed = λ e. absurd (ground arith);
            })
      | inl probe ↦
          let cases = pci_find_vga_lfb-cases inl_data in
          let frame = cases.0 in
          let found : (pci_find_vga_lfb inl_data == 0) ≡ false = ground (arith, frame.set) in
          rw (probe, width, height, lines, found, fresh)
            (record {
              width = refl;
              height = refl;
              pitch = refl;
              wide = omega arith;
              given = λ ne. absurd (ne ((==_iff a 0).0 probe));
              probed = λ e. (cases.1, refl);
            })
    ]
