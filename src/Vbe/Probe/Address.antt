-- ===== src/Vbe/Probe/Address.antt =====
-- Where a word of the PCI configuration space is read.
use quetzal_os.Base.{
  ℕ, ◌+◌, ◌*◌, ◌%◌, ◌^◌, ◌<◌, ◌≡◌, ap, ◌∙◌, bit_and, bit_or, or_shift, or_comm_upto, arith,
}
use quetzal_os.Vbe.Probe.{config_address, pci_read_config}

-- The word at `reg` of a function's configuration: bit 31, the bus from bit 16 on, the device from
-- bit 11 on and the function from bit 8 on select it.
abbrev pub config_word : (ℕ → ℕ) → ℕ → ℕ → ℕ → ℕ → ℕ
config_word inl_data bus dev func reg =
    inl_data (2 ^ 31 + bus * 2 ^ 16 + dev * 2 ^ 11 + func * 2 ^ 8 + reg) % 2 ^ 32

config_address_lem :
    (bus dev func reg : ℕ)
    → bus < 256
    → dev < 32
    → func < 8
    → reg < 256
    → bit_and reg 0xfc ≡ reg
    → config_address bus dev func reg ≡ 2 ^ 31 + bus * 2 ^ 16 + dev * 2 ^ 11 + func * 2 ^ 8 + reg
config_address_lem bus dev func reg hb hd hf hr even =
    let low = bus * 2 ^ 16 + dev * 2 ^ 11 + func * 2 ^ 8 + reg in
    let first = or_shift 16 bus (dev * 2 ^ 11) (omega arith) in
    let m1 : bus * 2 ^ 16 + dev * 2 ^ 11 ≡ (bus * 2 ^ 5 + dev) * 2 ^ 11 = omega arith in
    let second = or_shift 11 (bus * 2 ^ 5 + dev) (func * 2 ^ 8) (omega arith) in
    let m2 : (bus * 2 ^ 5 + dev) * 2 ^ 11 + func * 2 ^ 8
        ≡ (bus * 2 ^ 8 + dev * 2 ^ 3 + func) * 2 ^ 8 =
      omega arith in
    let third = or_shift 8 (bus * 2 ^ 8 + dev * 2 ^ 3 + func) reg (omega arith) in
    let m3 : (bus * 2 ^ 8 + dev * 2 ^ 3 + func) * 2 ^ 8 + reg ≡ low = omega arith in
    let high = or_shift 31 1 low (omega arith) in
    let turned = or_comm_upto (2 ^ 32) low (1 * 2 ^ 31) (omega arith) (omega arith) in
    ap
      (λ (r : ℕ).
        bit_or (bit_or (bit_or (bit_or (bus * 2 ^ 16) (dev * 2 ^ 11)) (func * 2 ^ 8)) r)
          0x8000_0000)
      even
    ∙ ap (λ (a : ℕ). bit_or (bit_or (bit_or a (func * 2 ^ 8)) reg) 0x8000_0000) (first ∙ m1)
    ∙ ap (λ (a : ℕ). bit_or (bit_or a reg) 0x8000_0000) (second ∙ m2)
    ∙ ap (λ (a : ℕ). bit_or a 0x8000_0000) (third ∙ m3)
    ∙ turned
    ∙ high
    ∙ omega arith

pub pci_read_config_lem :
    (inl_data : ℕ → ℕ) (bus dev func reg : ℕ)
    → bus < 256
    → dev < 32
    → func < 8
    → reg < 256
    → bit_and reg 0xfc ≡ reg
    → pci_read_config inl_data bus dev func reg ≡ config_word inl_data bus dev func reg
pci_read_config_lem inl_data bus dev func reg hb hd hf hr even =
    ap (λ (a : ℕ). inl_data a % 2 ^ 32) (config_address_lem bus dev func reg hb hd hf hr even)
