-- ===== src/Idt.antt =====
-- kernel/arch/x86_64/idt.c: the table of the 256 interrupt gates and the two interrupt controllers.
-- The addresses of the stubs, which are assembly, are arguments.
pub mod Gates
mod Examples
use quetzal_os.Base.{
  ℕ, zero, suc, ◌+◌, ◌-◌, ◌*◌, ◌/◌, ◌%◌, ◌^◌, ◌≤◌, ◌<◌, ◌≡◌, ◌≢◌, ◌↔◌, refl, sym, ap, ◌∙◌, fun_ext,
  Bool, true, false, not, ◌&&◌, ◌||◌, ◌⊎◌, inl, inr, List, [], ◌∷◌, ◌++◌, map, Option, none, some,
  append-nil, append_assoc, min, or_nibble, bit_and, bit_or, byte_set, byte_clear, byte_test,
  get_or, set, take, drop, replicate, length, length-append, length-set, length-replicate,
  length-take, length-drop, get_or-set_self, get_or-set_ne, take-append-drop, ltb, leb, ◌==◌,
  if◌then◌else◌, Bool-cases, Option-cases, Bool-ext, ==_iff, ltb_iff, arith, all_below,
  all_below_sound, codes, cstr, copy_str, length-copy_str, cstr-copy_str, length-cstr, cstr-cstr,
  length-take-cstr, u8, u16, u32, u64, sub_u32, ℤ, pos, negsuc, pos_part, neg_part, sub_ℕ, ◌+ℤ◌,
  ◌-ℤ◌, ltb_ℤ, leb_ℤ, eqb_ℤ, int_of, word_of,
}
use quetzal_os.Io.{PortWrite, outb, io_wait}

abbrev pub gdt64_kernel_cs : ℕ
gdt64_kernel_cs = 0x08

abbrev pub idt_attr_present_ring0_int_gate : ℕ
idt_attr_present_ring0_int_gate = 0x8e

pub record IdtEntry : Type 0 where
  pub offset_low : ℕ
  pub selector : ℕ
  pub ist : ℕ
  pub type_attributes : ℕ
  pub offset_mid : ℕ
  pub offset_high : ℕ
  pub zero_field : ℕ

-- `idtp` and `idt`; what `lidt` loads is `limit` and `base`.
pub record Idt : Type 0 where
  pub limit : ℕ
  pub base : ℕ
  pub gates : List IdtEntry

-- `idt[num]` with its fields assigned.
abbrev pub gate : ℕ → ℕ → ℕ → IdtEntry
gate address sel flags = record {
  offset_low = u16 address;
  selector = u16 sel;
  ist = 0;
  type_attributes = u8 flags;
  offset_mid = u16 (address / 2 ^ 16);
  offset_high = u32 (address / 2 ^ 32);
  zero_field = 0;
}

unfoldable pub idt_set_gate : ℕ → ℕ → ℕ → ℕ → Idt → Idt
idt_set_gate num address sel flags t = record t {
  gates = set t.gates (u8 num) (gate address sel flags);
}

unfoldable pub pic_remap : List PortWrite
pic_remap =
    outb 0x20 0x11
    ∷ io_wait
    ∷ outb 0xa0 0x11
    ∷ io_wait
    ∷ outb 0x21 0x20
    ∷ io_wait
    ∷ outb 0xa1 0x28
    ∷ io_wait
    ∷ outb 0x21 0x04
    ∷ io_wait
    ∷ outb 0xa1 0x02
    ∷ io_wait
    ∷ outb 0x21 0x01
    ∷ io_wait
    ∷ outb 0xa1 0x01
    ∷ io_wait
    ∷ outb 0x21 0xf8
    ∷ outb 0xa1 0xef
    ∷ []

-- The loop that empties the gates, from gate `i` on.
unfoldable pub clear_gates : ℕ → ℕ → Idt → Idt
unfolding idt_set_gate
clear_gates zero i t = t
clear_gates (suc n) i t = clear_gates n (i + 1) (idt_set_gate i 0 0 0 t)

-- `idt_init` with `&idt` and the addresses of the three stubs. A gate takes 16 bytes.
unfoldable pub idt_init : ℕ → ℕ → ℕ → ℕ → Idt → Idt × List PortWrite
unfolding clear_gates pic_remap
idt_init table irq0_stub irq1_stub irq12_stub t =
    let pointer = record t { limit = u16 (16 * 256 - 1); base = table } in
    let empty = clear_gates 256 0 pointer in
    let present = λ (num stub : ℕ) (u : Idt).
      idt_set_gate num stub gdt64_kernel_cs idt_attr_present_ring0_int_gate u in
    (present 44 irq12_stub (present 33 irq1_stub (present 32 irq0_stub empty)), pic_remap)
