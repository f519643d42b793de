-- ===== src/Idt/Examples.antt =====
-- The gates at concrete addresses.
use quetzal_os.Base.{◌≡◌, ◌&&◌, not, ◌==◌, replicate, refl, arith}
use quetzal_os.Idt.{Idt, gate, idt_init}
use quetzal_os.Idt.Gates.{
  Routes, gate_at, is_present, is_unmasked, vector_of, idt_init-Routes, idt_init-unmasked,
}

-- The table before `idt_init`, with what an earlier boot stage left in it.
abbrev stale : Idt
stale = record { limit = 0; base = 0; gates = replicate 256 (gate 0x7c00 0x18 0xee) }

idt_init-Routes_example :
    Routes 0x10_0400 0x10_0440 0xffff_8000_0010_0480 44
      (gate_at (idt_init 0x12_0000 0x10_0400 0x10_0440 0xffff_8000_0010_0480 stale).0 44)
idt_init-Routes_example =
    idt_init-Routes 0x10_0400 0x10_0440 0xffff_8000_0010_0480 0x12_0000 stale 44 refl (omega arith)
      (omega arith) (omega arith) (omega arith)

idt_init-unmasked_example :
    let (u, ws) = idt_init 0x12_0000 0x10_0400 0x10_0440 0x10_0480 stale in
    is_present (gate_at u (vector_of ws 12)) ≡ (is_unmasked ws 12 && not (12 == 2))
idt_init-unmasked_example =
    idt_init-unmasked 0x12_0000 0x10_0400 0x10_0440 0x10_0480 stale 12 (omega arith) refl
      (omega arith) (omega arith) (omega arith)
