-- ===== src/Io.antt =====
-- kernel/arch/x86_64/io.h: writes to ports, as the events that a function emits in order. What a
-- read returns is an argument of the function that reads.
use quetzal_os.Base.{ℕ}

pub data PortWrite : Type 0 where
  outb : ℕ → ℕ → PortWrite
  outw : ℕ → ℕ → PortWrite
  outl : ℕ → ℕ → PortWrite

-- `io_wait()`
abbrev pub io_wait : PortWrite
io_wait = outb 0x80 0

-- End of interrupt, to the master PIC.
abbrev pub eoi_master : PortWrite
eoi_master = outb 0x20 0x20

-- End of interrupt, to the slave PIC.
abbrev pub eoi_slave : PortWrite
eoi_slave = outb 0xa0 0x20
