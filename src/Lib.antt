-- ===== src/Lib.antt =====
-- QuetzalOS: the logic of the kernel, in C under kernel/, as definitions and theorems.
--
-- The parts, and the file that models each:
--   Phys          kernel/mm/phys.c: the bitmap of pages, the walk over the boot loader's memory map,
--                 allocation and release.
--   Keyboard      kernel/drivers/ps2_keyboard.c: scan codes to characters, the ring between the
--                 interrupt handler and the main loop.
--   Mouse         kernel/drivers/ps2_mouse.c: the packets of the mouse and the cursor's place
--                 (Mouse.Init: the messages that set the mouse up, Mouse.Cursor: its picture).
--   Pit           kernel/drivers/pit.c: the divisor, the tick counter and the 260-day calendar.
--   Vbe           kernel/drivers/vbe.c: drawing into the back buffer (Vbe.Shapes: circles and text,
--                 Vbe.Clear: the two operations over the whole buffer, Vbe.Probe: the PCI probe and
--                 vbe_init).
--   VgaText       kernel/drivers/vga_text.c: the text screen.
--   Serial        kernel/arch/x86_64/serial.c: kprintf and what it prints; Serial.Line: the
--                 writes to the port and the wait for it.
--   Idt           kernel/arch/x86_64/idt.c: the interrupt gates and the interrupt controllers.
--   Lexer         kernel/serpentc/lexer.c: the tokens of a script.
--   SymbolTable   kernel/serpentc/builtins.c: the variables of a script.
--   Serpentc      kernel/serpentc/serpentc.c and dispatch_builtin: the interpreter, over the screen, the
--                 variables, the console and the tick counter (Serpentc.Script: assignments and
--                 calls as data, how they are written and what they mean).
--   Console       kernel/graphics/console.c: the lines and the prompt; Repl puts console_handle_char
--                 and the interpreter that it calls together, Console.Draw is console_draw.
--   Widget        kernel/graphics/widget.c: the pool of widgets and their drawing.
--   RitualGeo     kernel/graphics/ritual_geo.c: the shapes of the desktop.
--   Font          kernel/graphics/font8x8.c: the glyphs.
--   Kernel        kernel/kernel.c: the widgets of the desktop and a round of the main loop (Kernel.Boot:
--                 kernel_main before its loop, Kernel.Loop: rounds with interrupts between them,
--                 Kernel.Steps: the loop's single calls with interrupts between any two).
--   MemoryMap     kernel/memory_map.h: where the kernel's regions of memory begin and end.
--   Io            kernel/arch/x86_64/io.h: a port write as a value.
--   Base          what the parts share: tests, lists, bits, words, C strings, integers.
--
-- A static variable of the source is a field of the part's record, and a function that changes it
-- takes the record and returns the new one; names are those of the source. Numbers are natural
-- numbers; where the source's type wraps, u8, u16, u32 or u64 says so. A port write is a value in the
-- list that the function returns, and what a port read returns is an argument. A buffer is a list or
-- a function from the index. A string is the list of its bytes; a script ends at its end or at a NUL.
--
-- The keyboard's characters go to console_handle_char, which edits the prompt and hands it to
-- serpentc_eval on Enter; the interpreter reads tokens from the lexer, sets and reads variables in the
-- table, draws through vbe.c and prints to the console. kernel_main sets all parts up; a round of its
-- loop draws the desktop and its widgets, hands over the waiting keys, draws the console and the
-- mouse's cursor and copies the back buffer. The loop is modelled
-- twice: Kernel.frame is a round as a whole, and Kernel.Steps.next_call a single call of the loop, so
-- that a handler may come between any two of them; a script that a key enters is one call. The
-- handlers change the ring of keys, the mouse and the ticks only. Keyboard.Interleave has the handler
-- between the single steps of a reader of the ring.
--
-- Loops are by recursion on the number of rounds that the source's bounds give. The walk over the
-- memory map has fuel, one round more than the map has bytes: an entry takes at least four. The
-- interpreter and its loop over arguments have fuel, two rounds more than the script has bytes: each
-- round takes a token. The line and the circles have a bound on the rounds: for the line the sum of
-- the distances and one more, for a circle the radius and two more. On a screen of at most 2^29
-- columns and rows these loops end by their own tests within their rounds; on a larger one the
-- model's line stops after its rounds where the source's loop may go on. The int variables of both
-- loops are integers without a bound: with sides up to 2^29 and radii below 2^29 the source's values
-- stay within 32 bits. print_num has 65 rounds, since a
-- 64-bit number has at most 64 digits in any base from 2 on; the loop over the waiting keys has 256,
-- since the ring holds 255. The wait of serial_putc has no bound in the source: its fuel is an
-- argument. The wait of the mouse has the source's timeout.
--
-- Parameters: the memory map that the boot loader left (a function from an address to the entry that
-- stands there), the scan codes and the bytes of the mouse, what the PCI configuration space and the
-- ports of the serial line and of the mouse's controller return, the memory behind the frame buffers,
-- the addresses of the interrupt stubs, and the glyphs of the font. A pointer to a function is a value
-- of a type, and what a call of it does is a parameter.
--
-- Not modelled: boot code and interrupt stubs (assembly), interrupts within a call of the main loop
-- and between sti and the loop, and the marker word that serpentc_init writes into its arena. What
-- phys_init prints at its end is written by Kernel.Boot.in_turn, behind phys_init.
pub mod Base
pub mod Io
pub mod MemoryMap
pub mod Serial
pub mod Phys
pub mod Pit
pub mod Keyboard
pub mod Mouse
pub mod Lexer
pub mod SymbolTable
pub mod Vbe
pub mod Console
pub mod Serpentc
pub mod Repl
pub mod VgaText
pub mod Idt
pub mod Widget
pub mod RitualGeo
pub mod Kernel
pub mod Font
