-- ===== src/MemoryMap.antt =====
-- kernel/memory_map.h: where the kernel's regions of physical memory begin and end.
use quetzal_os.Base.{ℕ, ◌-◌}

abbrev pub qos_kernel_base_phys : ℕ
qos_kernel_base_phys = 0x0010_0000

abbrev pub qos_kernel_size_max : ℕ
qos_kernel_size_max = 0x0010_0000

abbrev pub qos_kernel_stack_top : ℕ
qos_kernel_stack_top = 0x0040_0000

abbrev pub qos_kernel_stack_size : ℕ
qos_kernel_stack_size = 0x0010_0000

abbrev pub qos_serpentc_arena_base : ℕ
qos_serpentc_arena_base = 0x0100_0000

abbrev pub qos_serpentc_arena_end : ℕ
qos_serpentc_arena_end = 0x0400_0000

abbrev pub qos_backbuffer_base : ℕ
qos_backbuffer_base = 0x0400_0000

abbrev pub qos_backbuffer_end : ℕ
qos_backbuffer_end = 0x0600_0000

abbrev pub qos_backbuffer_bytes : ℕ
qos_backbuffer_bytes = qos_backbuffer_end - qos_backbuffer_base
