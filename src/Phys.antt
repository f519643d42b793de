-- ===== src/Phys.antt =====
-- kernel/mm/phys.c: the physical page allocator. `page_bitmap` is a function from the index of a
-- byte to the byte; every access of the source is guarded by `page_idx < TOTAL_PAGES`, which keeps
-- the index below BITMAP_SIZE. The memory map that the boot loader left in memory is a parameter:
-- a function from an address to the entry that stands there.
pub mod Bitmap
pub mod Free
pub mod Alloc
pub mod Reserve
pub mod Init
pub mod Trace
pub mod Origin
mod Examples
use quetzal_os.Base.{
  ℕ, zero, suc, ◌+◌, ◌-◌, ◌*◌, ◌/◌, ◌%◌, ◌^◌, min, Bool, true, not, ◌&&◌, Option, none, some, ltb,
  leb, ◌==◌, if◌then◌else◌, byte_set, byte_clear, byte_test, u32, u64,
}
use quetzal_os.MemoryMap.{
  qos_kernel_base_phys, qos_serpentc_arena_base, qos_serpentc_arena_end, qos_backbuffer_base,
  qos_backbuffer_bytes,
}

abbrev pub page_size : ℕ
page_size = 4096

abbrev pub max_phys_mem : ℕ
max_phys_mem = 0x1_0000_0000

abbrev pub total_pages : ℕ
total_pages = 1048576

abbrev pub bitmap_size : ℕ
bitmap_size = 131072

-- The three static variables.
pub record Phys : Type 0 where
  pub page_bitmap : ℕ → ℕ
  pub total_memory_bytes : ℕ
  pub free_memory_bytes : ℕ

-- `page_bitmap[i] = v`
abbrev pub store : (ℕ → ℕ) → ℕ → ℕ → ℕ → ℕ
store bm i v j = if i == j then v else bm j

pub set_bit : (ℕ → ℕ) → ℕ → ℕ → ℕ
set_bit bm page_idx =
    if ltb page_idx total_pages
    then store bm (page_idx / 8) (byte_set (bm (page_idx / 8)) (page_idx % 8))
    else bm

pub clear_bit : (ℕ → ℕ) → ℕ → ℕ → ℕ
clear_bit bm page_idx =
    if ltb page_idx total_pages
    then store bm (page_idx / 8) (byte_clear (bm (page_idx / 8)) (page_idx % 8))
    else bm

pub test_bit : (ℕ → ℕ) → ℕ → Bool
test_bit bm page_idx =
    if leb total_pages page_idx then true else byte_test (bm (page_idx / 8)) (page_idx % 8)

-- `set_bit(p)`, and the counter goes down by a page if it holds one.
pub take_page : ℕ → Phys → Phys
take_page p s = record s {
  page_bitmap = set_bit s.page_bitmap p;
  free_memory_bytes =
      if leb page_size s.free_memory_bytes
      then s.free_memory_bytes - page_size
      else s.free_memory_bytes;
}

-- `clear_bit(p)`, and the counter goes up by a page.
pub give_page : ℕ → Phys → Phys
give_page p s = record s {
  page_bitmap = clear_bit s.page_bitmap p;
  free_memory_bytes = u64 (s.free_memory_bytes + page_size);
}

-- The loop of `mark_range_reserved` at page `p`, with the rounds left.
pub mark_loop : ℕ → ℕ → Phys → Phys
mark_loop zero p s = s
mark_loop (suc n) p s = mark_loop n (p + 1) (if test_bit s.page_bitmap p then s else take_page p s)

pub mark_range_reserved : ℕ → ℕ → Phys → Phys
mark_range_reserved start_addr size s =
    let start_page = start_addr / page_size in
    let end_page = u64 (start_addr + size + page_size - 1) / page_size in
    mark_loop (min end_page total_pages - start_page) start_page s

-- The loop of `phys_alloc_page`: the address returned and the new state.
pub alloc_loop : ℕ → ℕ → Phys → ℕ × Phys
alloc_loop zero p s = (0, s)
alloc_loop (suc n) p s =
    let rest = alloc_loop n (p + 1) s in
    if not (test_bit s.page_bitmap p) then (p * page_size, take_page p s) else rest

pub phys_alloc_page : Phys → ℕ × Phys
phys_alloc_page s = alloc_loop total_pages 0 s

pub phys_free_page : ℕ → Phys → Phys
phys_free_page page_addr s =
    let page_idx = page_addr / page_size in
    if ltb page_idx total_pages && test_bit s.page_bitmap page_idx then give_page page_idx s else s

-- `multiboot_mmap_entry_t`; `kind` is its field `type`.
pub record MmapEntry : Type 0 where
  pub size : ℕ
  pub addr : ℕ
  pub len : ℕ
  pub kind : ℕ

-- The fields of `multiboot_info_t` that `phys_init` reads; `has_mmap` is bit 6 of `flags`.
pub record MmapInfo : Type 0 where
  pub has_mmap : Bool
  pub mmap_length : ℕ
  pub mmap_addr : ℕ

-- Both loops that release pages, at page `p` with the rounds left. In the second one, over the
-- first 64 MB, the guard `page_idx < TOTAL_PAGES` does not stand and always holds.
pub release_loop : ℕ → ℕ → Phys → Phys
release_loop zero p s = s
release_loop (suc n) p s = release_loop n (p + 1) (if ltb p total_pages then give_page p s else s)

-- The body of the walk over the memory map.
pub use_entry : MmapEntry → Phys → Phys
use_entry e s =
    if e.kind == 1 && ltb e.addr max_phys_mem
    then release_loop (e.len / page_size) (e.addr / page_size)
        (record s { total_memory_bytes = u64 (s.total_memory_bytes + e.len) })
    else s

module _ (mem : ℕ → MmapEntry) where
  -- The walk from `mmap_curr`; `none` means that the fuel ran out.
  pub walk : ℕ → ℕ → ℕ → Phys → Option Phys
  walk zero mmap_curr mmap_end s = none
  walk (suc fuel) mmap_curr mmap_end s =
      let e = mem mmap_curr in
      let rest = walk fuel (u64 (mmap_curr + e.size + 4)) mmap_end (use_entry e s) in
      if ltb mmap_curr mmap_end then rest else some s

-- All pages reserved.
abbrev pub blank : Phys
blank = record { page_bitmap = λ _. 0xff; total_memory_bytes = 0; free_memory_bytes = 0 }

-- The four regions that are reserved in every case: low memory, the kernel image, the SerpentC
-- arena and the back buffer.
pub reserve_fixed : Phys → Phys
reserve_fixed s =
    let low = mark_range_reserved 0 0x0010_0000 s in
    let image = mark_range_reserved qos_kernel_base_phys 0x0030_0000 low in
    let arena =
      mark_range_reserved qos_serpentc_arena_base (qos_serpentc_arena_end - qos_serpentc_arena_base)
        image in
    mark_range_reserved qos_backbuffer_base qos_backbuffer_bytes arena

abbrev pub phys_get_free_memory : Phys → ℕ
phys_get_free_memory s = s.free_memory_bytes

abbrev pub phys_get_total_memory : Phys → ℕ
phys_get_total_memory s = s.total_memory_bytes

-- The case with no memory map: 64 MB of usable memory.
pub assume_64mb : Phys → Phys
assume_64mb s =
    let total = 64 * 1024 * 1024 in
    release_loop (total / page_size) 0 (record s { total_memory_bytes = total })

abbrev usable_map : MmapInfo → Bool
usable_map mb = mb.has_mmap && not (mb.mmap_addr == 0) && not (mb.mmap_length == 0)

-- `phys_init`; `none` for `mb_info` is its null pointer. An entry takes at least four bytes, so
-- the fuel suffices.
unfoldable pub phys_init : (ℕ → MmapEntry) → Option MmapInfo → Option Phys
phys_init mem none = some (reserve_fixed (assume_64mb blank))
phys_init mem (some mb) =
    let mapped =
      walk mem (mb.mmap_length + 1) mb.mmap_addr (u32 (mb.mmap_addr + mb.mmap_length)) blank in
    if usable_map mb
    then elim mapped [ none ↦ none | some s ↦ some (reserve_fixed s) ]
    else some (reserve_fixed (assume_64mb blank))
