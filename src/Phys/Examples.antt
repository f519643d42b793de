-- ===== src/Phys/Examples.antt =====
-- Runs of the allocator, and the theorems at concrete inputs.
use quetzal_os.Base.{
  ℕ, ◌*◌, ◌≡◌, ◌≢◌, refl, true, false, ◌&&◌, ◌||◌, ◌⊎◌, [], ◌∷◌, some, byte_set, byte_clear,
  byte_test, ltb, ◌==◌, if◌then◌else◌, arith,
}
use quetzal_os.Phys.{
  phys_init, walk, reserve_fixed, Phys, MmapEntry, MmapInfo, page_size, blank, set_bit, clear_bit,
  test_bit, take_page, give_page, alloc_loop, phys_alloc_page, phys_free_page, mark_range_reserved,
  mark_loop, use_entry, release_loop,
}
use quetzal_os.Phys.Free.{IsValid, give_page-IsValid}
use quetzal_os.Phys.Bitmap.{test_bit_full}
use quetzal_os.Phys.Alloc.{
  reserved, Allocates, Exhausted, phys_alloc_page_lem, phys_free_page-phys_alloc_page,
}
use quetzal_os.Phys.Reserve.{reserved-mark_range_reserved}
use quetzal_os.Phys.Init.{use_all}
use quetzal_os.Phys.Init.Walk.{
  Initialised, phys_init_lem, blank-IsValid, phys_init-IsValid, Map, present, more, stop,
}
use quetzal_os.Phys.Trace.{alloc_step, free_step, here, next, Step-IsValid, alloc_exclusive}
use quetzal_os.Phys.Origin.{IsUsable, alloc-IsUsable}

-- Pages 3 and 9 free, all others reserved.
abbrev two_free : Phys
two_free = give_page 9 (give_page 3 blank)

two_free-IsValid : IsValid two_free
unfolding give_page clear_bit test_bit byte_test
two_free-IsValid =
    give_page-IsValid (give_page 3 blank) 9
      (give_page-IsValid blank 3 blank-IsValid (omega arith) (test_bit_full 3)) (omega arith) refl

alloc_two_free : (phys_alloc_page two_free).0 ≡ 0x3000
unfolding phys_alloc_page alloc_loop give_page clear_bit test_bit byte_clear byte_test
alloc_two_free = refl

phys_alloc_page_lem_example :
    Allocates two_free (phys_alloc_page two_free) ⊎ Exhausted two_free (phys_alloc_page two_free)
phys_alloc_page_lem_example = phys_alloc_page_lem two_free two_free-IsValid

three_free : reserved two_free 3 ≡ false
unfolding give_page clear_bit test_bit byte_clear byte_test
three_free = refl

phys_free_page-phys_alloc_page_example :
    let (a, t) = phys_alloc_page two_free in
    ((q : ℕ) → reserved (phys_free_page a t) q ≡ reserved two_free q)
    × ((phys_free_page a t).free_memory_bytes ≡ two_free.free_memory_bytes)
phys_free_page-phys_alloc_page_example =
    phys_free_page-phys_alloc_page two_free 3 two_free-IsValid three_free

-- Page 3 is handed out; after page 9 was freed, which it was already, the next call does not
-- return page 3 again.
abbrev after_first : Phys
after_first = (phys_alloc_page two_free).1

after_first-IsValid : IsValid after_first
after_first-IsValid = Step-IsValid (alloc_step refl refl) two_free-IsValid

after_first_three : reserved after_first 3 ≡ true
unfolding phys_alloc_page alloc_loop take_page give_page set_bit clear_bit test_bit byte_set
    byte_clear byte_test
after_first_three = refl

alloc_exclusive_example : (phys_alloc_page (phys_free_page 0x9000 after_first)).0 ≢ 3 * page_size
alloc_exclusive_example =
    alloc_exclusive after_first-IsValid after_first_three
      (next here (free_step 0x9000 refl) (λ a e. ground arith)) (alloc_step refl refl) (omega arith)

reserved-mark_range_reserved_example :
    reserved (mark_range_reserved 0x2800 0x1000 two_free) 3
    ≡ (ltb 0x2800 (4 * page_size) && ltb (3 * page_size) 0x3800 || reserved two_free 3)
reserved-mark_range_reserved_example =
    reserved-mark_range_reserved 0x2800 0x1000 two_free 3 two_free-IsValid.bytes (omega arith)
      (omega arith)

-- A map of two entries, of 24 bytes each, at address 0x9000.
abbrev low_ram : MmapEntry
low_ram = record { size = 20; addr = 0; len = 0x9_fc00; kind = 1 }

abbrev high_ram : MmapEntry
high_ram = record { size = 20; addr = 0x0010_0000; len = 0x07ee_0000; kind = 1 }

abbrev loader : ℕ → MmapEntry
loader a = if a == 0x9000 then low_ram else high_ram

abbrev info : MmapInfo
info = record { has_mmap = true; mmap_length = 48; mmap_addr = 0x9000 }

phys_init_lem_example : Initialised loader (some info)
phys_init_lem_example = phys_init_lem loader (some info) (λ a. ground arith)

abbrev two_entries : Phys
two_entries = reserve_fixed (use_all (low_ram ∷ high_ram ∷ []) blank)

loader_init : phys_init loader (some info) ≡ some two_entries
unfolding phys_init walk
loader_init = refl

loader-Map : Map loader (some info) (low_ram ∷ high_ram ∷ [])
loader-Map = present refl (more (omega arith) (more (omega arith) (stop (omega arith))))

phys_init-IsValid_example : IsValid two_entries
phys_init-IsValid_example =
    phys_init-IsValid {mem = loader} {mb = some info} (λ a. ground arith) loader-Map
      ((λ q c. ground arith), ((λ q c. refl), tt)) loader_init

-- Two pages behind the kernel.
abbrev two_pages : MmapEntry
two_pages = record { size = 20; addr = 0x0040_0000; len = 0x2000; kind = 1 }

abbrev short_info : MmapInfo
short_info = record { has_mmap = true; mmap_length = 24; mmap_addr = 0x9000 }

abbrev two_free_pages : Phys
two_free_pages = reserve_fixed (use_all (two_pages ∷ []) blank)

two_pages_init : phys_init (λ a. two_pages) (some short_info) ≡ some two_free_pages
unfolding phys_init walk
two_pages_init = refl

first_page : (phys_alloc_page two_free_pages).0 ≡ 0x0040_0000
unfolding phys_alloc_page alloc_loop reserve_fixed mark_range_reserved mark_loop use_entry
    release_loop give_page clear_bit test_bit byte_test byte_clear
first_page = refl

alloc-IsUsable_example : IsUsable (two_pages ∷ []) 0x0040_0000
alloc-IsUsable_example =
    alloc-IsUsable {mem = λ a. two_pages} {mb = some short_info} {s = two_free_pages}
      {t = two_free_pages} (λ a. omega arith)
      (present refl (more (omega arith) (stop (omega arith)))) ((λ q c. refl), tt) refl
      two_pages_init here (alloc_step first_page refl) (omega arith)
