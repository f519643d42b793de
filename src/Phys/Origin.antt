-- ===== src/Phys/Origin.antt =====
-- Where the pages come from that the allocator hands out after `phys_init`.
use quetzal_os.Base.{
  ℕ, ◌/◌, ◌%◌, ◌^◌, ◌<◌, ◌≡◌, ◌≢◌, sym, ◌∙◌, true, false, inl, inr, List, Option, some, Bool-cases,
  arith, ◌+◌, ◌≤◌, leb, ◌||◌,
}
use quetzal_os.MemoryMap.{
  qos_kernel_stack_top, qos_serpentc_arena_base, qos_serpentc_arena_end, qos_backbuffer_base,
  qos_backbuffer_end,
}
use quetzal_os.Phys.{Phys, MmapEntry, MmapInfo, page_size, total_pages, phys_init}
use quetzal_os.Phys.Alloc.{reserved, phys_alloc_page_lem}
use quetzal_os.Phys.Reserve.{is_fixed}
use quetzal_os.Phys.Init.{covered, released_lem, released_aligned, are_aligned, IsDisjoint}
use quetzal_os.Phys.Init.Walk.{Map, Map-unique, phys_init_lem, phys_init-IsValid}
use quetzal_os.Phys.Trace.{Reach, Reach-IsValid, Reach-reserved, Step, alloc, alloc_step}

-- Address `a` is that of a whole page of memory that an entry of the map covers, with no byte in low
-- memory, in the kernel's image and stack, in the arena or in the back buffer.
pub record IsUsable (es : List MmapEntry) (a : ℕ) : Type 0 where
  pub whole : a % page_size ≡ 0
  pub in_range : a / page_size < total_pages
  pub available : covered es (a / page_size) ≡ true
  pub above_kernel : qos_kernel_stack_top ≤ a
  pub outside_arena :
      (leb (a + page_size) qos_serpentc_arena_base || leb qos_serpentc_arena_end a) ≡ true
  pub outside_backbuffer :
      (leb (a + page_size) qos_backbuffer_base || leb qos_backbuffer_end a) ≡ true

reserved-phys_init :
    {mem : ℕ → MmapEntry} {mb : Option MmapInfo} {es : List MmapEntry} {s : Phys} (q : ℕ)
    → ((a : ℕ) → (mem a).size < 2 ^ 32)
    → Map mem mb es
    → are_aligned es ≡ true
    → phys_init mem mb ≡ some s
    → q < total_pages
    → reserved s q ≡ false
    → (covered es q ≡ true) × (is_fixed q ≡ false)
reserved-phys_init {mem} {mb} {es} {s} q sizes m whole e small free =
    let init = phys_init_lem mem mb sizes in
    let same : init.entries ≡ es = Map-unique init.map_is m in
    let found : some s ≡ some init.out = sym e ∙ init.returns in
    let out : s ≡ init.out = cc found in
    let pages = rw (same, ← out) at (init.pages q small) in
    ground (arith, pages, released_lem es q, released_aligned es q whole)

-- If the entries of the memory map have sizes of 32 bits, those of available memory begin on page
-- boundaries and no two of them make the same page available: after `phys_init` and any sequence of calls in which no address of that page was freed,
-- an address other than 0 that `phys_alloc_page` returns is that of a page below 4 GB all of whose
-- bytes lie in an entry of available memory, and which lies above the kernel's stack and outside the arena and
-- the back buffer.
pub alloc-IsUsable :
    {mem : ℕ → MmapEntry} {mb : Option MmapInfo} {es : List MmapEntry} {s t u : Phys} {a : ℕ}
    → ((b : ℕ) → (mem b).size < 2 ^ 32)
    → Map mem mb es
    → IsDisjoint es
    → are_aligned es ≡ true
    → phys_init mem mb ≡ some s
    → Reach (a / page_size) s t
    → Step t (alloc a) u
    → a ≢ 0
    → IsUsable es a
alloc-IsUsable {es = es} {s = s} {a = a} sizes m d whole_pages e r (alloc_step {s = t} ra rt) ne =
    let v = phys_init-IsValid sizes m d e in
    elim (phys_alloc_page_lem t (Reach-IsValid r v)) [
      | inr none_left ↦ absurd (ne (sym ra ∙ none_left.null))
      | inl got ↦
          let page_is : got.page ≡ a / page_size = omega (arith, got.address, ra) in
          elim (Bool-cases (reserved s (a / page_size))) [
            | inl kept ↦ absurd (cc (page_is, got.was_free, Reach-reserved r v kept))
            | inr free ↦
                let small : a / page_size < total_pages = omega (arith, page_is, got.in_range) in
                let from = reserved-phys_init (a / page_size) sizes m whole_pages e small free in
                let whole : a % page_size ≡ 0 = omega (arith, got.address, ra) in
                record {
                  whole = whole;
                  in_range = small;
                  available = from.0;
                  above_kernel = ground (arith, from.1, whole);
                  outside_arena = ground (arith, from.1, whole);
                  outside_backbuffer = ground (arith, from.1, whole);
                }
          ]
    ]
