-- ===== src/Phys/Init.antt =====
-- `phys_init`: it ends, which pages it leaves free, and when its counter is right.
mod Release
pub mod Walk
use mathlib.Core.Option
use quetzal_os.Base.{
  ℕ, zero, suc, ◌+◌, ◌-◌, ◌*◌, ◌/◌, ◌%◌, ◌^◌, ◌≤◌, ◌<◌, ◌≡◌, ◌≢◌, refl, ◌∙◌, Bool, true, false, not,
  ◌&&◌, ◌||◌, ◌⊎◌, inl, inr, ltb, leb, ◌==◌, if◌then◌else◌, Bool-cases, ==_iff, ltb_iff, arith, min,
  u64, u32, Option, none, some, List, [], ◌∷◌, map,
}
use quetzal_os.Phys.{
  Phys, MmapEntry, MmapInfo, page_size, total_pages, max_phys_mem, test_bit, use_entry, walk, blank,
  usable_map, reserve_fixed, assume_64mb, phys_init, release_loop,
}
use quetzal_os.Phys.Bitmap.{test_bit_past, IsBytes, test_bit_full}
use quetzal_os.Phys.Free.{IsValid, count_free}
use quetzal_os.Phys.Alloc.{reserved}
use quetzal_os.Phys.Reserve.{
  within, is_fixed, reserve_fixed-IsBytes, reserve_fixed-IsValid, reserved-reserve_fixed,
}
use Release.{release_loop-IsBytes, reserved-release_loop, release_loop-IsValid}

-- `phys_init` makes page `q` available for the entry.
abbrev pub releases : MmapEntry → ℕ → Bool
releases e q =
    e.kind == 1 && ltb e.addr max_phys_mem && within (e.addr / page_size) (e.len / page_size) q

abbrev pub released : List MmapEntry → ℕ → Bool
released [] q = false
released (e ∷ es) q = releases e q || released es q

-- No page is made available twice.
abbrev pub IsDisjoint : List MmapEntry → Type 0
IsDisjoint [] = Unit {0}
IsDisjoint (e ∷ es) = ((q : ℕ) → releases e q ≡ true → released es q ≡ false) × IsDisjoint es

pub use_entry-IsBytes :
    (e : MmapEntry) (s : Phys) → IsBytes s.page_bitmap → IsBytes (use_entry e s).page_bitmap
unfolding use_entry
use_entry-IsBytes e s v = elim (Bool-cases (e.kind == 1 && ltb e.addr max_phys_mem)) [
  | inl used ↦ rw used (release_loop-IsBytes _ _ _ v)
  | inr skipped ↦ rw skipped v
]

reserved-use_entry :
    (e : MmapEntry) (s : Phys) (q : ℕ)
    → IsBytes s.page_bitmap
    → q < total_pages
    → reserved (use_entry e s) q ≡ (not (releases e q) && reserved s q)
unfolding use_entry
reserved-use_entry e s q v lt = elim (Bool-cases (e.kind == 1 && ltb e.addr max_phys_mem)) [
  | inl used ↦ rw used (reserved-release_loop _ _ _ q v lt ∙ ground arith)
  | inr skipped ↦ rw skipped (ground arith)
]

use_entry-IsValid :
    (e : MmapEntry) (s : Phys)
    → IsValid s
    → ((q : ℕ) → releases e q ≡ true → reserved s q ≡ true)
    → IsValid (use_entry e s)
unfolding use_entry
use_entry-IsValid e s v h = elim (Bool-cases (e.kind == 1 && ltb e.addr max_phys_mem)) [
  | inl used ↦ rw used (
      release_loop-IsValid _ _ _ (record { bytes = v.bytes; counted = v.counted })
        (λ q inside. h q (ground arith)))
  | inr skipped ↦ rw skipped v
]

-- The entries one after the other.
abbrev pub use_all : List MmapEntry → Phys → Phys
use_all [] s = s
use_all (e ∷ es) s = use_all es (use_entry e s)

pub use_all-IsBytes :
    (es : List MmapEntry) (s : Phys) → IsBytes s.page_bitmap → IsBytes (use_all es s).page_bitmap
use_all-IsBytes [] s v = v
use_all-IsBytes (e ∷ es) s v = use_all-IsBytes es (use_entry e s) (use_entry-IsBytes e s v)

pub reserved-use_all :
    (es : List MmapEntry) (s : Phys) (q : ℕ)
    → IsBytes s.page_bitmap
    → q < total_pages
    → reserved (use_all es s) q ≡ (not (released es q) && reserved s q)
reserved-use_all [] s q v lt = refl
reserved-use_all (e ∷ es) s q v lt =
    reserved-use_all es (use_entry e s) q (use_entry-IsBytes e s v) lt
    ∙ rw (reserved-use_entry e s q v lt) (ground arith)

pub use_all-IsValid :
    (es : List MmapEntry) (s : Phys)
    → IsValid s
    → IsDisjoint es
    → ((q : ℕ) → released es q ≡ true → reserved s q ≡ true)
    → IsValid (use_all es s)
use_all-IsValid [] s v d h = v
use_all-IsValid (e ∷ es) s v d h =
    use_all-IsValid es (use_entry e s) (use_entry-IsValid e s v (λ q c. h q (ground arith))) d.1
      (λ q c. elim (Bool-cases (ltb q total_pages)) [
        | inl lt ↦ ground (arith, d.0 q, h q, reserved-use_entry e s q v.bytes ((ltb_iff _ _).0 lt))
        | inr ge ↦ test_bit_past (use_entry e s).page_bitmap q (ground arith)
      ])

-- The entry is of available memory that begins below 4 GB, and all bytes of page `q` lie in it.
abbrev pub covers : MmapEntry → ℕ → Bool
covers e q =
    e.kind == 1
    && ltb e.addr max_phys_mem
    && (leb e.addr (q * page_size) && leb (q * page_size + page_size) (e.addr + e.len))

abbrev pub covered : List MmapEntry → ℕ → Bool
covered [] q = false
covered (e ∷ es) q = covers e q || covered es q

-- The entry moved down to the page boundary at or below its base.
abbrev pub moved_down : MmapEntry → MmapEntry
moved_down e = record e { addr = e.addr - e.addr % page_size }

releases_lem : (e : MmapEntry) (q : ℕ) → releases e q ≡ covers (moved_down e) q
releases_lem e q =
    let base : ltb (e.addr - e.addr % page_size) max_phys_mem ≡ ltb e.addr max_phys_mem =
      ground arith in
    let inside : within (e.addr / page_size) (e.len / page_size) q ≡ (
        leb (e.addr - e.addr % page_size) (q * page_size)
        && leb (q * page_size + page_size) (e.addr - e.addr % page_size + e.len)) =
      ground arith in
    rw (base, inside) (ground arith)

pub released_lem : (es : List MmapEntry) (q : ℕ) → released es q ≡ covered (map moved_down es) q
released_lem [] q = refl
released_lem (e ∷ es) q = rw (releases_lem e q, released_lem es q) refl

-- The entries of available memory begin on page boundaries.
abbrev pub are_aligned : List MmapEntry → Bool
are_aligned [] = true
are_aligned (e ∷ es) = (not (e.kind == 1) || e.addr % page_size == 0) && are_aligned es

moved_down_aligned :
    (e : MmapEntry) (q : ℕ)
    → (not (e.kind == 1) || e.addr % page_size == 0) ≡ true
    → covers (moved_down e) q ≡ covers e q
moved_down_aligned e q h = ground arith

-- Of such entries, `phys_init` makes available exactly the pages that they cover.
pub released_aligned :
    (es : List MmapEntry) (q : ℕ) → are_aligned es ≡ true → released es q ≡ covered es q
released_aligned [] q h = refl
released_aligned (e ∷ es) q h =
    let first = releases_lem e q ∙ moved_down_aligned e q (ground arith) in
    rw (first, released_aligned es q (ground arith)) refl
