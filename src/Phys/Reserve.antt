-- ===== src/Phys/Reserve.antt =====
-- `mark_range_reserved`, and the four regions that `phys_init` reserves in every case.
use quetzal_os.Base.{
  ℕ, zero, suc, ◌+◌, ◌-◌, ◌*◌, ◌/◌, ◌^◌, ◌≤◌, ◌<◌, ◌≡◌, refl, ◌∙◌, Bool, ◌&&◌, ◌||◌, inl, inr, ltb,
  leb, ◌==◌, if◌then◌else◌, Bool-cases, ==_iff, arith, min, u64,
}
use quetzal_os.Phys.{
  Phys, page_size, total_pages, test_bit, take_page, mark_loop, mark_range_reserved, reserve_fixed,
}
use quetzal_os.Phys.Bitmap.{IsBytes, set_bit-IsBytes, test_bit-set_bit}
use quetzal_os.Phys.Free.{lt_of_free, IsValid, take_page-IsValid}
use quetzal_os.Phys.Alloc.{reserved}

-- Page `q` is one of the `n` pages from `p` on.
abbrev pub within : ℕ → ℕ → ℕ → Bool
within p n q = leb p q && ltb q (p + n)

-- One round of the loop.
abbrev mark : ℕ → Phys → Phys
mark p s = if test_bit s.page_bitmap p then s else take_page p s

mark-IsBytes : (p : ℕ) (s : Phys) → IsBytes s.page_bitmap → IsBytes (mark p s).page_bitmap
unfolding take_page
mark-IsBytes p s v i = ground (arith, v i, set_bit-IsBytes s.page_bitmap p v i)

reserved-mark :
    (p : ℕ) (s : Phys) (q : ℕ)
    → IsBytes s.page_bitmap
    → reserved (mark p s) q ≡ (p == q || reserved s q)
unfolding take_page
reserved-mark p s q v = elim (Bool-cases (test_bit s.page_bitmap p)) [
  | inl set ↦ elim (Bool-cases (p == q)) [
    | inl e ↦ rw (set, e) (rw (← (==_iff p q).0 e) set)
    | inr e ↦ rw (set, e) refl
  ]
  | inr clear ↦ rw clear (test_bit-set_bit s.page_bitmap p q v)
]

mark-IsValid : (p : ℕ) (s : Phys) → IsValid s → IsValid (mark p s)
mark-IsValid p s v = elim (Bool-cases (test_bit s.page_bitmap p)) [
  | inl set ↦ rw set v
  | inr clear ↦ rw clear (take_page-IsValid s p v clear)
]

mark_loop-IsBytes :
    (n p : ℕ) (s : Phys) → IsBytes s.page_bitmap → IsBytes (mark_loop n p s).page_bitmap
unfolding mark_loop
mark_loop-IsBytes zero p s v = v
mark_loop-IsBytes (suc n) p s v = mark_loop-IsBytes n (p + 1) (mark p s) (mark-IsBytes p s v)

reserved-mark_loop :
    (n p : ℕ) (s : Phys) (q : ℕ)
    → IsBytes s.page_bitmap
    → reserved (mark_loop n p s) q ≡ (within p n q || reserved s q)
unfolding mark_loop
reserved-mark_loop zero p s q v = ground arith
reserved-mark_loop (suc n) p s q v =
    reserved-mark_loop n (p + 1) (mark p s) q (mark-IsBytes p s v)
    ∙ rw (reserved-mark p s q v) (ground arith)

mark_loop-IsValid : (n p : ℕ) (s : Phys) → IsValid s → IsValid (mark_loop n p s)
unfolding mark_loop
mark_loop-IsValid zero p s v = v
mark_loop-IsValid (suc n) p s v = mark_loop-IsValid n (p + 1) (mark p s) (mark-IsValid p s v)

pub mark_range_reserved-IsBytes :
    (a size : ℕ) (s : Phys)
    → IsBytes s.page_bitmap
    → IsBytes (mark_range_reserved a size s).page_bitmap
unfolding mark_range_reserved
mark_range_reserved-IsBytes a size s v = mark_loop-IsBytes _ _ s v

-- Reserving a range keeps the invariant.
pub mark_range_reserved-IsValid :
    (a size : ℕ) (s : Phys) → IsValid s → IsValid (mark_range_reserved a size s)
unfolding mark_range_reserved
mark_range_reserved-IsValid a size s v = mark_loop-IsValid _ _ s v

-- Rounding the start down and the end up gives the pages that meet the range.
within_pages :
    (a size q : ℕ)
    → 0 < size
    → a + size + page_size ≤ 2 ^ 64
    → q < total_pages
    → within
        (a / page_size)
        (min (u64 (a + size + page_size - 1) / page_size) total_pages - a / page_size)
        q
      ≡ (ltb a ((q + 1) * page_size) && ltb (q * page_size) (a + size))
within_pages a size q pos small lt =
    let last : u64 (a + size + page_size - 1) ≡ a + size + 4095 = omega arith in
    rw last (ground arith)

-- For a range that is not empty and whose end, rounded up to a page, does not wrap, on a bitmap of
-- bytes, `mark_range_reserved` reserves exactly the pages that meet the bytes `a .. a + size - 1`,
-- and no other page changes.
pub reserved-mark_range_reserved :
    (a size : ℕ) (s : Phys) (q : ℕ)
    → IsBytes s.page_bitmap
    → 0 < size
    → a + size + page_size ≤ 2 ^ 64
    → reserved (mark_range_reserved a size s) q
      ≡ (ltb a ((q + 1) * page_size) && ltb (q * page_size) (a + size) || reserved s q)
unfolding mark_range_reserved
reserved-mark_range_reserved a size s q v pos small =
    reserved-mark_loop _ _ s q v ∙ elim (Bool-cases (reserved s q)) [
      | inl set ↦ rw set (ground arith)
      | inr clear ↦ rw (clear, within_pages a size q pos small (lt_of_free s.page_bitmap q clear))
    ]

-- The pages that `phys_init` never leaves free: below 4 MB, and from 16 MB to 96 MB.
abbrev pub is_fixed : ℕ → Bool
is_fixed q = ltb q 1024 || leb 4096 q && ltb q 24576

pub reserve_fixed-IsBytes :
    (s : Phys) → IsBytes s.page_bitmap → IsBytes (reserve_fixed s).page_bitmap
unfolding reserve_fixed
reserve_fixed-IsBytes s v = mark_range_reserved-IsBytes _ _ _ (
    mark_range_reserved-IsBytes _ _ _
      (mark_range_reserved-IsBytes _ _ _ (mark_range_reserved-IsBytes _ _ s v)))

pub reserve_fixed-IsValid : (s : Phys) → IsValid s → IsValid (reserve_fixed s)
unfolding reserve_fixed
reserve_fixed-IsValid s v = mark_range_reserved-IsValid _ _ _ (
    mark_range_reserved-IsValid _ _ _
      (mark_range_reserved-IsValid _ _ _ (mark_range_reserved-IsValid _ _ s v)))

-- The fixed regions are reserved, and every other page is as before.
pub reserved-reserve_fixed :
    (s : Phys) (q : ℕ)
    → IsBytes s.page_bitmap
    → reserved (reserve_fixed s) q ≡ (is_fixed q || reserved s q)
unfolding reserve_fixed
reserved-reserve_fixed s q v =
    let low = mark_range_reserved 0 0x0010_0000 s in
    let low_bytes = mark_range_reserved-IsBytes 0 0x0010_0000 s v in
    let image = mark_range_reserved 0x0010_0000 0x0030_0000 low in
    let image_bytes = mark_range_reserved-IsBytes 0x0010_0000 0x0030_0000 low low_bytes in
    let arena = mark_range_reserved 0x0100_0000 0x0300_0000 image in
    let arena_bytes = mark_range_reserved-IsBytes 0x0100_0000 0x0300_0000 image image_bytes in
    ground (
      arith,
      reserved-mark_range_reserved 0 0x0010_0000 s q v (omega arith) (omega arith),
      reserved-mark_range_reserved 0x0010_0000 0x0030_0000 low q low_bytes (omega arith)
          (omega arith),
      reserved-mark_range_reserved 0x0100_0000 0x0300_0000 image q image_bytes (omega arith)
          (omega arith),
      reserved-mark_range_reserved 0x0400_0000 0x0200_0000 arena q arena_bytes (omega arith)
          (omega arith),
    )
