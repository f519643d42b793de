-- ===== src/Phys/Free.antt =====
-- The number of free pages, the invariant of the allocator, and what one page's change does to it.
use quetzal_os.Base.{
  ℕ, zero, suc, ◌+◌, ◌-◌, ◌*◌, ◌%◌, ◌^◌, ◌≤◌, ◌<◌, ◌≡◌, refl, true, false, not, ◌&&◌, ◌||◌, inl,
  inr, leb, ◌==◌, if◌then◌else◌, Bool-cases, arith,
}
use quetzal_os.Phys.{Phys, page_size, total_pages, test_bit, take_page, give_page}
use quetzal_os.Phys.Bitmap.{
  IsBytes, set_bit-IsBytes, clear_bit-IsBytes, test_bit-set_bit, test_bit-clear_bit, test_bit_past,
  test_bit_full,
}

-- The free pages below `n`.
pub count_free : (ℕ → ℕ) → ℕ → ℕ
count_free bm zero = 0
count_free bm (suc n) = count_free bm n + (if test_bit bm n then 0 else 1)

pub count_free-le : (bm : ℕ → ℕ) (n : ℕ) → count_free bm n ≤ n
unfolding count_free
count_free-le bm zero = omega arith
count_free-le bm (suc n) = ground (arith, count_free-le bm n)

pub count_free-congr :
    (b c : ℕ → ℕ) (n : ℕ)
    → ((q : ℕ) → q < n → test_bit b q ≡ test_bit c q)
    → count_free b n ≡ count_free c n
unfolding count_free
count_free-congr b c zero h = refl
count_free-congr b c (suc n) h =
    ground (arith, h n, count_free-congr b c n (λ q lt. h q (omega arith)))

pub count_free_blank : (n : ℕ) → count_free (λ _. 0xff) n ≡ 0
unfolding count_free
count_free_blank zero = refl
count_free_blank (suc n) = ground (arith, test_bit_full n, count_free_blank n)

-- Where `c` is `b` with the free page `p` taken, it has one free page less.
pub count_free_take :
    (b c : ℕ → ℕ) (p n : ℕ)
    → ((q : ℕ) → test_bit c q ≡ (p == q || test_bit b q))
    → test_bit b p ≡ false
    → p < n
    → count_free c n + 1 ≡ count_free b n
unfolding count_free
count_free_take b c p zero h e lt = absurd (omega arith)
count_free_take b c p (suc n) h e lt = elim (Bool-cases (p == n)) [
  | inl same ↦ ground (arith, h n, count_free-congr c b n (λ q below. ground (arith, h q)))
  | inr other ↦ ground (arith, h n, count_free_take b c p n h e)
]

-- The invariant: bytes in the bitmap, and the counter is the size of the free pages.
pub record IsValid (s : Phys) : Type 0 where
  pub bytes : IsBytes s.page_bitmap
  pub counted : s.free_memory_bytes ≡ page_size * count_free s.page_bitmap total_pages

-- A free page is a page, and the counter then holds its size.
pub lt_of_free : (bm : ℕ → ℕ) (p : ℕ) → test_bit bm p ≡ false → p < total_pages
lt_of_free bm p e = ground (arith, test_bit_past bm p)

module _ (s : Phys) (p : ℕ) (v : IsValid s) where
  -- Taking a free page sets its bit alone.
  pub test_bit-take_page :
      (q : ℕ) → test_bit (take_page p s).page_bitmap q ≡ (p == q || test_bit s.page_bitmap q)
  unfolding take_page
  test_bit-take_page q = test_bit-set_bit s.page_bitmap p q v.bytes

  counted_take :
      test_bit s.page_bitmap p ≡ false
      → count_free (take_page p s).page_bitmap total_pages + 1
        ≡ count_free s.page_bitmap total_pages
  counted_take e =
      count_free_take s.page_bitmap (take_page p s).page_bitmap p total_pages test_bit-take_page e
        (lt_of_free s.page_bitmap p e)

  pub free-take_page :
      test_bit s.page_bitmap p ≡ false
      → (take_page p s).free_memory_bytes + page_size ≡ s.free_memory_bytes
  free-take_page e = ground (arith, unfold_free, counted_take e, v.counted)
    where
      unfold_free : (take_page p s).free_memory_bytes ≡ (
          if leb page_size s.free_memory_bytes
          then s.free_memory_bytes - page_size
          else s.free_memory_bytes)
      unfold_free = unfold take_page in refl

  pub take_page-IsValid : test_bit s.page_bitmap p ≡ false → IsValid (take_page p s)
  take_page-IsValid e = record {
    bytes = unfold take_page in set_bit-IsBytes s.page_bitmap p v.bytes;
    counted = omega (arith, counted_take e, free-take_page e, v.counted);
  }

  -- Releasing a reserved page clears its bit alone.
  pub test_bit-give_page :
      (q : ℕ)
      → p < total_pages
      → test_bit (give_page p s).page_bitmap q ≡ (not (p == q) && test_bit s.page_bitmap q)
  unfolding give_page
  test_bit-give_page q h = test_bit-clear_bit s.page_bitmap p q v.bytes h

  counted_give :
      p < total_pages
      → test_bit s.page_bitmap p ≡ true
      → count_free s.page_bitmap total_pages + 1
        ≡ count_free (give_page p s).page_bitmap total_pages
  counted_give h e =
      count_free_take (give_page p s).page_bitmap s.page_bitmap p total_pages
        (λ q. ground (arith, test_bit-give_page q h)) (ground (arith, test_bit-give_page p h)) h

  pub free-give_page :
      p < total_pages
      → test_bit s.page_bitmap p ≡ true
      → (give_page p s).free_memory_bytes ≡ s.free_memory_bytes + page_size
  free-give_page h e =
      omega (arith, unfold_free, v.counted, count_free-le s.page_bitmap total_pages)
    where
      unfold_free : (give_page p s).free_memory_bytes ≡ (s.free_memory_bytes + page_size) % 2 ^ 64
      unfold_free = unfold give_page in refl

  pub give_page-IsValid :
      p < total_pages → test_bit s.page_bitmap p ≡ true → IsValid (give_page p s)
  give_page-IsValid h e = record {
    bytes = unfold give_page in clear_bit-IsBytes s.page_bitmap p v.bytes;
    counted = omega (arith, counted_give h e, free-give_page h e, v.counted);
  }
