-- ===== src/Phys/Alloc.antt =====
-- `phys_alloc_page` and `phys_free_page` against the set of free pages.
use quetzal_os.Base.{
  ◌∙◌, ℕ, zero, suc, ◌+◌, ◌*◌, ◌/◌, ◌<◌, ◌≡◌, refl, Bool, true, false, not, ◌&&◌, ◌||◌, ◌⊎◌, inl,
  inr, ltb, ◌==◌, if◌then◌else◌, Bool-cases, ==_iff, ltb_iff, arith,
}
use quetzal_os.Phys.{
  Phys, page_size, total_pages, test_bit, alloc_loop, phys_alloc_page, phys_free_page,
}
use quetzal_os.Phys.Bitmap.{test_bit_past}
use quetzal_os.Phys.Free.{
  IsValid, lt_of_free, test_bit-take_page, free-take_page, take_page-IsValid, test_bit-give_page,
  free-give_page, give_page-IsValid,
}

abbrev pub reserved : Phys → ℕ → Bool
reserved s = test_bit s.page_bitmap

-- `r` is the lowest free page of `s`, taken.
pub record Allocates (s : Phys) (r : ℕ × Phys) : Type 0 where
  pub page : ℕ
  pub address : r.0 ≡ page * page_size
  pub in_range : page < total_pages
  pub was_free : reserved s page ≡ false
  pub lowest : (q : ℕ) → q < page → reserved s q ≡ true
  pub only : (q : ℕ) → reserved r.1 q ≡ (page == q || reserved s q)
  pub counted : r.1.free_memory_bytes + page_size ≡ s.free_memory_bytes
  pub valid : IsValid r.1

-- No page of `s` was free, and nothing changed.
pub record Exhausted (s : Phys) (r : ℕ × Phys) : Type 0 where
  pub null : r.0 ≡ 0
  pub same : r.1 ≡ s
  pub all_reserved : (q : ℕ) → reserved s q ≡ true

alloc_loop_lem :
    (n p : ℕ) (s : Phys)
    → n + p ≡ total_pages
    → IsValid s
    → ((q : ℕ) → q < p → reserved s q ≡ true)
    → Allocates s (alloc_loop n p s) ⊎ Exhausted s (alloc_loop n p s)
unfolding alloc_loop
alloc_loop_lem zero p s e v below = inr (record {
  null = refl;
  same = refl;
  all_reserved = λ q. elim (Bool-cases (ltb q p)) [
    | inl lt ↦ below q ((ltb_iff q p).0 lt)
    | inr ge ↦ test_bit_past s.page_bitmap q (ground arith)
  ];
})
alloc_loop_lem (suc n) p s e v below = elim (Bool-cases (test_bit s.page_bitmap p)) [
  | inl taken ↦ rw taken (alloc_loop_lem n (p + 1) s (omega arith) v (extend taken))
  | inr free ↦ rw free (
      inl (record {
        page = p;
        address = refl;
        in_range = lt_of_free s.page_bitmap p free;
        was_free = free;
        lowest = below;
        only = test_bit-take_page s p v;
        counted = free-take_page s p v free;
        valid = take_page-IsValid s p v free;
      }))
]
  where
    extend : test_bit s.page_bitmap p ≡ true → (q : ℕ) → q < p + 1 → reserved s q ≡ true
    extend taken q lt = elim (Bool-cases (p == q)) [
      | inl same ↦ rw (← (==_iff p q).0 same) taken
      | inr other ↦ below q (ground arith)
    ]

-- On a valid state `phys_alloc_page` returns the address of the lowest free page, reserves that
-- page and no other, takes one page off the counter and keeps the invariant; if no page is free it
-- returns 0 and changes nothing.
pub phys_alloc_page_lem :
    (s : Phys) → IsValid s → Allocates s (phys_alloc_page s) ⊎ Exhausted s (phys_alloc_page s)
unfolding phys_alloc_page
phys_alloc_page_lem s v = alloc_loop_lem total_pages 0 s refl v (λ q lt. absurd (omega arith))

-- What `phys_free_page` does with an address: the page that holds it is free afterwards if it is a
-- page, and every other page is as before.
pub reserved-phys_free_page :
    (a : ℕ) (s : Phys) (q : ℕ)
    → IsValid s
    → reserved (phys_free_page a s) q ≡ (
        if ltb (a / page_size) total_pages
        then not (a / page_size == q) && reserved s q
        else reserved s q)
unfolding phys_free_page
reserved-phys_free_page a s q v = elim (Bool-cases (ltb (a / page_size) total_pages)) [
  | inl lt ↦ elim (Bool-cases (test_bit s.page_bitmap (a / page_size))) [
    | inl set ↦ rw (lt, set) (test_bit-give_page s (a / page_size) v q ((ltb_iff _ _).0 lt))
    | inr clear ↦ rw (lt, clear) (keeps clear (Bool-cases (a / page_size == q)))
  ]
  | inr out ↦ rw out refl
]
  where
    keeps :
        test_bit s.page_bitmap (a / page_size) ≡ false
        → ((a / page_size == q) ≡ true) ⊎ ((a / page_size == q) ≡ false)
        → reserved s q ≡ (not (a / page_size == q) && reserved s q)
    keeps clear (inl e) = rw (e, ← (==_iff (a / page_size) q).0 e) clear
    keeps clear (inr e) = rw e refl

pub phys_free_page-IsValid : (a : ℕ) (s : Phys) → IsValid s → IsValid (phys_free_page a s)
unfolding phys_free_page
phys_free_page-IsValid a s v = elim (Bool-cases (ltb (a / page_size) total_pages)) [
  | inl lt ↦ elim (Bool-cases (test_bit s.page_bitmap (a / page_size))) [
    | inl set ↦ rw (lt, set) (give_page-IsValid s (a / page_size) v ((ltb_iff _ _).0 lt) set)
    | inr clear ↦ rw (lt, clear) v
  ]
  | inr out ↦ rw out v
]

-- A page that is free already is left alone: the guard against a double free.
pub phys_free_page_free :
    (a : ℕ) (s : Phys) → reserved s (a / page_size) ≡ false → phys_free_page a s ≡ s
unfolding phys_free_page
phys_free_page_free a s e = rw e (ground arith)

-- On a valid state, freeing an address twice is freeing it once.
pub phys_free_page_twice :
    (a : ℕ) (s : Phys) → IsValid s → phys_free_page a (phys_free_page a s) ≡ phys_free_page a s
phys_free_page_twice a s v = elim (Bool-cases (ltb (a / page_size) total_pages)) [
  | inl lt ↦
      phys_free_page_free a (phys_free_page a s)
        (ground (arith, reserved-phys_free_page a s (a / page_size) v))
  | inr out ↦ unfold phys_free_page in rw out refl
]

pub free-phys_free_page :
    (a : ℕ) (s : Phys)
    → IsValid s
    → a / page_size < total_pages
    → reserved s (a / page_size) ≡ true
    → (phys_free_page a s).free_memory_bytes ≡ s.free_memory_bytes + page_size
unfolding phys_free_page
free-phys_free_page a s v lt e =
    rw ((ltb_iff _ _).1 lt, e) (free-give_page s (a / page_size) v lt e)

-- Any one allocation, undone.
pub phys_free_page-Allocates :
    (s : Phys) (a : ℕ) (t : Phys)
    → Allocates s (a, t)
    → ((q : ℕ) → reserved (phys_free_page a t) q ≡ reserved s q)
      × ((phys_free_page a t).free_memory_bytes ≡ s.free_memory_bytes)
phys_free_page-Allocates s a t got = (
  λ q. elim (Bool-cases (got.page == q)) [
    | inl e ↦ ground (
      arith,
      reserved-phys_free_page a t q got.valid,
      page_is,
      got.only q,
      got.in_range,
      rw ((==_iff got.page q).0 e) at got.was_free,
    )
    | inr e ↦
        ground (arith, reserved-phys_free_page a t q got.valid, page_is, got.only q, got.in_range)
  ],
  free-phys_free_page a t got.valid (omega (arith, page_is, got.in_range))
        (ground (arith, page_is, got.only got.page))
      ∙ got.counted,
)
  where
    page_is : a / page_size ≡ got.page
    page_is = omega (arith, got.address)

-- Freeing the address that `phys_alloc_page` just returned, on a valid state with a free page,
-- brings back every page's bit and the counter.
pub phys_free_page-phys_alloc_page :
    (s : Phys) (p : ℕ)
    → IsValid s
    → reserved s p ≡ false
    → let (a, t) = phys_alloc_page s in
      ((q : ℕ) → reserved (phys_free_page a t) q ≡ reserved s q)
      × ((phys_free_page a t).free_memory_bytes ≡ s.free_memory_bytes)
phys_free_page-phys_alloc_page s p v free = elim (phys_alloc_page_lem s v) [
  | inl got ↦ phys_free_page-Allocates s (phys_alloc_page s).0 (phys_alloc_page s).1 got
  | inr none_left ↦ absurd (ground (arith, none_left.all_reserved p))
]
