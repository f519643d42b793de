-- ===== src/Phys/Trace.antt =====
-- The allocator under any sequence of calls.
use quetzal_os.Base.{ℕ, ◌*◌, ◌/◌, ◌≡◌, ◌≢◌, refl, true, inl, inr, arith}
use quetzal_os.Phys.{Phys, page_size, phys_alloc_page, phys_free_page}
use quetzal_os.Phys.Free.{IsValid}
use quetzal_os.Phys.Alloc.{
  reserved, phys_alloc_page_lem, reserved-phys_free_page, phys_free_page-IsValid,
}

-- What a client asks for, with the address that an allocation returned.
pub data Call : Type 0 where
  alloc : ℕ → Call
  free : ℕ → Call

pub data Step : Phys → Call → Phys → Type 0 where
  alloc_step :
      {s t : Phys} {a : ℕ}
      → (phys_alloc_page s).0 ≡ a
      → (phys_alloc_page s).1 ≡ t
      → Step s (alloc a) t
  free_step : {s t : Phys} (a : ℕ) → phys_free_page a s ≡ t → Step s (free a) t

-- `t` is reached from `s` by calls none of which frees an address in page `p`.
pub data Reach (p : ℕ) (s : Phys) : Phys → Type 0 where
  here : Reach p s s
  next :
      {t u : Phys} {c : Call}
      → Reach p s t
      → Step t c u
      → ((a : ℕ) → c ≡ free a → a / page_size ≢ p)
      → Reach p s u

alloc-IsValid : (s : Phys) → IsValid s → IsValid (phys_alloc_page s).1
alloc-IsValid s v = elim (phys_alloc_page_lem s v) [
  | inl got ↦ got.valid
  | inr none_left ↦ rw none_left.same v
]

-- Every call on a valid state leaves a valid one: the bitmap holds bytes and the counter is the
-- size of the free pages.
pub Step-IsValid : {s t : Phys} {c : Call} → Step s c t → IsValid s → IsValid t
Step-IsValid (alloc_step {s} ra rt) v = rw rt at (alloc-IsValid s v)
Step-IsValid (free_step {s} a rt) v = rw rt at (phys_free_page-IsValid a s v)

pub Reach-IsValid : {p : ℕ} {s t : Phys} → Reach p s t → IsValid s → IsValid t
Reach-IsValid here v = v
Reach-IsValid (next r st _) v = Step-IsValid st (Reach-IsValid r v)

reserved-alloc :
    (s : Phys) (p : ℕ) → IsValid s → reserved s p ≡ true → reserved (phys_alloc_page s).1 p ≡ true
reserved-alloc s p v e = elim (phys_alloc_page_lem s v) [
  | inl got ↦ ground (arith, got.only p)
  | inr none_left ↦ rw none_left.same e
]

Step-reserved :
    {s t : Phys} {c : Call} (p : ℕ)
    → Step s c t
    → IsValid s
    → ((a : ℕ) → c ≡ free a → a / page_size ≢ p)
    → reserved s p ≡ true
    → reserved t p ≡ true
Step-reserved p (alloc_step {s} ra rt) v h e = rw rt at (reserved-alloc s p v e)
Step-reserved p (free_step {s} a rt) v h e =
    let kept : reserved (phys_free_page a s) p ≡ true =
      ground (arith, reserved-phys_free_page a s p v, h a refl) in
    rw rt at kept

pub Reach-reserved :
    {p : ℕ} {s t : Phys} → Reach p s t → IsValid s → reserved s p ≡ true → reserved t p ≡ true
Reach-reserved here v e = e
Reach-reserved {p = p} (next r st h) v e =
    Step-reserved p st (Reach-IsValid r v) h (Reach-reserved r v e)

-- From a valid state on, a page that is reserved in it, such as one that was handed out or that a
-- fixed region holds, is not handed out by any later call until an address in it is freed, page 0
-- apart, whose address is also the answer when no page is left.
pub alloc_exclusive :
    {p : ℕ} {s t u : Phys} {a : ℕ}
    → IsValid s
    → reserved s p ≡ true
    → Reach p s t
    → Step t (alloc a) u
    → p ≢ 0
    → a ≢ p * page_size
alloc_exclusive {p} v e r (alloc_step {s = t} ra rt) ne same =
    elim (phys_alloc_page_lem t (Reach-IsValid r v)) [
      | inl got ↦
          let page_is : got.page ≡ p = omega (arith, got.address, ra, same) in
          cc (page_is, got.was_free, Reach-reserved r v e)
      | inr none_left ↦ omega (arith, none_left.null, ra, same)
    ]
