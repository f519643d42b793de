-- ===== src/Phys/Init/Release.antt =====
-- The loops of `phys_init` that release pages.
use quetzal_os.Base.{
  ℕ, zero, suc, ◌+◌, ◌<◌, ◌≡◌, ◌≢◌, ◌∙◌, true, not, ◌&&◌, inl, inr, ltb, ◌==◌, if◌then◌else◌,
  Bool-cases, ltb_iff, arith,
}
use quetzal_os.Phys.{Phys, total_pages, give_page, release_loop}
use quetzal_os.Phys.Bitmap.{test_bit_past, IsBytes, clear_bit-IsBytes, test_bit-clear_bit}
use quetzal_os.Phys.Free.{IsValid, give_page-IsValid}
use quetzal_os.Phys.Alloc.{reserved}
use quetzal_os.Phys.Reserve.{within}

-- One round.
abbrev release : ℕ → Phys → Phys
release p s = if ltb p total_pages then give_page p s else s

release-IsBytes : (p : ℕ) (s : Phys) → IsBytes s.page_bitmap → IsBytes (release p s).page_bitmap
unfolding give_page
release-IsBytes p s v i = ground (arith, v i, clear_bit-IsBytes s.page_bitmap p v i)

reserved-release :
    (p : ℕ) (s : Phys) (q : ℕ)
    → IsBytes s.page_bitmap
    → q < total_pages
    → reserved (release p s) q ≡ (not (p == q) && reserved s q)
unfolding give_page
reserved-release p s q v lt = ground (arith, test_bit-clear_bit s.page_bitmap p q v)

pub release_loop-IsBytes :
    (n p : ℕ) (s : Phys) → IsBytes s.page_bitmap → IsBytes (release_loop n p s).page_bitmap
unfolding release_loop
release_loop-IsBytes zero p s v = v
release_loop-IsBytes (suc n) p s v =
    release_loop-IsBytes n (p + 1) (release p s) (release-IsBytes p s v)

-- The pages from `p` on are free, and the others are as before.
pub reserved-release_loop :
    (n p : ℕ) (s : Phys) (q : ℕ)
    → IsBytes s.page_bitmap
    → q < total_pages
    → reserved (release_loop n p s) q ≡ (not (within p n q) && reserved s q)
unfolding release_loop
reserved-release_loop zero p s q v lt = ground arith
reserved-release_loop (suc n) p s q v lt =
    reserved-release_loop n (p + 1) (release p s) q (release-IsBytes p s v) lt
    ∙ rw (reserved-release p s q v lt) (ground arith)

release-IsValid : (p : ℕ) (s : Phys) → IsValid s → reserved s p ≡ true → IsValid (release p s)
release-IsValid p s v e = elim (Bool-cases (ltb p total_pages)) [
  | inl lt ↦ rw lt (give_page-IsValid s p v ((ltb_iff _ _).0 lt) e)
  | inr ge ↦ rw ge v
]

still_reserved :
    (p : ℕ) (s : Phys) (q : ℕ)
    → IsBytes s.page_bitmap
    → p ≢ q
    → reserved s q ≡ true
    → reserved (release p s) q ≡ true
still_reserved p s q v ne e = elim (Bool-cases (ltb q total_pages)) [
  | inl lt ↦ reserved-release p s q v ((ltb_iff _ _).0 lt) ∙ rw e (ground arith)
  | inr ge ↦ test_bit_past (release p s).page_bitmap q (ground arith)
]

-- The counter stays right where the pages were reserved before.
pub release_loop-IsValid :
    (n p : ℕ) (s : Phys)
    → IsValid s
    → ((q : ℕ) → within p n q ≡ true → reserved s q ≡ true)
    → IsValid (release_loop n p s)
unfolding release_loop
release_loop-IsValid zero p s v h = v
release_loop-IsValid (suc n) p s v h =
    release_loop-IsValid n (p + 1) (release p s) (release-IsValid p s v (h p (ground arith)))
      (λ q inside. still_reserved p s q v.bytes (ground arith) (h q (ground arith)))
