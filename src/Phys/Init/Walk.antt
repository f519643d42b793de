-- ===== src/Phys/Init/Walk.antt =====
-- The walk over the memory map, and `phys_init` as a whole.
use quetzal_os.Base.{
  ℕ, zero, suc, ◌+◌, ◌-◌, ◌*◌, ◌^◌, ◌≤◌, ◌<◌, ◌≡◌, refl, sym, ap, ◌∙◌, true, false, not, ◌||◌, inl,
  inr, List, [], ◌∷◌, map, Option, none, some, ltb, Bool-cases, ltb_iff, arith, u32, u64,
}
use quetzal_os.Phys.{
  Phys, MmapEntry, MmapInfo, total_pages, use_entry, walk, blank, usable_map, reserve_fixed,
  assume_64mb, phys_init,
}
use quetzal_os.Phys.Bitmap.{test_bit_full}
use quetzal_os.Phys.Free.{count_free_blank, IsValid}
use quetzal_os.Phys.Alloc.{reserved}
use quetzal_os.Phys.Reserve.{is_fixed, reserve_fixed-IsValid, reserved-reserve_fixed}
use quetzal_os.Phys.Init.{
  covered, moved_down, released_lem, IsDisjoint, use_all, use_all-IsBytes, reserved-use_all,
  use_all-IsValid,
}

module _ (mem : ℕ → MmapEntry) where
  -- `es` are the entries that stand from `curr` on, each right behind the one before it, up to the
  -- first address that is not below `last`.
  pub data Entries (last : ℕ) : ℕ → List MmapEntry → Type 0 where
    stop : {curr : ℕ} → last ≤ curr → Entries last curr []
    more :
        {curr : ℕ} {es : List MmapEntry}
        → curr < last
        → Entries last (curr + (mem curr).size + 4) es
        → Entries last curr (mem curr ∷ es)

  -- The result of a walk from `curr`: it used the entries from there on, in order.
  pub record Walked (last curr : ℕ) (s : Phys) (r : Option Phys) : Type 0 where
    pub entries : List MmapEntry
    pub listed : Entries last curr entries
    pub returns : r ≡ some (use_all entries s)

  Walked-more :
      {last curr : ℕ} {s : Phys} {r : Option Phys}
      → curr < last
      → Walked last (curr + (mem curr).size + 4) (use_entry (mem curr) s) r
      → Walked last curr s r
  Walked-more {curr = curr} below rest = record {
    entries = mem curr ∷ rest.entries;
    listed = more below rest.listed;
    returns = rest.returns;
  }

  pub walk-Walked :
      ((a : ℕ) → (mem a).size < 2 ^ 32)
      → (fuel curr last : ℕ) (s : Phys) → last < 2 ^ 32
      → last - curr < fuel
      → Walked last curr s (walk mem fuel curr last s)
  unfolding walk
  walk-Walked sizes zero curr last s small enough = absurd (omega arith)
  walk-Walked sizes (suc fuel) curr last s small enough = elim (Bool-cases (ltb curr last)) [
    | inl lt ↦
        let below : curr < last = (ltb_iff curr last).0 lt in
        let next : u64 (curr + (mem curr).size + 4) ≡ curr + (mem curr).size + 4 =
          omega (arith, sizes curr) in
        rw (lt, next)
          (Walked-more below (
            walk-Walked sizes fuel (curr + (mem curr).size + 4) last (use_entry (mem curr) s) small
              (omega arith)))
    | inr ge ↦ record { entries = []; listed = stop (ground arith); returns = rw ge }
  ]

-- With no usable map: the first 64 MB.
abbrev pub fallback : MmapEntry
fallback = record { size = 0; addr = 0; len = 64 * 1024 * 1024; kind = 1 }

-- The entries that `phys_init` goes by.
pub data Map (mem : ℕ → MmapEntry) : Option MmapInfo → List MmapEntry → Type 0 where
  absent : Map mem none (fallback ∷ [])
  unusable : {mb : MmapInfo} → usable_map mb ≡ false → Map mem (some mb) (fallback ∷ [])
  present :
      {mb : MmapInfo} {es : List MmapEntry}
      → usable_map mb ≡ true
      → Entries mem (u32 (mb.mmap_addr + mb.mmap_length)) mb.mmap_addr es
      → Map mem (some mb) es

-- What `phys_init` returns: a page is free if an entry of the map, moved down to a page boundary,
-- covers it and no fixed region holds it.
pub record Initialised (mem : ℕ → MmapEntry) (mb : Option MmapInfo) : Type 0 where
  pub out : Phys
  pub returns : phys_init mem mb ≡ some out
  pub entries : List MmapEntry
  pub map_is : Map mem mb entries
  pub made : out ≡ reserve_fixed (use_all entries blank)
  pub pages :
      (q : ℕ)
      → q < total_pages
      → reserved out q ≡ (is_fixed q || not (covered (map moved_down entries) q))

pub blank-IsValid : IsValid blank
blank-IsValid = record {
  bytes = λ i. omega arith;
  counted = omega (arith, count_free_blank total_pages);
}

module _ (mem : ℕ → MmapEntry) (mb : Option MmapInfo) (es : List MmapEntry) where
  all_pages :
      (q : ℕ)
      → q < total_pages
      → reserved (reserve_fixed (use_all es blank)) q
        ≡ (is_fixed q || not (covered (map moved_down es) q))
  all_pages q lt = ground (
    arith,
    released_lem es q,
    reserved-reserve_fixed (use_all es blank) q (use_all-IsBytes es blank blank-IsValid.bytes),
    reserved-use_all es blank q blank-IsValid.bytes lt,
    test_bit_full q,
  )

  pub initialised :
      phys_init mem mb ≡ some (reserve_fixed (use_all es blank))
      → Map mem mb es
      → Initialised mem mb
  initialised e m = record {
    out = reserve_fixed (use_all es blank);
    returns = e;
    entries = es;
    map_is = m;
    made = refl;
    pages = all_pages;
  }

assume_64mb-use_all : assume_64mb blank ≡ use_all (fallback ∷ []) blank
unfolding assume_64mb use_entry
assume_64mb-use_all = refl

-- The walk of `phys_init` over the memory map comes to an end with every map whose entries have sizes
-- of 32 bits, whatever else the loader left behind it; afterwards a page is free exactly if it is in
-- none of the fixed regions and all its bytes lie in an entry of type 1 that begins below 4 GB, once
-- that entry is moved down to the page boundary at or below its base (with no usable map, in the first
-- 64 MB). What `phys_init` prints at its end is not part of this.
pub phys_init_lem :
    (mem : ℕ → MmapEntry) (mb : Option MmapInfo)
    → ((a : ℕ) → (mem a).size < 2 ^ 32)
    → Initialised mem mb
unfolding phys_init
phys_init_lem mem none sizes =
    initialised mem none (fallback ∷ []) (unfold phys_init in rw assume_64mb-use_all) absent
phys_init_lem mem (some mb) sizes = elim (Bool-cases (usable_map mb)) [
  | inl usable ↦
      let walked =
        walk-Walked mem sizes (mb.mmap_length + 1) mb.mmap_addr
          (u32 (mb.mmap_addr + mb.mmap_length)) blank (omega arith) (omega arith) in
      initialised mem (some mb) walked.entries (unfold phys_init in rw (usable, walked.returns))
        (present usable walked.listed)
  | inr bad ↦
      initialised mem (some mb) (fallback ∷ []) (unfold phys_init in rw (bad, assume_64mb-use_all))
        (unusable bad)
]

Entries-unique :
    {mem : ℕ → MmapEntry} {last curr : ℕ} {es fs : List MmapEntry}
    → Entries mem last curr es
    → Entries mem last curr fs
    → es ≡ fs
Entries-unique (stop h) (stop g) = refl
Entries-unique (stop h) (more g r) = absurd (omega arith)
Entries-unique (more h r) (stop g) = absurd (omega arith)
Entries-unique {mem} {curr = curr} (more h r) (more g t) =
    ap (λ l. mem curr ∷ l) (Entries-unique r t)

-- The loader's information gives one list of entries.
pub Map-unique :
    {mem : ℕ → MmapEntry} {mb : Option MmapInfo} {es fs : List MmapEntry}
    → Map mem mb es
    → Map mem mb fs
    → es ≡ fs
Map-unique absent absent = refl
Map-unique (unusable bad) (unusable bad') = refl
Map-unique (unusable bad) (present ok r) = absurd (cc (bad, ok))
Map-unique (present ok r) (unusable bad) = absurd (cc (bad, ok))
Map-unique (present ok r) (present ok' t) = Entries-unique r t

-- If the entries of the memory map have sizes of 32 bits and no two of them make the same page
-- available, then `phys_init` leaves a valid allocator: the bitmap holds bytes and the counter is
-- the size of the free pages.
pub phys_init-IsValid :
    {mem : ℕ → MmapEntry} {mb : Option MmapInfo} {es : List MmapEntry} {s : Phys}
    → ((a : ℕ) → (mem a).size < 2 ^ 32)
    → Map mem mb es
    → IsDisjoint es
    → phys_init mem mb ≡ some s
    → IsValid s
phys_init-IsValid {mem} {mb} {es} {s} sizes m d e =
    let init = phys_init_lem mem mb sizes in
    let same : init.entries ≡ es = Map-unique init.map_is m in
    let out : s ≡ reserve_fixed (use_all es blank) =
      let found : some s ≡ some init.out = sym e ∙ init.returns in
      let here : s ≡ init.out = cc found in rw same at (here ∙ init.made) in
    rw out
      (reserve_fixed-IsValid _ (use_all-IsValid es blank blank-IsValid d (λ q c. test_bit_full q)))
