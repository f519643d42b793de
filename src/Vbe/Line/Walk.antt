-- ===== src/Vbe/Line/Walk.antt =====
-- The walk of `vbe_draw_line` in steps counted from its first end: which of them it takes. The walk
-- is over any state, any way to put a point and any view of the state that a point changes.
use quetzal_os.Base.{
  ℕ, zero, suc, ◌+◌, ◌-◌, ◌*◌, ◌≤◌, ◌<◌, ◌≡◌, refl, sym, ◌∙◌, Bool, true, false, ◌&&◌, inl, inr,
  ltb, leb, ◌==◌, if◌then◌else◌, Bool-cases, arith,
}

-- After `i` steps along the first side and `j` along the second: is a step along the first due?
abbrev pub goes : ℕ → ℕ → ℕ → ℕ → Bool
goes dx dy i j = ltb (2 * (dy * (i + 1))) (2 * (dx * (j + 1)) + dy)

abbrev pub step_on_if : Bool → ℕ → ℕ
step_on_if b i = if b then i + 1 else i

unfoldable pub walk {ℓ} : {V : Type ℓ} → (ℕ → ℕ → V → V) → ℕ → ℕ → ℕ → ℕ → ℕ → V → V
walk put zero dx dy i j v = v
walk put (suc n) dx dy i j v =
    let rest =
      walk put n dx dy (step_on_if (goes dx dy i j) i) (step_on_if (goes dy dx j i) j)
        (put i j v) in
    if i == dx && j == dy then put i j v else rest

-- The sides may change places.
pub walk-flip {ℓ} :
    {V : Type ℓ} (put : ℕ → ℕ → V → V) (n dx dy i j : ℕ) (v : V)
    → walk put n dx dy i j v ≡ walk (λ a b. put b a) n dy dx j i v
unfolding walk
walk-flip put zero dx dy i j v = refl
walk-flip put (suc n) dx dy i j v = ground (
  arith,
  walk-flip put n dx dy (step_on_if (goes dx dy i j) i) (step_on_if (goes dy dx j i) j) (put i j v),
)

-- Of the points `a` steps along the longer side, the one nearest to the line: half a step off at
-- most, and the one of fewer steps along the other side where two are as near.
abbrev pub is_nearest : ℕ → ℕ → ℕ → ℕ → Bool
is_nearest dx dy a b =
    leb (2 * (dy * a)) (2 * (dx * b) + dx) && leb (2 * (dx * b)) (2 * (dy * a) + (dx - 1))

module _ (dx dy : ℕ) where
  times_gap : (b c : ℕ) → b < c → dx * b + dx ≤ dx * c
  times_gap b c h = grind arith

  nearest_unique :
      (a b c : ℕ) → 0 < dx → is_nearest dx dy a b ≡ true → is_nearest dx dy a c ≡ true → b ≡ c
  nearest_unique a b c wide hb hc = elim (Bool-cases (ltb b c)) [
    | inl less ↦ ground (arith, times_gap b c (ground arith))
    | inr more ↦ elim (Bool-cases (ltb c b)) [
      | inl greater ↦ ground (arith, times_gap c b (ground arith))
      | inr same ↦ ground arith
    ]
  ]

  times_mono : (a b c : ℕ) → a ≤ b → c * a ≤ c * b
  times_mono a b c h = grind arith

  -- The nearest point of the last column is the end, and none lies further.
  nearest_end : 0 < dx → is_nearest dx dy dx dy ≡ true
  nearest_end wide = let same : dx * dy ≡ dy * dx = grind arith in ground arith

  -- A step along the longer side is due until its end.
  goes_on : (i j : ℕ) → dy ≤ dx → i < dx → is_nearest dx dy i j ≡ true → goes dx dy i j ≡ true
  goes_on i j wide more near = elim (Bool-cases (ltb dy dx)) [
    | inl flat ↦ ground arith
    | inr steep ↦
        let same : dy ≡ dx = ground arith in
        let near' : is_nearest dx dx i j ≡ true = rw same at near in
        elim (Bool-cases (ltb j i)) [
          | inl behind ↦ ground (arith, times_mono (j + 1) i dx (ground arith))
          | inr level ↦ ground (arith, times_mono i j dx (ground arith))
        ]
  ]

  nearest_next :
      (i j : ℕ)
      → dy ≤ dx
      → is_nearest dx dy i j ≡ true
      → is_nearest dx dy (i + 1) (step_on_if (goes dy dx j i) j) ≡ true
  nearest_next i j wide near = ground arith

  nearest-le : (a b : ℕ) → 0 < dx → a ≤ dx → is_nearest dx dy a b ≡ true → b ≤ dy
  nearest-le a b wide ha near = elim (Bool-cases (ltb dy b)) [
    | inl far ↦
        let along : dy * a ≤ dy * dx = times_mono a dx dy ha in
        let up = times_gap dy b (ground arith) in
        let same : dx * dy ≡ dy * dx = grind arith in ground arith
    | inr near ↦ ground arith
  ]

  -- One point of a column is nearest.
  column :
      (a b j : ℕ)
      → 0 < dx
      → a ≤ dx
      → is_nearest dx dy a j ≡ true
      → (leb b dy && is_nearest dx dy a b) ≡ (j == b)
  column a b j wide ha near = elim (Bool-cases (j == b)) [
    | inl same ↦
        let e : j ≡ b = ground arith in
        let low = nearest-le a j wide ha near in
        let near' : is_nearest dx dy a b ≡ true = rw e at near in rw (same, near') (ground arith)
    | inr other ↦ elim (Bool-cases (is_nearest dx dy a b)) [
      | inl also ↦ ground (arith, nearest_unique a j b wide near also)
      | inr no_other ↦ rw (other, no_other) (ground arith)
    ]
  ]

-- A view that a point changes, by its place, and a property that points keep.
module _ {ℓ κ} {V : Type ℓ} (put : ℕ → ℕ → V → V) (Good : V → Type κ) (view : V → ℕ) (color a b : ℕ)
    (inside : Bool) (dx dy : ℕ) (put_keeps : (i j : ℕ) (v : V) → Good v → Good (put i j v))
    (put_shows : (i j : ℕ) (v : V)
      → i ≤ dx
      → j ≤ dy
      → Good v
      → view (put i j v) ≡ (if inside && (i == a && j == b) then color else view v)) where
  walk_rest :
      (n i j : ℕ) (v : V)
      → 0 < dx
      → dy ≤ dx
      → i ≤ dx
      → is_nearest dx dy i j ≡ true
      → dx < i + n
      → Good v
      → view (walk put n dx dy i j v) ≡ (
          if inside && (leb i a && (leb a dx && (leb b dy && is_nearest dx dy a b)))
          then color
          else view v)
  unfolding walk
  walk_rest zero i j v wide flat hi near enough good = absurd (omega arith)
  walk_rest (suc n) i j v wide flat hi near enough good =
      let low = nearest-le dx dy i j wide hi near in
      let shown = put_shows i j v hi low good in
      elim (Bool-cases (i == dx)) [
        | inl last ↦
            let e : i ≡ dx = ground arith in
            let near' : is_nearest dx dy dx j ≡ true = rw e at near in
            let end : j ≡ dy = nearest_unique dx dy dx j dy wide near' (nearest_end dx dy wide) in
            let stops : (i == dx && j == dy) ≡ true = ground arith in
            let col = column dx dy dx b j wide (omega arith) near' in
            elim (Bool-cases (a == dx)) [
              | inl here ↦
                  let here' : a ≡ dx = ground arith in rw (stops, shown, here', col) (ground arith)
              | inr away ↦ rw (stops, shown) (ground arith)
            ]
        | inr more ↦
            let on = goes_on dx dy i j flat (ground arith) near in
            let next = nearest_next dx dy i j flat near in
            let rest =
              walk_rest n (i + 1) (step_on_if (goes dy dx j i) j) (put i j v) wide flat
                (ground arith) next (omega arith) (put_keeps i j v good) in
            let stops : (i == dx && j == dy) ≡ false = ground arith in
            elim (Bool-cases (i == a)) [
              | inl here ↦
                  let here' : i ≡ a = ground arith in
                  let near' : is_nearest dx dy a j ≡ true = rw here' at near in
                  let col = column dx dy a b j wide (omega arith) near' in
                  rw (stops, on, rest, shown, col) (ground arith)
              | inr away ↦ rw (stops, on, rest, shown) (ground arith)
            ]
      ]

  walk_flat :
      (v : V)
      → dy ≤ dx
      → Good v
      → view (walk put (dx + dy + 1) dx dy 0 0 v)
        ≡ (if inside && (leb a dx && (leb b dy && is_nearest dx dy a b)) then color else view v)
  unfolding walk
  walk_flat v flat good = elim (Bool-cases (dx == 0)) [
    | inl point ↦
        let e : dx ≡ 0 = ground arith in
        let f : dy ≡ 0 = omega arith in
        let shown = put_shows 0 0 v (omega arith) (omega arith) good in
        let fuel : dx + dy + 1 ≡ suc (dx + dy) = omega arith in
        let stops : (0 == dx && 0 == dy) ≡ true = ground arith in
        rw (fuel, walk, stops, shown) (rw (e, f) (ground arith))
    | inr wide ↦
        let first : leb 0 a ≡ true = ground arith in
        rw first at (
          walk_rest (dx + dy + 1) 0 0 v (ground arith) flat (omega arith) (ground arith)
            (omega arith) good)
  ]

-- The point `a` steps along the first side and `b` along the second is on the line between the ends
-- of a rectangle: it is nearest to it along the longer side.
abbrev pub is_on_line : ℕ → ℕ → ℕ → ℕ → Bool
is_on_line dx dy a b =
    leb a dx && (leb b dy && (if leb dy dx then is_nearest dx dy a b else is_nearest dy dx b a))

module _ {ℓ κ} {V : Type ℓ} (put : ℕ → ℕ → V → V) (Good : V → Type κ) (view : V → ℕ) (color a b : ℕ)
    (inside : Bool) (dx dy : ℕ) (put_keeps : (i j : ℕ) (v : V) → Good v → Good (put i j v))
    (put_shows : (i j : ℕ) (v : V)
      → i ≤ dx
      → j ≤ dy
      → Good v
      → view (put i j v) ≡ (if inside && (i == a && j == b) then color else view v)) where
  pub walk_lem :
      (v : V)
      → Good v
      → view (walk put (dx + dy + 1) dx dy 0 0 v)
        ≡ (if inside && is_on_line dx dy a b then color else view v)
  walk_lem v good = elim (Bool-cases (leb dy dx)) [
    | inl flat ↦
        rw flat
          (walk_flat put Good view color a b inside dx dy put_keeps put_shows v (ground arith) good)
    | inr steep ↦
        let shows : (j i : ℕ) (u : V)
            → j ≤ dy
            → i ≤ dx
            → Good u
            → view (put i j u) ≡ (if inside && (j == b && i == a) then color else view u) =
          λ j i u hj hi g. put_shows i j u hi hj g ∙ ground arith in
        let turned =
          walk_flat (λ i j. put j i) Good view color b a inside dy dx (λ j i. put_keeps i j) shows v
            (ground arith) good in
        let fuel : dx + dy + 1 ≡ dy + dx + 1 = omega arith in
        rw (steep, walk-flip put (dx + dy + 1) dx dy 0 0 v, fuel, turned) (ground arith)
  ]

-- The walk ends at the last point: more rounds change nothing.
module _ {ℓ} {V : Type ℓ} (put : ℕ → ℕ → V → V) (dx dy k : ℕ) where
  more_rest :
      (n i j : ℕ) (v : V)
      → 0 < dx
      → dy ≤ dx
      → i ≤ dx
      → is_nearest dx dy i j ≡ true
      → dx < i + n
      → walk put (n + k) dx dy i j v ≡ walk put n dx dy i j v
  unfolding walk
  more_rest zero i j v wide flat hi near enough = absurd (omega arith)
  more_rest (suc n) i j v wide flat hi near enough =
      let fuel : suc n + k ≡ suc (n + k) = omega arith in
      elim (Bool-cases (i == dx)) [
        | inl last ↦
            let e : i ≡ dx = ground arith in
            let near' : is_nearest dx dy dx j ≡ true = rw e at near in
            let end : j ≡ dy = nearest_unique dx dy dx j dy wide near' (nearest_end dx dy wide) in
            let stops : (i == dx && j == dy) ≡ true = ground arith in rw (fuel, stops) refl
        | inr more ↦
            let on = goes_on dx dy i j flat (ground arith) near in
            let next = nearest_next dx dy i j flat near in
            let rest =
              more_rest n (i + 1) (step_on_if (goes dy dx j i) j) (put i j v) wide flat
                (ground arith) next (omega arith) in
            let stops : (i == dx && j == dy) ≡ false = ground arith in rw (fuel, stops, on) rest
      ]

  pub more_flat :
      (v : V)
      → dy ≤ dx
      → walk put (dx + dy + 1 + k) dx dy 0 0 v ≡ walk put (dx + dy + 1) dx dy 0 0 v
  unfolding walk
  more_flat v flat = elim (Bool-cases (dx == 0)) [
    | inl point ↦
        let e : dx ≡ 0 = ground arith in
        let f : dy ≡ 0 = omega arith in
        let one : dx + dy + 1 ≡ suc (dx + dy) = omega arith in
        let fuel : dx + dy + 1 + k ≡ suc (dx + dy + k) = omega arith in
        let stops : (0 == dx && 0 == dy) ≡ true = ground arith in rw (fuel, one, stops) refl
    | inr wide ↦
        more_rest (dx + dy + 1) 0 0 v (ground arith) flat (omega arith) (ground arith) (omega arith)
  ]

pub walk_more {ℓ} :
    {V : Type ℓ} (put : ℕ → ℕ → V → V) (dx dy k : ℕ) (v : V)
    → walk put (dx + dy + 1 + k) dx dy 0 0 v ≡ walk put (dx + dy + 1) dx dy 0 0 v
walk_more put dx dy k v = elim (Bool-cases (leb dy dx)) [
  | inl flat ↦ more_flat put dx dy k v (ground arith)
  | inr steep ↦
      let fuel : dx + dy + 1 ≡ dy + dx + 1 = omega arith in
      let turned = more_flat (λ i j. put j i) dy dx k v (ground arith) in
      walk-flip put (dx + dy + 1 + k) dx dy 0 0 v
      ∙ rw fuel turned
      ∙ sym (walk-flip put (dx + dy + 1) dx dy 0 0 v)
]
