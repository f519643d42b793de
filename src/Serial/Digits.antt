-- ===== src/Serial/Digits.antt =====
-- The digits that `print_num` makes, for a reader of numbers in the same base.
use quetzal_os.Base.{
  ℕ, zero, suc, ◌+◌, ◌*◌, ◌/◌, ◌%◌, ◌≤◌, ◌<◌, ◌≡◌, refl, ap, ◌∙◌, true, inl, inr, List, ◌∷◌, ◌++◌,
  Option, some, length, ltb, Bool-cases, arith,
}
use native.Mathlib.Nat.{div-add-mod, mod-lt}
use quetzal_os.Serial.{digit, digits_loop}

-- After `k` divisions by the base nothing is left.
abbrev pub Spent : ℕ → ℕ → ℕ → Type 0
Spent zero base val = val ≡ 0
Spent (suc k) base val = Spent k base (val / base)

-- A reader of the digits of a base: the number that a text spells behind those read before, and the
-- digits at the front of a text.
pub record Reader (base : ℕ) : Type 0 where
  pub base_pos : 0 < base
  pub read : ℕ → List ℕ → ℕ
  pub run : List ℕ → List ℕ
  pub read_digit :
      (acc d : ℕ) (cs : List ℕ) → d < base → read acc (digit d ∷ cs) ≡ read (acc * base + d) cs
  pub run_digit : (d : ℕ) (cs : List ℕ) → d < base → run (digit d ∷ cs) ≡ digit d ∷ run cs

module _ {base : ℕ} (rd : Reader base) where
  -- What the loop leaves of `val` in front of `out`, with `k` digits at most.
  pub record Printed (k val : ℕ) (out : List ℕ) (r : Option (List ℕ)) : Type 0 where
    pub res : List ℕ
    pub returns : r ≡ some res
    pub reads : rd.read 0 res ≡ rd.read val out
    pub runs : (rest : List ℕ) → rd.run (out ++ rest) ≡ out → rd.run (res ++ rest) ≡ res
    pub few : length res ≤ k + length out

  last_digit :
      (val : ℕ) (out : List ℕ) → rd.read (val / base) (digit (val % base) ∷ out) ≡ rd.read val out
  last_digit val out =
      rd.read_digit (val / base) (val % base) out (mod-lt val rd.base_pos)
      ∙ ap (λ n. rd.read n out) (grind (arith, div-add-mod))

  pub digits_loop-Printed :
      (k fuel val : ℕ) (out : List ℕ)
      → k < fuel
      → Spent k base val
      → Printed k val out (digits_loop fuel val base out)
  unfolding digits_loop
  digits_loop-Printed k zero val out h s = absurd (omega arith)
  digits_loop-Printed zero (suc fuel) val out h s =
      rw s
        (record { res = out; returns = refl; reads = refl; runs = λ rest e. e; few = omega arith })
  digits_loop-Printed (suc k) (suc fuel) val out h s = elim (Bool-cases (ltb 0 val)) [
    | inr done ↦
        let none_left : val ≡ 0 = ground arith in
        rw (none_left) (record {
          res = out;
          returns = refl;
          reads = refl;
          runs = λ rest e. e;
          few = omega arith;
        })
    | inl more ↦
        let d = digit (val % base) in
        let rec = digits_loop-Printed k fuel (val / base) (d ∷ out) (omega arith) s in
        rw more (record {
          res = rec.res;
          returns = rec.returns;
          reads = rec.reads ∙ last_digit val out;
          runs = λ rest e.
              rec.runs rest
                (rd.run_digit (val % base) (out ++ rest) (mod-lt val rd.base_pos) ∙ ap (◌∷◌ d) e);
          few = omega (arith, rec.few);
        })
  ]

  -- The first digit of a number that is not 0 is not 0.
  pub record Leads (r : Option (List ℕ)) : Type 0 where
    pub first : ℕ
    pub others : List ℕ
    pub is : r ≡ some (digit first ∷ others)
    pub pos : 0 < first
    pub small : first < base

  digits_loop-zero : (fuel : ℕ) (out : List ℕ) → 0 < fuel → digits_loop fuel 0 base out ≡ some out
  unfolding digits_loop
  digits_loop-zero zero out h = absurd (omega arith)
  digits_loop-zero (suc fuel) out h = refl

  pub digits_loop-Leads :
      (k fuel val : ℕ) (out : List ℕ)
      → k < fuel
      → Spent k base val
      → 0 < val
      → Leads (digits_loop fuel val base out)
  unfolding digits_loop
  digits_loop-Leads k zero val out h s more = absurd (omega arith)
  digits_loop-Leads zero (suc fuel) val out h s more = absurd (omega arith)
  digits_loop-Leads (suc k) (suc fuel) val out h s more =
      let goes : ltb 0 val ≡ true = ground arith in
      elim (Bool-cases (ltb 0 (val / base))) [
        | inl again ↦ rw goes (
            digits_loop-Leads k fuel (val / base) (digit (val % base) ∷ out) (omega arith) s
              (ground arith))
        | inr last ↦
            let zero_left : val / base ≡ 0 = ground arith in
            let whole : val % base ≡ val = grind (arith, div-add-mod) in
            rw
              (
                goes,
                zero_left,
                digits_loop-zero fuel (digit (val % base) ∷ out) (omega arith),
                whole,
              )
              (record {
                first = val;
                others = out;
                is = refl;
                pos = more;
                small = rw whole at (mod-lt val rd.base_pos);
              })
      ]
