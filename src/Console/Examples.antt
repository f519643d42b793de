-- ===== src/Console/Examples.antt =====
-- Lines on a full console.
use quetzal_os.Base.{◌≡◌, refl, true, [], ◌∷◌, map, replicate, arith, codes}
use quetzal_os.Console.{Console, console_print}
use quetzal_os.Console.Lines.{IsValid, shown, console_print_lem}

abbrev full : Console
full = record {
  visible = true;
  history = map (λ c. c ∷ replicate 63 0) (codes "abcde");
  history_count = 5;
  prompt_buf = replicate 128 0;
  prompt_len = 0;
}

full-IsValid : IsValid full
full-IsValid = record { lines_ok = omega arith; five = refl; count = omega arith }

console_print_lem_example :
    shown (console_print (codes "new") full) ≡ map codes ("b" ∷ "c" ∷ "d" ∷ "e" ∷ "new" ∷ [])
console_print_lem_example = console_print_lem (codes "new") full full-IsValid
