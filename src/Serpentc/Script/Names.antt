-- ===== src/Serpentc/Script/Names.antt =====
-- A builtin's name is read no further than its length.
use quetzal_os.Base.{ℕ, ◌≡◌, refl, List, ◌++◌, length, codes}
use quetzal_os.SymbolTable.Within.{str_equal_within}
use quetzal_os.Vbe.{Vbe}
use quetzal_os.Serpentc.{dispatch_builtin}

pub dispatch_within :
    (rest x args : List ℕ) (ticks : ℕ) (v : Vbe)
    → dispatch_builtin (x ++ rest) (length x) args ticks v
      ≡ dispatch_builtin x (length x) args ticks v
unfolding dispatch_builtin
dispatch_within rest x args ticks v =
    let same = str_equal_within rest x in
    rw
      (
        same (codes "feather_draw_line"),
        same (codes "feather_rect"),
        same (codes "feather_draw_circle"),
        same (codes "feather_circle"),
        same (codes "feather_fill_circle"),
        same (codes "feather_clear"),
        same (codes "tonal_now"),
      )
      refl
