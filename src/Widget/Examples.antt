-- ===== src/Widget/Examples.antt =====
-- The pool at concrete calls.
use quetzal_os.Base.{false, ℕ, ◌≡◌, refl, replicate, none, some, codes, arith}
use quetzal_os.Widget.{Widget, Widgets, container, widget_create}
use quetzal_os.Widget.Pool
use quetzal_os.Widget.Pool.{Creates, PoolCall, create, run, widget_create-Creates, run-IsValid}

-- Here a widget's function is the colour that it paints.
abbrev unused : Widget ℕ
unused = record {
  left = 0;
  top = 0;
  wide = 0;
  high = 0;
  title = replicate 80 0;
  bg_color = 0;
  border_color = 0;
  header_color = 0;
  text_color = 0;
  style = container;
  visible = false;
  draw_content = none;
  user_data = 0;
}

abbrev pool : Widgets ℕ
pool = record { widget_pool = replicate 16 unused; widget_count = 0 }

pool-IsValid : Pool.IsValid pool
pool-IsValid =
    let t : Pool.HasTitle unused = record { size = refl; ends = omega arith } in
    record { sixteen = refl; count = omega arith; titles = Pool.HaveTitles-replicate 16 unused t }

no_seventeenth : (widget_create 0 0 9 9 none none (record pool { widget_count = 16 })).0 ≡ none
unfolding widget_create
no_seventeenth = refl

run-IsValid_example : Pool.IsValid (run (create 0 0 320 40 (some (codes "QUETZAL")) none) pool)
run-IsValid_example =
    run-IsValid (create 0 0 320 40 (some (codes "QUETZAL")) none) pool pool-IsValid

widget_create-Creates_example :
    Creates 0 0 320 40
      (some (codes "QUETZAL"))
      (some 7)
      unused
      pool
      (widget_create 0 0 320 40 (some (codes "QUETZAL")) (some 7) pool)
widget_create-Creates_example =
    widget_create-Creates 0 0 320 40 (some (codes "QUETZAL")) (some 7) unused pool pool-IsValid
      (omega arith)
