-- ===== src/Serpentc/Examples.antt =====
-- Scripts on a screen of four times three pixels.
use mathlib.Core.Option
use quetzal_os.Base.{ℕ, ◌≡◌, refl, true, List, [], ◌∷◌, some, replicate, arith, codes}
use quetzal_os.Lexer.{
  lexer_next, skip_space, scan, ident_loop, hex_value, hex_loop, dec_loop, char_type,
}
use quetzal_os.SymbolTable.{assign_symbol, symbol_set, symbol_get, str_equal, empty_slot}
use quetzal_os.Vbe.{vbe_put_pixel}
use quetzal_os.Serpentc.{Env, dispatch_builtin, serpentc_eval}
use quetzal_os.Serial.{print_num}
use quetzal_os.Serpentc.Script.{Stmt, num, var, store, invoke, print_script, run_script}
use quetzal_os.Serpentc.Script.Run.{serpentc_eval-print_script}
use quetzal_os.Serpentc.Finish.{Finished, serpentc_eval-Finished}
use quetzal_os.Serpentc.Effect.{IsReady, Contained, serpentc_eval-Contained}

abbrev env : Env
env = record {
  screen = record { fb_w = 4; fb_h = 3; fb_pitch_pixels = 5; backbuffer = λ i. 0; lfb = λ i. 0 };
  symbols = replicate 32 empty_slot;
  console = record {
    visible = true;
    history = replicate 5 (replicate 64 0);
    history_count = 0;
    prompt_buf = replicate 128 0;
    prompt_len = 0;
  };
  ticks = 12;
}

abbrev script : List ℕ
script = codes "w = 2; feather_rect(1, 1, w, 0x1, 7"

-- Of the script's rectangle, the pixel at column 2 of row 1.
drawn_pixel : Option.map (λ (e : Env). e.screen.backbuffer 7) (serpentc_eval script env) ≡ some 7
unfolding serpentc_eval lexer_next skip_space scan ident_loop hex_value hex_loop dec_loop char_type
    str_equal vbe_put_pixel symbol_get
drawn_pixel = refl

env-IsReady : IsReady env
env-IsReady = record {
  screen_ok = omega arith;
  small = omega arith;
  buffers = omega arith;
  lines = record { lines_ok = omega arith; five = refl; count = omega arith };
}

serpentc_eval-Finished_example : Finished env (serpentc_eval script env)
serpentc_eval-Finished_example =
    serpentc_eval-Finished script env env-IsReady (omega arith) (omega arith)

serpentc_eval-Contained_example : Contained env (serpentc_eval script env)
serpentc_eval-Contained_example = serpentc_eval-Contained script env env-IsReady

-- `x1=4294967298;feather_rect(1,1,x1,1,7,0,0,0,0);tonal_now();`
abbrev statements : List Stmt
statements =
    let x1 = codes "x1" in
    let nothing = num 0 in
    store x1 (num 4294967298)
    ∷ invoke (codes "feather_rect")
        (num 1 ∷ num 1 ∷ var x1 ∷ num 1 ∷ num 7 ∷ nothing ∷ nothing ∷ nothing ∷ nothing ∷ [])
    ∷ invoke (codes "tonal_now") []
    ∷ []

serpentc_eval-print_script_example :
    serpentc_eval (print_script statements) env ≡ some (run_script statements env)
serpentc_eval-print_script_example = serpentc_eval-print_script statements env refl

printed_text :
    print_script statements ≡ codes "x1=4294967298;feather_rect(1,1,x1,1,7,0,0,0,0);tonal_now();"
unfolding print_num
printed_text = refl

-- The number is read modulo 2 ^ 32: the rectangle is two pixels wide.
meant_pixels :
    let drawn = (run_script statements env).screen.backbuffer in
    drawn 6 ∷ drawn 7 ∷ drawn 8 ∷ [] ≡ 7 ∷ 7 ∷ 0 ∷ []
unfolding dispatch_builtin assign_symbol symbol_set symbol_get str_equal vbe_put_pixel
meant_pixels = refl
