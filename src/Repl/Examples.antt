-- ===== src/Repl/Examples.antt =====
-- Keys on a small screen.
use quetzal_os.Base.{refl, true, ◌++◌, replicate, arith, codes}
use quetzal_os.SymbolTable.{empty_slot}
use quetzal_os.Console.Prompt.{IsPrompt}
use quetzal_os.Serpentc.{Env}
use quetzal_os.Serpentc.Effect.{IsReady}
use quetzal_os.Repl.{handle_char, Handled, handle_char-Handled}

abbrev env : Env
env = record {
  screen = record { fb_w = 4; fb_h = 3; fb_pitch_pixels = 5; backbuffer = λ i. 0; lfb = λ i. 0 };
  symbols = replicate 32 empty_slot;
  console = record {
    visible = true;
    history = replicate 5 (replicate 64 0);
    history_count = 0;
    prompt_buf = codes "x = 1;" ++ replicate 122 0;
    prompt_len = 6;
  };
  ticks = 12;
}

env-IsReady : IsReady env
env-IsReady = record {
  screen_ok = omega arith;
  small = omega arith;
  buffers = omega arith;
  lines = record { lines_ok = omega arith; five = refl; count = omega arith };
}

env-IsPrompt : IsPrompt env.console
env-IsPrompt = record { size = refl; text = refl; ends = omega arith }

handle_char-Handled_example : Handled 10 env (handle_char 10 env)
handle_char-Handled_example = handle_char-Handled 10 env env-IsReady env-IsPrompt
