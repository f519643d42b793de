-- ===== src/Serpentc/Finish.antt =====
-- Every script comes to an end, and so does every loop of a drawing that it calls.
use quetzal_os.Base.{ℕ, ◌+◌, ◌^◌, ◌≤◌, ◌≡◌, List, Option, ℤ, pos, int_of}
use quetzal_os.Vbe.{Vbe}
use quetzal_os.Vbe.Shapes.{circle_loop}
use quetzal_os.Vbe.Ends.{circle_loop_ends}
use quetzal_os.Vbe.Line.{LinesEnd, screen-LinesEnd}
use quetzal_os.Serpentc.{Env, serpentc_eval}
use quetzal_os.Serpentc.Total.{Changes, done, next, Evaluated, serpentc_eval-Evaluated}
use quetzal_os.Serpentc.Effect.{IsReady, Change-Keeps, Keeps-IsReady}

-- The loop of every circle, over anything that a round draws, ends by its own test.
abbrev pub CirclesEnd : Vbe → Type 0
CirclesEnd v =
    (round : ℤ → ℤ → Vbe → Vbe) (radius k : ℕ)
    → circle_loop round (radius + 2 + k) (int_of radius) (pos 0) (pos 0) v
      ≡ circle_loop round (radius + 2) (int_of radius) (pos 0) (pos 0) v

-- At each of the changes, the loops of lines and circles end on the screen as it is then.
abbrev pub DrawingsEnd : {e f : Env} → Changes e f → Type 0
DrawingsEnd done = Unit {0}
DrawingsEnd (next {e = e} c cs) = LinesEnd e.screen × CirclesEnd e.screen × DrawingsEnd cs

Changes-DrawingsEnd :
    {e f : Env} (cs : Changes e f)
    → IsReady e
    → e.screen.fb_w ≤ 2 ^ 29
    → e.screen.fb_h ≤ 2 ^ 29
    → DrawingsEnd cs
Changes-DrawingsEnd done r hw hh = tt
Changes-DrawingsEnd (next {e = e} c cs) r hw hh =
    let k = Change-Keeps c r in
    (
      screen-LinesEnd e.screen hw hh,
      λ round radius n. circle_loop_ends round radius n e.screen,
      Changes-DrawingsEnd cs (Keeps-IsReady k r) (rw k.drawn.same_w hw) (rw k.drawn.same_h hh),
    )

pub record Finished (e : Env) (r : Option Env) : Type 0 where
  pub run : Evaluated e r
  pub drawings : DrawingsEnd run.changes

-- On a ready state with a screen of at most 2 ^ 29 columns and rows, `serpentc_eval` ends with every
-- script, and what it does to the state is a sequence of assignments and of calls with at most eight
-- arguments; and on the screen of each of them the loops of all lines and circles, for which the model
-- allows a number of rounds, end by their own tests: any number of rounds more changes nothing.
pub serpentc_eval-Finished :
    (script : List ℕ) (e : Env)
    → IsReady e
    → e.screen.fb_w ≤ 2 ^ 29
    → e.screen.fb_h ≤ 2 ^ 29
    → Finished e (serpentc_eval script e)
serpentc_eval-Finished script e r hw hh =
    let run = serpentc_eval-Evaluated script e in
    record { run = run; drawings = Changes-DrawingsEnd run.changes r hw hh }
