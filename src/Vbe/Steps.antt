-- ===== src/Vbe/Steps.antt =====
-- Steps that only draw, one behind the other.
use quetzal_os.Base.{Bool, if◌then◌else◌}
use quetzal_os.Vbe.{Vbe}
use quetzal_os.Vbe.Frame.{IsValid, Draws, Draws-trans, Draws-if, Draws-IsValid}

-- A step that draws on any valid screen.
abbrev pub IsDrawing : (Vbe → Vbe) → Type 0
IsDrawing f = (v : Vbe) → IsValid v → Draws v (f v)

pub then-IsDrawing : (f g : Vbe → Vbe) → IsDrawing f → IsDrawing g → IsDrawing (λ v. g (f v))
then-IsDrawing f g hf hg v ok =
    let first = hf v ok in Draws-trans first (hg (f v) (Draws-IsValid first ok))

pub if-IsDrawing :
    (b : Bool) (f g : Vbe → Vbe)
    → IsDrawing f
    → IsDrawing g
    → IsDrawing (λ v. if b then f v else g v)
if-IsDrawing b f g hf hg v ok = Draws-if b (hf v ok) (hg v ok)
