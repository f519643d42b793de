-- ===== src/VgaText/Text.antt =====
-- What printing on the text screen keeps and what it shows.
use quetzal_os.Base.{
  ℕ, suc, ◌+◌, ◌-◌, ◌*◌, ◌≤◌, ◌<◌, ◌≡◌, refl, ◌∙◌, Bool, true, false, not, ◌&&◌, inl, inr, List, [],
  ◌∷◌, get_or, length, ltb, leb, ◌==◌, if◌then◌else◌, Bool-cases, arith,
}
use quetzal_os.VgaText.{
  VgaText, put_cell, vga_entry, vga_scroll, next_row, vga_text_putc, vga_text_puts,
}
use quetzal_os.VgaText.Cells.{vga_scroll_lem}

-- The cursor is on the screen.
pub record IsReady (s : VgaText) : Type 0 where
  pub row : s.vga_row < 25
  pub col : s.vga_col < 80

-- From `s` to `t` only cells of the screen were written, and the cursor is on the screen.
pub record Shows (s t : VgaText) : Type 0 where
  pub behind : (i : ℕ) → 2000 ≤ i → t.vga_buffer i ≡ s.vga_buffer i
  pub ready : IsReady t

Shows-if :
    {s t u : VgaText} (b : Bool)
    → (b ≡ true → Shows s t)
    → (b ≡ false → Shows s u)
    → Shows s (if b then t else u)
Shows-if true x y = x refl
Shows-if false x y = y refl

vga_scroll-Shows : (color : ℕ) (s : VgaText) → s.vga_col < 80 → Shows s (vga_scroll color s)
vga_scroll-Shows color s h = record {
  behind = λ i far. vga_scroll_lem color s i ∙ ground arith;
  ready = unfold vga_scroll in record { row = omega arith; col = h };
}

next_row-Shows : (color : ℕ) (s : VgaText) → s.vga_row < 25 → Shows s (next_row color s)
unfolding next_row
next_row-Shows color s h =
    let down = record s { vga_col = 0; vga_row = s.vga_row + 1 } in
    Shows-if (leb 25 (s.vga_row + 1))
      (λ full.
        let d = vga_scroll-Shows color down (omega arith) in
        record { behind = d.behind; ready = d.ready })
      (λ room. record {
        behind = λ i far. refl;
        ready = record { row = ground arith; col = omega arith };
      })

put-Shows :
    (entry : ℕ) (s t : VgaText)
    → IsReady s
    → Shows
        (record s {
          vga_buffer = put_cell (s.vga_row * 80 + s.vga_col) entry s.vga_buffer;
          vga_col = s.vga_col + 1;
        })
        t
    → Shows s t
put-Shows entry s t h shows = record {
  behind = λ i far. shows.behind i far ∙ ground (arith, h.row, h.col);
  ready = shows.ready;
}

vga_text_putc-Shows : (c color : ℕ) (s : VgaText) → IsReady s → Shows s (vga_text_putc c color s)
unfolding vga_text_putc
vga_text_putc-Shows c color s h =
    let put = record s {
      vga_buffer = put_cell (s.vga_row * 80 + s.vga_col) (vga_entry c color) s.vga_buffer;
      vga_col = s.vga_col + 1;
    } in
    Shows-if (c == b'\n') (λ newline. next_row-Shows color s h.row)
      (λ other.
        Shows-if (c == 13)
          (λ return. record {
            behind = λ i far. refl;
            ready = record { row = h.row; col = omega arith };
          })
          (λ printed. put-Shows (vga_entry c color) s _ h (
            Shows-if (leb 80 (s.vga_col + 1)) (λ full. next_row-Shows color put h.row)
              (λ room. record {
                behind = λ i far. refl;
                ready = record { row = h.row; col = ground arith };
              }))))

-- With the cursor on the screen, `vga_text_puts` with any bytes writes no cell behind the 2000 cells
-- of the screen, and the cursor is on the screen afterwards.
pub vga_text_puts-Shows :
    (cs : List ℕ) (color : ℕ) (s : VgaText) → IsReady s → Shows s (vga_text_puts cs color s)
unfolding vga_text_puts
vga_text_puts-Shows [] color s h = record { behind = λ i far. refl; ready = h }
vga_text_puts-Shows (c ∷ cs) color s h =
    let first = vga_text_putc-Shows c color s h in
    let rest = vga_text_puts-Shows cs color (vga_text_putc c color s) first.ready in
    Shows-if (c == 0) (λ end. record { behind = λ i far. refl; ready = h })
      (λ more. record {
        behind = λ i far. rest.behind i far ∙ first.behind i far;
        ready = rest.ready;
      })

-- The index of the cursor's cell.
abbrev pub cursor : VgaText → ℕ
cursor s = s.vga_row * 80 + s.vga_col

-- No byte ends the string or moves the cursor otherwise than to the next cell.
unfoldable pub is_plain : List ℕ → Bool
is_plain [] = true
is_plain (c ∷ cs) = (not (c == 0) && (not (c == b'\n') && not (c == 13))) && is_plain cs

-- `t` is `s` with the bytes `cs` at the cursor and the cursor behind them.
pub record Prints (cs : List ℕ) (color : ℕ) (s t : VgaText) : Type 0 where
  pub cells :
      (i : ℕ)
      → t.vga_buffer i ≡ (
          if leb (cursor s) i && ltb i (cursor s + length cs)
          then vga_entry (get_or cs (i - cursor s) 0) color
          else s.vga_buffer i)
  pub moved : cursor t ≡ cursor s + length cs
  pub ready : IsReady t

Prints-if :
    {cs : List ℕ} {color : ℕ} {s t u : VgaText} (b : Bool)
    → (b ≡ true → Prints cs color s t)
    → (b ≡ false → Prints cs color s u)
    → Prints cs color s (if b then t else u)
Prints-if true x y = x refl
Prints-if false x y = y refl

one_cell :
    (at i e old : ℕ) (c color : ℕ)
    → e ≡ vga_entry c color
    → (if at == i then e else old)
      ≡ (if leb at i && ltb i (at + 1) then vga_entry (get_or (c ∷ []) (i - at) 0) color else old)
one_cell at i e old c color h = elim (Bool-cases (at == i)) [
  | inl here ↦ let first : i - at ≡ 0 = ground arith in rw (first, h) (ground arith)
  | inr other ↦ ground arith
]

putc-Prints :
    (c color : ℕ) (s : VgaText)
    → IsReady s
    → cursor s + 1 < 2000
    → (not (c == 0) && (not (c == b'\n') && not (c == 13))) ≡ true
    → Prints (c ∷ []) color s (vga_text_putc c color s)
unfolding vga_text_putc next_row
putc-Prints c color s h room plain =
    Prints-if (c == b'\n') (λ e. absurd (ground arith))
      (λ other.
        Prints-if (c == 13) (λ e. absurd (ground arith))
          (λ printed.
            Prints-if (leb 80 (s.vga_col + 1))
              (λ full.
                Prints-if (leb 25 (s.vga_row + 1)) (λ last. absurd (ground (arith, h.row, h.col)))
                  (λ up. record {
                    cells = λ i. one_cell (cursor s) i _ _ c color refl;
                    moved = ground (arith, h.col);
                    ready = record { row = ground arith; col = omega arith };
                  }))
              (λ fits. record {
                cells = λ i. one_cell (cursor s) i _ _ c color refl;
                moved = omega arith;
                ready = record { row = h.row; col = ground arith };
              })))

cells_join :
    (k n i e1 e2 e old : ℕ)
    → (i ≡ k → e1 ≡ e)
    → (k + 1 ≤ i → e2 ≡ e)
    → (if leb (k + 1) i && ltb i (k + 1 + n)
        then e2
        else if leb k i && ltb i (k + 1)
        then e1
        else old)
      ≡ (if leb k i && ltb i (k + suc n) then e else old)
cells_join k n i e1 e2 e old h1 h2 = ground (arith, h1, h2)

Prints-cons :
    (c : ℕ) (cs : List ℕ) (color : ℕ) (s t u : VgaText)
    → Prints (c ∷ []) color s t
    → Prints cs color t u
    → Prints (c ∷ cs) color s u
Prints-cons c cs color s t u p q = record {
  cells = λ i.
      let entry = λ (ds : List ℕ) (k : ℕ). vga_entry (get_or ds k 0) color in
      let at : cursor t ≡ cursor s + 1 = p.moved in
      rw (q.cells i, p.cells i, at)
        (cells_join (cursor s) (length cs) i (entry (c ∷ []) (i - cursor s))
          (entry cs (i - (cursor s + 1))) (entry (c ∷ cs) (i - cursor s)) (s.vga_buffer i)
          (λ first. let none_before : i - cursor s ≡ 0 = omega arith in rw none_before refl)
          (λ later.
            let one_before : i - cursor s ≡ suc (i - (cursor s + 1)) = omega arith in
            rw one_before refl));
  moved = omega (arith, p.moved, q.moved);
  ready = q.ready;
}

-- With the cursor on the screen and room for the text before the screen's last cell, `vga_text_puts`
-- of bytes that are neither zero, a newline nor a carriage return puts the entry of each of them,
-- in order, in the cells from the cursor on, over the ends of rows too, changes no other cell and
-- leaves the cursor, on the screen, at the cell behind the text.
pub vga_text_puts-Prints :
    (cs : List ℕ) (color : ℕ) (s : VgaText)
    → IsReady s
    → is_plain cs ≡ true
    → cursor s + length cs < 2000
    → Prints cs color s (vga_text_puts cs color s)
unfolding vga_text_puts is_plain
vga_text_puts-Prints [] color s h plain room = record {
  cells = λ i. ground arith;
  moved = omega arith;
  ready = h;
}
vga_text_puts-Prints (c ∷ cs) color s h plain room =
    let first = putc-Prints c color s h (omega arith) (ground arith) in
    let rest =
      vga_text_puts-Prints cs color (vga_text_putc c color s) first.ready (ground arith)
        (omega (arith, first.moved)) in
    Prints-if (c == 0) (λ e. absurd (ground arith))
      (λ more. Prints-cons c cs color s (vga_text_putc c color s) _ first rest)
