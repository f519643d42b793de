-- ===== src/Lexer/Examples.antt =====
-- The lexer on concrete scripts.
use quetzal_os.Base.{ℕ, ◌≤◌, ◌<◌, ◌≡◌, refl, ◌⊎◌, List, length, arith, codes}
use quetzal_os.Lexer.{eof, scan, lexer_next, skip_space, ident_loop, dec_loop, hex_loop, hex_value}
use quetzal_os.Lexer.Progress.{lexer_next_moves}

abbrev script : List ℕ
script = codes "  feather_rect(700, 0x1F);"

hex_token : (scan (codes "0x1F);")).value ≡ 31
unfolding scan hex_loop hex_value dec_loop
hex_token = refl

name_token : (lexer_next (record { src = script; pos = 0 })).0.pos ≡ 14
unfolding lexer_next scan skip_space ident_loop hex_loop dec_loop
name_token = refl

lexer_next_moves_example :
    let (next, tok) = lexer_next (record { src = script; pos = 14 }) in
    (next.src ≡ script)
    × (14 ≤ next.pos)
    × (next.pos ≤ length script)
    × ((tok.kind ≡ eof) ⊎ (14 < next.pos))
lexer_next_moves_example = lexer_next_moves (record { src = script; pos = 14 }) (omega arith)
