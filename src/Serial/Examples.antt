-- ===== src/Serial/Examples.antt =====
-- The serial port at concrete values.
use quetzal_os.Base.{
  ℕ, ◌+◌, ◌-◌, ◌%◌, ◌≡◌, refl, true, false, [], ◌∷◌, ◌++◌, length, some, none, arith, codes, u32,
  byte_test, ltb, if◌then◌else◌,
}
use quetzal_os.Lexer.{number, scan}
use quetzal_os.Serial.{print_num, kprintf, str, int}
use quetzal_os.Serial.RoundTrip.{scan-print_num}
use quetzal_os.Serial.Line.{crlf, send_string, Responsive, Sent, send_string-Sent}

prints_heap :
    kprintf
      (codes "mem %u of %p: %d %s%%\n")
      (int 300 ∷ int 0xfd00 ∷ int 0xffff_fffb ∷ str none ∷ [])
    ≡ some (codes "mem 300 of 0xFD00: -5 (null)%" ++ 13 ∷ b'\n' ∷ [])
unfolding kprintf
prints_heap = refl

too_few_arguments : kprintf (codes "%x") [] ≡ none
unfolding kprintf
too_few_arguments = refl

scan-print_num_example : scan (print_num 4294967338 10 false ++ codes ");") ≡ record {
  kind = number;
  start = print_num 4294967338 10 false ++ codes ");";
  length_of = length (print_num 4294967338 10 false);
  value = u32 4294967338;
}
scan-print_num_example = scan-print_num 4294967338 (codes ");") (omega arith) refl

-- A port that is ready at every third read.
abbrev slow_port : ℕ → ℕ
slow_port t = if ltb (t % 3) 2 then 0x41 else 0x61

slow_port_ready : (r : ℕ) → ltb r 2 ≡ false → byte_test (if ltb r 2 then 0x41 else 0x61) 5 ≡ true
unfolding byte_test
slow_port_ready r h = rw h refl

slow_port-Responsive : Responsive 3 slow_port
slow_port-Responsive = record {
  delay = λ t. 2 - t % 3;
  soon = λ t. omega arith;
  ready = λ t. slow_port_ready ((t + (2 - t % 3)) % 3) (ground arith);
}

send_string-Sent_example :
    Sent slow_port 3 (crlf (codes "ok\n")) 7 (send_string slow_port 3 (some (codes "ok\n")) 7)
    × Sent slow_port 3 [] 7 (send_string slow_port 3 none 7)
send_string-Sent_example = send_string-Sent slow_port 3 (codes "ok\n") 7 slow_port-Responsive

-- The bytes are o, k, a carriage return and a newline.
sent_bytes : crlf (codes "ok\n") ≡ b'o' ∷ b'k' ∷ 13 ∷ 10 ∷ []
sent_bytes = refl
