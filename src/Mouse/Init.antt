-- ===== src/Mouse/Init.antt =====
-- `mouse_init` of kernel/drivers/ps2_mouse.c. Time counts the reads of ports: `status t` and `data t`
-- are what `inb(0x64)` and `inb(0x60)` return as read number `t`.
use quetzal_os.Base.{
  ℕ, zero, suc, ◌+◌, ◌/◌, ◌≤◌, ◌≡◌, refl, ◌∙◌, Bool, not, inl, inr, List, [], ◌∷◌, ◌++◌,
  append_assoc, append-nil, sym, byte_test, bit_or, u8, ◌==◌, if◌then◌else◌, Bool-cases, arith, ap,
}
use quetzal_os.Io.{PortWrite, outb}
use quetzal_os.Mouse.{Mouse}

-- The reads and the writes so far.
pub record Ps2 : Type 0 where
  pub time : ℕ
  pub writes : List PortWrite

abbrev emit : PortWrite → Ps2 → Ps2
emit w p = record p { writes = p.writes ++ w ∷ [] }

module _ (status data_at : ℕ → ℕ) where
  -- The loop of `mouse_wait`, with the rounds of the timeout left.
  unfoldable pub wait_loop : (ℕ → Bool) → ℕ → ℕ → ℕ
  wait_loop ready zero t = t
  wait_loop ready (suc n) t =
      let rest = wait_loop ready n (t + 1) in if ready (status t) then t + 1 else rest

  abbrev pub wait_timeout : ℕ
  wait_timeout = 100000

  pub mouse_wait : ℕ → Ps2 → Ps2
  mouse_wait type p = record p {
    time =
        if type == 0
        then wait_loop (λ s. byte_test s 0) wait_timeout p.time
        else wait_loop (λ s. not (byte_test s 1)) wait_timeout p.time;
  }

  abbrev pub send : ℕ → ℕ → Ps2 → Ps2
  send port byte p = emit (outb port byte) (mouse_wait 1 p)

  pub mouse_write : ℕ → Ps2 → Ps2
  mouse_write byte p = send 0x60 byte (send 0x64 0xd4 p)

  pub mouse_read : Ps2 → ℕ × Ps2
  mouse_read p = let q = mouse_wait 0 p in (u8 (data_at q.time), record q { time = q.time + 1 })

  -- The messages of `mouse_init` to the controller, and the byte that it read back.
  unfoldable pub handshake : Ps2 → ℕ × Ps2
  unfolding mouse_write mouse_read
  handshake p =
      let (answer, asked) = mouse_read (send 0x64 0x20 (send 0x64 0xa8 p)) in
      let status_byte = bit_or answer 2 in
      let set = send 0x60 status_byte (send 0x64 0x60 asked) in
      let (ack1, reset) = mouse_read (mouse_write 0xf6 set) in
      let (ack2, streaming) = mouse_read (mouse_write 0xf4 reset) in (status_byte, streaming)

-- `mouse_init` but for its messages, with the sides of the screen.
unfoldable pub mouse_reset : ℕ → ℕ → Mouse → Mouse
mouse_reset sw sh m = record m {
  mouse_x = sw / 2;
  mouse_y = sh / 2;
  mouse_buttons = 0;
  mouse_cycle = 0;
}

module _ (status data_at : ℕ → ℕ) where
  wait_loop-le : (ready : ℕ → Bool) (n t : ℕ) → wait_loop status data_at ready n t ≤ t + n
  unfolding wait_loop
  wait_loop-le ready zero t = omega arith
  wait_loop-le ready (suc n) t = ground (arith, wait_loop-le ready n (t + 1))

  mouse_wait-le : (type : ℕ) (p : Ps2) → (mouse_wait status data_at type p).time ≤ p.time + 100000
  unfolding mouse_wait
  mouse_wait-le type p = elim (Bool-cases (type == 0)) [
    | inl zero_type ↦ rw zero_type (wait_loop-le (λ s. byte_test s 0) 100000 p.time)
    | inr one_type ↦ rw one_type (wait_loop-le (λ s. not (byte_test s 1)) 100000 p.time)
  ]

  mouse_wait-writes : (type : ℕ) (p : Ps2) → (mouse_wait status data_at type p).writes ≡ p.writes
  unfolding mouse_wait
  mouse_wait-writes type p = refl

  -- From `p` to `q` the bytes `ws` were sent, in at most `n` reads.
  record Goes (n : ℕ) (ws : List PortWrite) (p q : Ps2) : Type 0 where
    sent : q.writes ≡ p.writes ++ ws
    in_time : q.time ≤ p.time + n

  Goes-trans :
      {n m : ℕ} {us vs : List PortWrite} {p q r : Ps2}
      → Goes n us p q
      → Goes m vs q r
      → Goes (n + m) (us ++ vs) p r
  Goes-trans {n} {m} {us} {vs} {p} {q} {r} a b = record {
    sent = b.sent ∙ ap (λ ws. ws ++ vs) a.sent ∙ append_assoc p.writes us vs;
    in_time = omega (arith, a.in_time, b.in_time);
  }

  send-Goes :
      (port byte : ℕ) (p : Ps2)
      → Goes 100000 (outb port byte ∷ []) p (send status data_at port byte p)
  send-Goes port byte p = record {
    sent = ap (λ ws. ws ++ outb port byte ∷ []) (mouse_wait-writes 1 p);
    in_time = mouse_wait-le 1 p;
  }

  read-Goes : (p : Ps2) → Goes 100001 [] p (mouse_read status data_at p).1
  unfolding mouse_read
  read-Goes p = record {
    sent = mouse_wait-writes 0 p ∙ sym (append-nil p.writes);
    in_time = omega (arith, mouse_wait-le 0 p);
  }

  write-Goes :
      (byte : ℕ) (p : Ps2)
      → Goes 200000 (outb 0x64 0xd4 ∷ outb 0x60 byte ∷ []) p (mouse_write status data_at byte p)
  unfolding mouse_write
  write-Goes byte p = Goes-trans (send-Goes 0x64 0xd4 p) (send-Goes 0x60 byte _)

  -- What the handshake sends behind `p`, and what it read.
  pub record Sends (p : Ps2) (r : ℕ × Ps2) : Type 0 where
    pub asked_at : ℕ
    pub keeps_answer : r.0 ≡ bit_or (u8 (data_at asked_at)) 2
    pub messages :
        r.1.writes
        ≡ p.writes
          ++ (outb 0x64 0xa8
              ∷ outb 0x64 0x20
              ∷ outb 0x64 0x60
              ∷ outb 0x60 r.0
              ∷ outb 0x64 0xd4
              ∷ outb 0x60 0xf6
              ∷ outb 0x64 0xd4
              ∷ outb 0x60 0xf4
              ∷ [])
    pub in_time : r.1.time ≤ p.time + 1100003

  -- Whatever the controller's ports return, a controller that never answers included, the messages of
  -- `mouse_init` end within 1100003 reads and are, in order: enable the mouse, read the controller's
  -- byte, write it back with bit 1 set, then the mouse's defaults and its streaming.
  pub handshake-Sends : (p : Ps2) → Sends p (handshake status data_at p)
  unfolding handshake
  handshake-Sends p =
      let on = send status data_at 0x64 0x20 (send status data_at 0x64 0xa8 p) in
      let answer = (mouse_read status data_at on).0 in
      let asked = (mouse_read status data_at on).1 in
      let byte = bit_or answer 2 in
      let set = send status data_at 0x60 byte (send status data_at 0x64 0x60 asked) in
      let reset = (mouse_read status data_at (mouse_write status data_at 0xf6 set)).1 in
      let first =
        Goes-trans (Goes-trans (send-Goes 0x64 0xa8 p) (send-Goes 0x64 0x20 _)) (read-Goes on) in
      let second = Goes-trans (send-Goes 0x64 0x60 asked) (send-Goes 0x60 byte _) in
      let third = Goes-trans (write-Goes 0xf6 set) (read-Goes _) in
      let fourth = Goes-trans (write-Goes 0xf4 reset) (read-Goes _) in
      let all = Goes-trans (Goes-trans first second) (Goes-trans third fourth) in
      record {
        asked_at = (mouse_wait status data_at 0 on).time;
        keeps_answer = unfold mouse_read in refl;
        messages = all.sent;
        in_time = omega (arith, all.in_time);
      }
