-- ===== src/Serial/Line.antt =====
-- `serial_putc` and `serial_puts`: the wait for the port. `status t` is what the read of COM1_PORT + 5 at time `t`
-- returns, and every read is a step of time; the wait has fuel, since the source's loop ends only if
-- the port becomes ready.
use quetzal_os.Base.{
  ℕ, zero, suc, ◌+◌, ◌-◌, ◌≤◌, ◌<◌, ◌≡◌, refl, sym, ap, ◌∙◌, true, false, inl, inr, List, [], ◌∷◌,
  ◌++◌, map, Option, none, some, byte_test, ◌==◌, ==_iff, if◌then◌else◌, Bool-cases, arith,
}
use mathlib.Core.List.{map-append}
use quetzal_os.Io.{PortWrite, outb}
use quetzal_os.Serial.{com1_port, with_cr}

module _ (status : ℕ → ℕ) where
  -- `while (is_transmit_empty() == 0);` from time `t` on: the time behind the last read.
  unfoldable pub wait_empty : ℕ → ℕ → Option ℕ
  wait_empty zero t = none
  wait_empty (suc fuel) t =
      let rest = wait_empty fuel (t + 1) in if byte_test (status t) 5 then some (t + 1) else rest

  -- The time behind the last read, and the write.
  unfoldable pub serial_putc : ℕ → ℕ → ℕ → Option (ℕ × PortWrite)
  unfolding wait_empty
  serial_putc fuel c t = elim (wait_empty fuel t) [
    | none ↦ none
    | some u ↦ some (u, outb com1_port c)
  ]

  -- One call of `serial_putc` for each byte; the writes with their times.
  unfoldable pub transmit : ℕ → List ℕ → ℕ → Option (ℕ × List (ℕ × PortWrite))
  unfolding serial_putc
  transmit fuel [] t = some (t, [])
  transmit fuel (c ∷ cs) t = elim (serial_putc fuel c t) [
    | none ↦ none
    | some (u, w) ↦ elim (transmit fuel cs u) [ none ↦ none | some (v, ws) ↦ some (v, (u, w) ∷ ws) ]
  ]

  -- The loop of `serial_puts`.
  unfoldable pub puts_loop : ℕ → List ℕ → ℕ → Option (ℕ × List (ℕ × PortWrite))
  unfolding transmit
  puts_loop fuel [] t = some (t, [])
  puts_loop fuel (c ∷ cs) t =
      let sent : Option (ℕ × List (ℕ × PortWrite)) = elim (transmit fuel (with_cr c) t) [
        | none ↦ none
        | some (u, ws) ↦ elim (puts_loop fuel cs u) [
          | none ↦ none
          | some (v, more) ↦ some (v, ws ++ more)
        ]
      ] in
      if c == 0 then some (t, []) else sent

  -- `serial_puts` on the port; `none` for the string is the null pointer.
  unfoldable pub send_string : ℕ → Option (List ℕ) → ℕ → Option (ℕ × List (ℕ × PortWrite))
  unfolding puts_loop
  send_string fuel none t = some (t, [])
  send_string fuel (some str) t = puts_loop fuel str t

-- From every moment on, one of the next `k` reads finds the port ready.
pub record Responsive (k : ℕ) (status : ℕ → ℕ) : Type 0 where
  pub delay : ℕ → ℕ
  pub soon : (t : ℕ) → delay t < k
  pub ready : (t : ℕ) → byte_test (status (t + delay t)) 5 ≡ true

-- From time `t` on: each byte is written right behind a read that found the port ready, and there are
-- one to `k` reads for each.
abbrev pub AreTimed : (ℕ → ℕ) → ℕ → ℕ → List (ℕ × PortWrite) → Type 0
AreTimed status k t [] = Unit {0}
AreTimed status k t ((u, w) ∷ ws) =
    (t < u) × (u ≤ t + k) × (byte_test (status (u - 1)) 5 ≡ true) × AreTimed status k u ws

-- The time behind the last of the writes.
abbrev pub ends_at : ℕ → List (ℕ × PortWrite) → ℕ
ends_at t [] = t
ends_at t ((u, w) ∷ ws) = ends_at u ws

-- The bytes went to the port, in order, each when the port was ready.
pub record Sent (status : ℕ → ℕ) (k : ℕ) (bytes : List ℕ) (t : ℕ)
    (r : Option (ℕ × List (ℕ × PortWrite))) : Type 0 where
  pub time : ℕ
  pub writes : List (ℕ × PortWrite)
  pub returns : r ≡ some (time, writes)
  pub in_order : map (λ (w : ℕ × PortWrite). w.1) writes ≡ map (outb com1_port) bytes
  pub timed : AreTimed status k t writes
  pub last : time ≡ ends_at t writes

-- A string up to its NUL, with a carriage return (13) before each newline (10).
abbrev pub crlf : List ℕ → List ℕ
crlf [] = []
crlf (c ∷ cs) =
    let rest = crlf cs in if c == 0 then [] else if c == 10 then 13 ∷ 10 ∷ rest else c ∷ rest

module _ (status : ℕ → ℕ) where
  wait_empty-some :
      (d fuel t : ℕ)
      → d < fuel
      → byte_test (status (t + d)) 5 ≡ true
      → (u : ℕ) × (wait_empty status fuel t ≡ some u)
        × (t < u)
        × (u ≤ t + suc d)
        × (byte_test (status (u - 1)) 5 ≡ true)
  unfolding wait_empty
  wait_empty-some d zero t h e = absurd (omega arith)
  wait_empty-some zero (suc fuel) t h e =
      let same : t + 0 ≡ t = omega arith in
      let before : t + 1 - 1 ≡ t = omega arith in
      let now : byte_test (status t) 5 ≡ true = rw same at e in
      rw now (t + 1, refl, omega arith, omega arith, rw before now)
  wait_empty-some (suc d) (suc fuel) t h e = elim (Bool-cases (byte_test (status t) 5)) [
    | inl now ↦
        let before : t + 1 - 1 ≡ t = omega arith in
        rw now (t + 1, refl, omega arith, omega arith, rw before now)
    | inr later ↦
        let same : t + suc d ≡ t + 1 + d = omega arith in
        let (u, waited, behind, soon, ready) =
          wait_empty-some d fuel (t + 1) (omega arith) (rw same at e) in
        rw later (u, waited, omega (arith, behind), omega (arith, soon), ready)
  ]

  AreTimed-append :
      (k t : ℕ) (ws more : List (ℕ × PortWrite))
      → AreTimed status k t ws
      → AreTimed status k (ends_at t ws) more
      → AreTimed status k t (ws ++ more)
  AreTimed-append k t [] more first rest = rest
  AreTimed-append k t (w ∷ ws) more (behind, soon, ready, first) rest =
      (behind, soon, ready, AreTimed-append k w.0 ws more first rest)

  ends_at-append :
      (t : ℕ) (ws more : List (ℕ × PortWrite))
      → ends_at t (ws ++ more) ≡ ends_at (ends_at t ws) more
  ends_at-append t [] more = refl
  ends_at-append t (w ∷ ws) more = ends_at-append w.0 ws more

  pub transmit-Sent :
      (k : ℕ) (bytes : List ℕ) (t : ℕ)
      → Responsive k status
      → Sent status k bytes t (transmit status k bytes t)
  unfolding transmit
  transmit-Sent k [] t live = record {
    time = t;
    writes = [];
    returns = refl;
    in_order = refl;
    timed = tt;
    last = refl;
  }
  transmit-Sent k (c ∷ cs) t live =
      let (u, waited, behind, soon, ready) =
        wait_empty-some (live.delay t) k t (live.soon t) (live.ready t) in
      let rest = transmit-Sent k cs u live in
      let sent : serial_putc status k c t ≡ some (u, outb com1_port c) =
        rw (serial_putc, waited) refl in
      rw (sent, rest.returns, transmit)
        (record {
          time = rest.time;
          writes = (u, outb com1_port c) ∷ rest.writes;
          returns = refl;
          in_order = ap (λ l. outb com1_port c ∷ l) rest.in_order;
          timed = (behind, omega (arith, soon, live.soon t), ready, rest.timed);
          last = rest.last;
        })

  -- Two lists of bytes, one behind the other.
  pub Sent-append :
      (k : ℕ) (bytes more : List ℕ) (t : ℕ) {r s : Option (ℕ × List (ℕ × PortWrite))}
      → (a : Sent status k bytes t r) (b : Sent status k more a.time s)
      → Sent status k (bytes ++ more) t (some (b.time, a.writes ++ b.writes))
  Sent-append k bytes more t a b = record {
    time = b.time;
    writes = a.writes ++ b.writes;
    returns = refl;
    in_order =
        map-append (λ (w : ℕ × PortWrite). w.1) a.writes b.writes
        ∙ rw (a.in_order, b.in_order) (sym (map-append (outb com1_port) bytes more));
    timed = AreTimed-append k t a.writes b.writes a.timed (rw (sym a.last) b.timed);
    last = b.last ∙ ap (λ u. ends_at u b.writes) a.last ∙ sym (ends_at-append t a.writes b.writes);
  }

  -- Three messages, one behind the other.
  pub three_messages :
      (k : ℕ) (x y z : List ℕ) (t : ℕ) {r s q : Option (ℕ × List (ℕ × PortWrite))}
      → (a : Sent status k x t r) (b : Sent status k y a.time s) (c : Sent status k z b.time q)
      → (map (λ (w : ℕ × PortWrite). w.1) (a.writes ++ (b.writes ++ c.writes))
          ≡ map (outb com1_port) (x ++ (y ++ z)))
        × AreTimed status k t (a.writes ++ (b.writes ++ c.writes))
  unfolding Sent-append
  three_messages k x y z t a b c =
      let all = Sent-append k x (y ++ z) t a (Sent-append k y z a.time b c) in
      (all.in_order, all.timed)

  with_cr-crlf : (c : ℕ) (cs : List ℕ) → (c == 0) ≡ false → crlf (c ∷ cs) ≡ with_cr c ++ crlf cs
  with_cr-crlf c cs h = elim (Bool-cases (c == 10)) [
    | inl newline ↦ let e : c ≡ 10 = (==_iff c 10).0 newline in rw e refl
    | inr other ↦ rw (h, other) refl
  ]

  puts_loop-Sent :
      (k : ℕ) (str : List ℕ) (t : ℕ)
      → Responsive k status
      → Sent status k (crlf str) t (puts_loop status k str t)
  unfolding puts_loop
  puts_loop-Sent k [] t live = transmit-Sent k [] t live
  puts_loop-Sent k (c ∷ cs) t live = elim (Bool-cases (c == 0)) [
    | inl ends ↦ rw ends (transmit-Sent k [] t live)
    | inr more ↦
        let first = transmit-Sent k (with_cr c) t live in
        let rest = puts_loop-Sent k cs first.time live in
        let text = with_cr-crlf c cs more in
        rw (text, more, first.returns, rest.returns)
          (Sent-append k (with_cr c) (crlf cs) t first rest)
  ]

  -- If from every moment on one of the next `k` reads of the line status finds the port ready,
  -- `serial_puts` with `k` reads allowed for each byte ends, and it writes to the port the bytes of
  -- the string up to its NUL, in order, with a carriage return before each newline (nothing for a null
  -- pointer), each of them right behind a read that found the port ready, with one to `k` reads for
  -- each.
  pub send_string-Sent :
      (k : ℕ) (str : List ℕ) (t : ℕ)
      → Responsive k status
      → Sent status k (crlf str) t (send_string status k (some str) t)
        × Sent status k [] t (send_string status k none t)
  unfolding send_string
  send_string-Sent k str t live = (puts_loop-Sent k str t live, transmit-Sent k [] t live)
