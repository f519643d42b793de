-- ===== src/Idt/Gates.antt =====
-- Which gates `idt_init` leaves present and where they lead.
use quetzal_os.Base.{
  ℕ, zero, suc, ◌+◌, ◌-◌, ◌*◌, ◌%◌, ◌^◌, ◌≤◌, ◌<◌, ◌≡◌, refl, sym, ◌∙◌, Bool, true, not, ◌&&◌, ◌||◌,
  inl, inr, List, [], ◌∷◌, Option, none, some, byte_test, get_or, set, length, length-set,
  get_or-set_self, get_or-set_ne, ltb, leb, ◌==◌, if◌then◌else◌, Bool-cases, ==_iff, ltb_iff, arith,
  all_below, all_below_sound, u8, u16,
}
use quetzal_os.Idt.{IdtEntry, Idt, gate, idt_set_gate, pic_remap, clear_gates, idt_init}
use quetzal_os.Io.{PortWrite, outb, outw, outl}

-- The address that the processor takes from a gate.
abbrev pub target : IdtEntry → ℕ
target e = e.offset_low + e.offset_mid * 2 ^ 16 + e.offset_high * 2 ^ 32

-- Bit 7 of the attributes.
abbrev pub is_present : IdtEntry → Bool
is_present e = leb 128 e.type_attributes

gate-target : (address sel flags : ℕ) → address < 2 ^ 64 → target (gate address sel flags) ≡ address
gate-target address sel flags h = omega arith

get_or-set :
    {A : Type 0} (xs : List A) (i j : ℕ) (v d : A)
    → i < length xs
    → get_or (set xs i v) j d ≡ (if i == j then v else get_or xs j d)
get_or-set xs i j v d h = elim (Bool-cases (i == j)) [
  | inl here ↦
      let same : i ≡ j = (==_iff i j).0 here in rw (here, sym same) (get_or-set_self xs i v d h)
  | inr other ↦ rw other (get_or-set_ne xs i j v d (λ e. absurd (ground arith)))
]

-- Gate `j`.
abbrev pub gate_at : Idt → ℕ → IdtEntry
gate_at t j = get_or t.gates j (gate 0 0 0)

idt_set_gate_lem :
    (num address sel flags : ℕ) (t : Idt) (j : ℕ)
    → num < 256
    → length t.gates ≡ 256
    → gate_at (idt_set_gate num address sel flags t) j
      ≡ (if num == j then gate address sel flags else gate_at t j)
unfolding idt_set_gate
idt_set_gate_lem num address sel flags t j small full =
    let index : u8 num ≡ num = omega arith in
    rw index (get_or-set t.gates num j (gate address sel flags) (gate 0 0 0) (omega (arith, full)))

length-idt_set_gate :
    (num address sel flags : ℕ) (t : Idt)
    → length (idt_set_gate num address sel flags t).gates ≡ length t.gates
unfolding idt_set_gate
length-idt_set_gate num address sel flags t = length-set t.gates (u8 num) _

cleared_join :
    {A : Type 0} (i n j : ℕ) (e old : A)
    → (if leb (i + 1) j && ltb j (i + 1 + n) then e else if i == j then e else old)
      ≡ (if leb i j && ltb j (i + suc n) then e else old)
cleared_join i n j e old = ground arith

-- The gates are emptied one by one.
record Empties (n i : ℕ) (t u : Idt) : Type 0 where
  pub sized : length u.gates ≡ 256
  pub empties :
      (j : ℕ) → gate_at u j ≡ (if leb i j && ltb j (i + n) then gate 0 0 0 else gate_at t j)

clear_gates-Empties :
    (n i : ℕ) (t : Idt) → i + n ≤ 256 → length t.gates ≡ 256 → Empties n i t (clear_gates n i t)
unfolding clear_gates
clear_gates-Empties zero i t room full = record { sized = full; empties = λ j. ground arith }
clear_gates-Empties (suc n) i t room full =
    let t' = idt_set_gate i 0 0 0 t in
    let sized' : length t'.gates ≡ 256 = length-idt_set_gate i 0 0 0 t ∙ full in
    let rest = clear_gates-Empties n (i + 1) t' (omega arith) sized' in
    record {
      sized = rest.sized;
      empties = λ j.
          rest.empties j
          ∙ rw (idt_set_gate_lem i 0 0 0 t j (omega arith) full)
              (cleared_join i n j (gate 0 0 0) (gate_at t j));
    }

set_gate-sized :
    (num address : ℕ) (t : Idt)
    → length t.gates ≡ 256
    → length (idt_set_gate num address 8 0x8e t).gates ≡ 256
set_gate-sized num address t full = length-idt_set_gate num address 8 0x8e t ∙ full

module _ (irq0_stub irq1_stub irq12_stub : ℕ) where
  -- The stub that the interrupt `j` has, if any.
  abbrev pub stub_of : ℕ → Option ℕ
  stub_of j =
      if j == 32
      then some irq0_stub
      else if j == 33
      then some irq1_stub
      else if j == 44
      then some irq12_stub
      else none

  abbrev pub expected_gate : Option ℕ → IdtEntry
  expected_gate none = gate 0 0 0
  expected_gate (some stub) = gate stub 8 0x8e

  three_gates :
      (j : ℕ) (e0 e1 e12 old : IdtEntry)
      → e0 ≡ expected_gate (some irq0_stub)
      → e1 ≡ expected_gate (some irq1_stub)
      → e12 ≡ expected_gate (some irq12_stub)
      → old ≡ gate 0 0 0
      → (if 44 == j then e12 else if 33 == j then e1 else if 32 == j then e0 else old)
        ≡ expected_gate (stub_of j)
  three_gates j e0 e1 e12 old h0 h1 h12 h = rw (h0, h1, h12, h) (ground arith)

  idt_init_gates :
      (table : ℕ) (t : Idt) (j : ℕ)
      → length t.gates ≡ 256
      → j < 256
      → gate_at (idt_init table irq0_stub irq1_stub irq12_stub t).0 j ≡ expected_gate (stub_of j)
  unfolding idt_init
  idt_init_gates table t j full small =
      let pointer = record t { limit = u16 (16 * 256 - 1); base = table } in
      let empty = clear_gates 256 0 pointer in
      let c = clear_gates-Empties 256 0 pointer (omega arith) full in
      let t0 = idt_set_gate 32 irq0_stub 8 0x8e empty in
      let t1 = idt_set_gate 33 irq1_stub 8 0x8e t0 in
      let s0 = set_gate-sized 32 irq0_stub empty c.sized in
      let s1 = set_gate-sized 33 irq1_stub t0 s0 in
      let g12 = idt_set_gate_lem 44 irq12_stub 8 0x8e t1 j (omega arith) s1 in
      let g1 = idt_set_gate_lem 33 irq1_stub 8 0x8e t0 j (omega arith) s0 in
      let g0 = idt_set_gate_lem 32 irq0_stub 8 0x8e empty j (omega arith) c.sized in
      let g : gate_at empty j ≡ gate 0 0 0 = c.empties j ∙ ground arith in
      g12 ∙ rw (g1, g0) (three_gates j _ _ _ _ refl refl refl g)

  -- What the processor finds in the gate of interrupt `j`.
  pub record Routes (j : ℕ) (e : IdtEntry) : Type 0 where
    pub present : is_present e ≡ (j == 32 || (j == 33 || j == 44))
    pub leads : target e ≡ (
        if j == 32
        then irq0_stub
        else if j == 33
        then irq1_stub
        else if j == 44
        then irq12_stub
        else 0)

  expected-Routes :
      (j : ℕ)
      → irq0_stub < 2 ^ 64
      → irq1_stub < 2 ^ 64
      → irq12_stub < 2 ^ 64
      → Routes j (expected_gate (stub_of j))
  expected-Routes j h0 h1 h12 = record {
    present = ground arith;
    leads = ground (
      arith,
      gate-target irq0_stub 8 0x8e h0,
      gate-target irq1_stub 8 0x8e h1,
      gate-target irq12_stub 8 0x8e h12,
    );
  }

  -- With stubs at 64-bit addresses and a table of 256 gates, after `idt_init` the gates of the
  -- interrupts 32, 33 and 44 are present and their fields make up the address of the timer's, the
  -- keyboard's and the mouse's stub; every other gate is not present and leads to 0.
  pub idt_init-Routes :
      (table : ℕ) (t : Idt) (j : ℕ)
      → length t.gates ≡ 256
      → j < 256
      → irq0_stub < 2 ^ 64
      → irq1_stub < 2 ^ 64
      → irq12_stub < 2 ^ 64
      → Routes j (gate_at (idt_init table irq0_stub irq1_stub irq12_stub t).0 j)
  idt_init-Routes table t j full small h0 h1 h12 =
      rw (idt_init_gates table t j full small) (expected-Routes j h0 h1 h12)

abbrev same_tests : Bool → Bool → Bool
same_tests a b = (a && b) || (not a && not b)

same_tests_sound : (a b : Bool) → same_tests a b ≡ true → a ≡ b
same_tests_sound a b h = ground arith

both : (a b : Bool) → (a && b) ≡ true → (a ≡ true) × (b ≡ true)
both a b h = ground arith

-- The bytes written to a port, in order.
abbrev writes_to : ℕ → List PortWrite → List ℕ
writes_to port [] = []
writes_to port (outb p v ∷ ws) = if p == port then v ∷ writes_to port ws else writes_to port ws
writes_to port (outw p v ∷ ws) = writes_to port ws
writes_to port (outl p v ∷ ws) = writes_to port ws

abbrev last_of : List ℕ → ℕ
last_of [] = 0
last_of (v ∷ []) = v
last_of (v ∷ w ∷ vs) = last_of (w ∷ vs)

-- The data port of the controller of request line `irq`.
abbrev pub data_port : ℕ → ℕ
data_port irq = if ltb irq 8 then 0x21 else 0xa1

-- The controller takes its first data byte as the interrupt of its line 0, and its last one as the
-- mask of its lines.
abbrev pub vector_of : List PortWrite → ℕ → ℕ
vector_of ws irq = get_or (writes_to (data_port irq) ws) 0 0 + irq % 8

abbrev pub is_unmasked : List PortWrite → ℕ → Bool
is_unmasked ws irq = not (byte_test (last_of (writes_to (data_port irq) ws)) (irq % 8))

abbrev is_wired : ℕ → Bool
is_wired v = v == 32 || (v == 33 || v == 44)

abbrev is_enabled : List PortWrite → ℕ → Bool
is_enabled ws irq = is_unmasked ws irq && not (irq == 2)

abbrev agrees : ℕ → Bool
agrees irq =
    let v = vector_of pic_remap irq in
    same_tests (is_wired v) (is_enabled pic_remap irq) && ltb v 256

all_agree : all_below 16 agrees ≡ true
unfolding all_below pic_remap byte_test
all_agree = refl

-- With a table of 256 gates and stubs at 64-bit addresses, for each of the 16 request lines, the
-- gate that `idt_init` leaves for the interrupt that the line is mapped to is present exactly when
-- `idt_init` leaves the line unmasked and it is not the line of the second controller.
pub idt_init-unmasked :
    (table irq0_stub irq1_stub irq12_stub : ℕ) (t : Idt) (irq : ℕ)
    → irq < 16
    → length t.gates ≡ 256
    → irq0_stub < 2 ^ 64
    → irq1_stub < 2 ^ 64
    → irq12_stub < 2 ^ 64
    → let (u, ws) = idt_init table irq0_stub irq1_stub irq12_stub t in
      is_present (gate_at u (vector_of ws irq)) ≡ (is_unmasked ws irq && not (irq == 2))
idt_init-unmasked table irq0_stub irq1_stub irq12_stub t irq line full h0 h1 h12 =
    let ws : (idt_init table irq0_stub irq1_stub irq12_stub t).1 ≡ pic_remap =
      unfold idt_init in refl in
    let v = vector_of pic_remap irq in
    let a = all_below_sound 16 agrees irq all_agree line in
    let (same, small) = both (same_tests (is_wired v) (is_enabled pic_remap irq)) (ltb v 256) a in
    let r =
      idt_init-Routes irq0_stub irq1_stub irq12_stub table t v full ((ltb_iff v 256).0 small) h0 h1
        h12 in
    rw ws (r.present ∙ same_tests_sound (is_wired v) (is_enabled pic_remap irq) same)
