-- ===== src/Pit.antt =====
-- kernel/drivers/pit.c: the timer's tick counter and the 260-day calendar. The state is `ticks`, a
-- 64-bit counter that only the interrupt handler changes; its atomic operations are single steps.
pub mod Calendar
mod Examples
use Prim.Native.String.{String}
use quetzal_os.Base.{
  ℕ, zero, suc, ◌+◌, ◌-◌, ◌*◌, ◌/◌, ◌%◌, ◌^◌, ◌≤◌, ◌<◌, ◌≡◌, ◌≢◌, ◌↔◌, refl, sym, ap, ◌∙◌, fun_ext,
  Bool, true, false, not, ◌&&◌, ◌||◌, ◌⊎◌, inl, inr, List, [], ◌∷◌, ◌++◌, map, Option, none, some,
  append-nil, append_assoc, min, or_nibble, bit_and, bit_or, byte_set, byte_clear, byte_test,
  get_or, set, take, drop, replicate, length, length-append, length-set, length-replicate,
  length-take, length-drop, get_or-set_self, get_or-set_ne, take-append-drop, ltb, leb, ◌==◌,
  if◌then◌else◌, Bool-cases, Option-cases, Bool-ext, ==_iff, ltb_iff, arith, all_below,
  all_below_sound, codes, cstr, copy_str, length-copy_str, cstr-copy_str, length-cstr, cstr-cstr,
  length-take-cstr, u8, u16, u32, u64, sub_u32, ℤ, pos, negsuc, pos_part, neg_part, sub_ℕ, ◌+ℤ◌,
  ◌-ℤ◌, ltb_ℤ, leb_ℤ, eqb_ℤ, int_of, word_of,
}
use quetzal_os.Io.{PortWrite, outb, eoi_master}

abbrev pub day_signs : List String
day_signs =
    "Cipactli (Crocodile)" ∷ "Ehecatl (Wind)" ∷ "Calli (House)" ∷ "Cuetzpalin (Lizard)"
    ∷ "Coatl (Serpent)" ∷ "Miquiztli (Death)" ∷ "Mazatl (Deer)" ∷ "Tochtli (Rabbit)" ∷ "Atl (Water)"
    ∷ "Itzcuintli (Dog)" ∷ "Ozomatli (Monkey)" ∷ "Malinalli (Grass)" ∷ "Acatl (Reed)"
    ∷ "Ocelotl (Jaguar)" ∷ "Cuauhtli (Eagle)" ∷ "Cozcacuauhtli (Vulture)" ∷ "Ollin (Movement)"
    ∷ "Tecpatl (Flint)" ∷ "Quiahuitl (Rain)" ∷ "Xochitl (Flower)" ∷ []

-- `none` is the division by zero of a frequency of 0.
unfoldable pub pit_init : ℕ → Option (List PortWrite)
pit_init frequency_hz =
    let divisor = 1193182 / frequency_hz in
    if frequency_hz == 0
    then none
    else some (
        outb 0x43 0x36 ∷ outb 0x40 (u8 (divisor % 256)) ∷ outb 0x40 (u8 (divisor / 256 % 256)) ∷ [])

abbrev pub pit_get_ticks : ℕ → ℕ
pit_get_ticks ticks = ticks

unfoldable pub pit_handler : ℕ → ℕ × List PortWrite
pit_handler ticks = (u64 (ticks + 1), eoi_master ∷ [])

-- `tonalpohualli_time_t`; a name is `none` if its index is past the table.
pub record TonalTime : Type 0 where
  pub trecena_num : ℕ
  pub veintena_sign : ℕ
  pub sign_name : Option String
  pub total_tonal_days : ℕ
  pub total_ticks : ℕ

abbrev pub sign_at : List String → ℕ → Option String
sign_at [] i = none
sign_at (x ∷ xs) zero = some x
sign_at (x ∷ xs) (suc i) = sign_at xs i

unfoldable pub pit_get_tonal_time : ℕ → TonalTime
pit_get_tonal_time now =
    let total_days = u32 (now / 100 % 260) in
    record {
      trecena_num = total_days % 13 + 1;
      veintena_sign = total_days % 20;
      sign_name = sign_at day_signs (total_days % 20);
      total_tonal_days = total_days;
      total_ticks = now;
    }

-- The counter after `n` interrupts.
pub after_ticks : ℕ → ℕ → ℕ
after_ticks zero ticks = ticks
after_ticks (suc n) ticks = after_ticks n (pit_handler ticks).0
