-- ===== src/Base.antt =====
-- The names that the other modules share: the libraries', passed on, and those of the children.
mod Tests
mod Lists
mod Bits
mod Or
mod Cstr
mod Words
mod Int
pub use Tests.*
pub use Lists.*
unfoldable pub use Bits.{byte_set, byte_clear, byte_test}
unfoldable pub use Bits.{all_below}
pub use Bits.{all_below_sound, test-byte_set, test-byte_clear, test-full}
pub use Bits.{byte_set-lt, byte_clear-lt}
pub use Cstr.*
pub use Or.{or_nibble, or_shift, or_comm_upto}
pub use Words.*
pub use Int.*
pub use Prim.Native.Nat.{ℕ, zero, suc, ◌+◌, ◌-◌, ◌*◌, ◌/◌, ◌%◌, ◌^◌, ◌≤◌, ◌<◌, min}
pub use Prim.Native.Nat.{bit_and, bit_or}
pub use mathlib.Core.Path.{◌≡◌, refl, sym, ap, ◌∙◌, fun_ext}
pub use mathlib.Core.Logic.{◌≢◌, ◌↔◌, ◌⊎◌, inl, inr}
pub use mathlib.Core.Bool.{Bool, true, false, not, ◌&&◌, ◌||◌}
pub use mathlib.Core.Option.{Option, none, some}
pub use mathlib.Core.List.{List, [], ◌∷◌, ◌++◌, map, append-nil, append_assoc}
pub use native.Mathlib.Omega.{arith}
