-- ===== src/Base.antt =====
-- The names that the other modules share.
pub mod Tests
pub mod Word
pub mod Table
pub mod Store
pub mod Bits
pub mod Widths
pub mod Chain
pub mod Text
pub use Tests.*
pub use Word.*
unfoldable pub use Store.{Bytes, IsBytes, update, copy, memcpy_s}
pub use Prim.Native.Nat.{ℕ, zero, suc, ◌+◌, ◌-◌, ◌*◌, ◌/◌, ◌%◌, ◌^◌, ◌≤◌, ◌<◌}
pub use Prim.Native.Nat.{bit_and, bit_or, bit_xor}
pub use mathlib.Core.Path.{◌≡◌, refl, sym, ap, ◌∙◌}
pub use mathlib.Core.Logic.{◌≢◌, ◌↔◌, ◌⊎◌, inl, inr}
pub use mathlib.Core.Bool.{Bool, true, false, not, ◌&&◌, ◌||◌}
pub use mathlib.Core.Option.{Option, none, some}
pub use mathlib.Core.List.{List, [], ◌∷◌, ◌++◌}
pub use native.Mathlib.Omega.{arith}
