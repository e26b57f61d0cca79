-- ===== src/Prelude.antt =====
-- The names that the other modules share: the libraries', passed on, and those of the children.
mod Tests
mod Lists
mod ByteStrings
pub mod Int
pub use Tests.*
pub use Lists.*
unfoldable pub use ByteStrings.{bytes_eq, put_be, from_be}
pub use ByteStrings.{
  Bytes, bytes_eq_iff, bytes_eq_refl, ne→bytes_eq, bytes_eq→eq, bytes_eq→ne, length-put_be,
  from_be-put_be, from_be-lt, from_be-append, put_be-injective, from_be-injective, IsBytes,
  replicate-IsBytes,
}
pub use Prim.Native.Nat.{ℕ, zero, suc, ◌+◌, ◌-◌, ◌*◌, ◌/◌, ◌%◌, ◌^◌, ◌≤◌, ◌<◌}
pub use mathlib.Core.Path.{◌≡◌, refl, sym, ap, ◌∙◌}
pub use mathlib.Core.Logic.{◌≢◌, ◌↔◌, ◌⊎◌, inl, inr}
pub use mathlib.Core.Bool.{Bool, true, false, not, ◌&&◌, ◌||◌}
pub use mathlib.Core.Option.{Option, none, some}
pub use mathlib.Core.List.{List, [], ◌∷◌, ◌++◌, map}
pub use native.Mathlib.Omega.{arith}
unfoldable pub use native.Mathlib.Decide.{dec_lt}
