-- ===== src/Common.antt =====
-- Names that every other module shares: the libraries' and those of the children, which model
-- what the program uses of Rust's standard library (Result, String, HashMap, Display, FromStr).
mod Tests
mod Lists
mod Results
mod Texts
pub mod Map
pub mod Exec
pub mod Walks
pub mod Utf8
mod Decimal
pub use Tests.*
unfoldable pub use Decimal.{show, parse_u32, u32_max}
pub use Decimal.{show-injective, parse_u32-show, show-IsDigit, IsDigit}
pub use Lists.*
pub use Results.*
unfoldable pub use Texts.*
pub use Prim.Native.Nat.{ℕ, zero, suc, ◌+◌, ◌-◌, ◌*◌, ◌/◌, ◌%◌, ◌^◌, ◌≤◌, ◌<◌}
pub use mathlib.Core.Path.{◌≡◌, refl, sym, subst, ap, ◌∙◌}
pub use mathlib.Core.Logic.{◌≢◌, ◌↔◌, ◌⊎◌, inl, inr}
pub use mathlib.Core.Bool.{Bool, true, false, ◌&&◌, ◌||◌, not}
pub use mathlib.Core.Option.{Option, none, some}
pub use mathlib.Core.List.{List, [], ◌∷◌, ◌++◌, map}
pub use native.Mathlib.Omega.{arith}
