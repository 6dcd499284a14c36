-- ===== src/Base.antt =====
-- What the components share: the libraries' names passed on, integers, lists, texts and results.
mod Tests
mod Lists
mod Int
mod Duration
mod Sort
mod Text
mod Order
mod Ascending
mod Errors
pub use Tests.*
pub use Lists.*
unfoldable pub use Int.*
unfoldable pub use Duration.*
unfoldable pub use Sort.*
unfoldable pub use Text.*
pub use Order.*
pub use Errors.*
pub use Prim.Native.Nat.{ℕ, zero, suc, ◌+◌, ◌-◌, ◌*◌, ◌/◌, ◌%◌, ◌^◌, ◌≤◌, ◌<◌}
pub use Prim.Native.Char.{Char, code}
pub use Prim.Native.String.{String}
pub use text.Mathlib.Text.{◌==◌ as str_eq}
pub use text.Mathlib.TextEquality.{eq_iff}
pub use text.Mathlib.TextPositions.{eq_refl}
pub use mathlib.Core.Path.{◌≡◌, refl, sym, ap, ◌∙◌}
pub use mathlib.Core.Logic.{◌≢◌, ◌↔◌, ◌⊎◌, inl, inr}
pub use mathlib.Core.Bool.{Bool, true, false, not, ◌&&◌, ◌||◌}
pub use mathlib.Core.Option.{Option, none, some}
pub use mathlib.Core.List.{Permᴰ, List, [], ◌∷◌, ◌++◌, map, Memᴰ}
pub use booknow_mcp_service.Base.Ascending.{IsAscending, sort-Permᴰ, sort-sorted, sort-IsAscending}
pub use native.Mathlib.Omega.{arith}
