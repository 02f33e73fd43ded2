-- ===== src/Base.antt =====
-- Names that the other modules share: the libraries', passed on, the Boolean tests, and the list
-- and option helpers that the source's loops and map look-ups need.
mod Tests
mod Lists
mod Rows
mod Int
mod Below
pub use Tests.*
pub use Lists.*
pub use Rows.*
unfoldable pub use Below.{all_below}
pub use Below.{all_below-true}
unfoldable pub use Int.{int16}
pub use Int.{ℤ, pos, negsuc, pos_part, neg_part, ◌≤ℤ◌, ◌<ℤ◌, ltb_ℤ, suc_ℤ, int16_range, int16_id}
pub use Prim.Native.Nat.{ℕ, zero, suc, ◌+◌, ◌-◌, ◌*◌, ◌/◌, ◌%◌, ◌^◌, ◌≤◌, ◌<◌}
pub use Prim.Native.String.{String}
pub use mathlib.Core.Path.{◌≡◌, refl, sym, ap, ◌∙◌}
pub use mathlib.Core.Logic.{◌≢◌, ◌↔◌, ◌⊎◌, inl, inr}
pub use mathlib.Core.Bool.{Bool, true, false, not, ◌&&◌, ◌||◌}
pub use mathlib.Core.Option.{Option, none, some}
pub use mathlib.Core.List.{List, [], ◌∷◌, ◌++◌, map}
pub use native.Mathlib.Omega.{arith}
