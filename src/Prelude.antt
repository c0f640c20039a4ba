-- ===== src/Prelude.antt =====
-- The names that the other modules share: the libraries', passed on, and those of the children.
mod Tests
mod Lists
mod Int
mod Table
mod Decimal
pub use Tests.*
pub use Lists.{
  Bytes, codes, length, get_elem?, get_or, take, drop, All, length-append, length-take, length-drop,
  take-append-drop, take-length-append, All-append, All-take, All-drop, c_str,
}
unfoldable pub use Lists.{text}
unfoldable pub use Decimal.{digits_of, zeros, decimal, zero_pad, decimal_z}
pub use Int.*
unfoldable pub use Table.{is_table}
pub use Table.{is_table_entry}
pub use Prim.Native.Nat.{ℕ, zero, suc, ◌+◌, ◌-◌, ◌*◌, ◌/◌, ◌%◌, ◌^◌, ◌≤◌, ◌<◌, min}
pub use Prim.Native.String.{String}
pub use mathlib.Core.Path.{◌≡◌, refl, sym, ap, ap₂, subst, subst₂, ◌∙◌}
pub use mathlib.Core.Logic.{◌≢◌, ◌↔◌, ◌⊎◌, inl, inr}
pub use mathlib.Core.Bool.{Bool, true, false, not, ◌&&◌, ◌||◌}
pub use mathlib.Core.Option.{Option, none, some}
pub use mathlib.Core.List.{List, [], ◌∷◌, ◌++◌, map, append-nil, append_assoc}
pub use native.Mathlib.Omega.{arith}
