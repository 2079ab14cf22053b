-- ===== src/Prelude.antt =====
-- Names that the whole library shares: the libraries', passed on, and those of the children.
mod Tests
mod Lists
mod Strings
mod Int
mod Sort
mod Dict
pub use Tests.*
pub use Lists.*
pub use Strings.*
pub use Int.*
pub use Sort.*
pub use Dict.*
unfoldable pub use Int.{◌+ℤ◌, ◌-ℤ◌, scale}
unfoldable pub use Dict.{lookup, put, remove, last_n}
unfoldable pub use Sort.{sort, insert, filter_by}
unfoldable pub use Strings.{text_eq, cut_prefix, cut, trim_space, to_lower}
pub use Prim.Native.Nat.{ℕ, zero, suc, ◌+◌, ◌-◌, ◌*◌, ◌/◌, ◌%◌, ◌^◌, ◌≤◌, ◌<◌, min}
pub use mathlib.Core.Path.{◌≡◌, refl, sym, ap, ◌∙◌}
pub use mathlib.Core.Logic.{◌≢◌, ◌↔◌, ◌⊎◌, inl, inr}
pub use mathlib.Core.Bool.{Bool, true, false, not, ◌&&◌, ◌||◌}
pub use mathlib.Core.Option.{Option, none, some}
pub use mathlib.Core.List.{List, [], ◌∷◌, ◌++◌, map, append-nil, append_assoc}
pub use native.Mathlib.Omega.{arith}
