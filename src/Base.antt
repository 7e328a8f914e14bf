-- ===== src/Base.antt =====
-- What the other modules share: the libraries' names passed on, Boolean tests, results, lists,
-- byte strings, signed integers and finite maps.
mod Tests
mod Results
mod Lists
mod Strings
pub mod Int
pub mod Dict
pub use Tests.*
pub use Results.*
pub use Lists.*
unfoldable pub use Strings.{
  Bytes, bytes_eq, has_prefix, has_suffix, trim_prefix, trim_suffix, contains_bytes, contains_byte,
}
pub use Strings.{
  text, bytes_eq_iff, bytes_eq_refl, bytes_eq_ne, has_prefix-append, has_prefix_inv,
  trim_suffix-append,
}
pub use Prim.Native.Nat.{ℕ, zero, suc, ◌+◌, ◌-◌, ◌*◌, ◌/◌, ◌%◌, ◌^◌, ◌≤◌, ◌<◌, min, max}
pub use mathlib.Core.Path.{◌≡◌, refl, sym, ap, subst, ◌∙◌}
pub use mathlib.Core.Logic.{◌≢◌, ◌↔◌, ◌⊎◌, inl, inr}
pub use mathlib.Core.Bool.{Bool, true, false, not, ◌&&◌, ◌||◌}
pub use mathlib.Core.Option.{Option, none, some}
pub use mathlib.Core.List.{List, [], ◌∷◌, ◌++◌, map}
pub use native.Mathlib.Omega.{arith}
