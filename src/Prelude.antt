-- ===== src/Prelude.antt =====
-- The names that the other modules share: the libraries', passed on, and those of the children:
-- tests on numbers, byte strings, Go's maps and the errors of the program.
mod Tests
mod Lists
pub mod ByteStrings
pub mod Bits
pub mod Maps
pub mod Errors
pub use Tests.*
pub use Lists.*
pub use ByteStrings.{Bytes, Slice, bytes_of, copy, copy_at, slice_from, has_prefix, bytes_ltb}
pub use Maps.{Dict, Eq, ◌==◌, Bytes_eq, ℕ_eq}
unfoldable pub use Maps.{lookup, insert, delete}
pub use Errors.{Error, Result, ok, err, panics, ◌>>=◌, ◌>>◌, >>=-eq-ok, ok-injective}
pub use Prim.Native.Nat.{ℕ, zero, suc, ◌+◌, ◌-◌, ◌*◌, ◌/◌, ◌%◌, ◌^◌, ◌≤◌, ◌<◌, min}
pub use mathlib.Core.Path.{◌≡◌, refl, sym, ap, ap₂, subst, ◌∙◌}
pub use mathlib.Core.Logic.{◌≢◌, ◌↔◌, ◌⊎◌, inl, inr}
pub use mathlib.Core.Bool.{Bool, true, false, not, ◌&&◌, ◌||◌}
pub use mathlib.Core.Option.{Option, none, some}
pub use mathlib.Core.List.{List, [], ◌∷◌, ◌++◌, map, append-nil, append_assoc}
pub use native.Mathlib.Omega.{arith}
