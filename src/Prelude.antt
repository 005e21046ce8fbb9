-- ===== src/Prelude.antt =====
-- Names, notation and lemmas that the modules of this library share: the libraries' names passed on,
-- Boolean tests and lists over the native numbers, bytes and shifts, and indexing that may panic.
mod Tests
mod Lists
mod Indexing
mod Words
mod Ascii
mod Maps
pub mod Options
pub use Tests.*
pub use Lists.*
unfoldable pub use Indexing.*
pub use Words.*
pub use Ascii.*
unfoldable pub use Maps.*
pub use Prim.Native.Nat.{ℕ, zero, suc, ◌+◌, ◌-◌, ◌*◌, ◌/◌, ◌%◌, ◌^◌, ◌≤◌, ◌<◌, min, max, bit_and}
pub use Prim.Native.String.{String}
pub use mathlib.Core.Path.{◌≡◌, refl, sym, ap, ◌∙◌, subst}
pub use mathlib.Core.Logic.{◌≢◌, ◌↔◌, ◌⊎◌, inl, inr}
pub use mathlib.Core.Bool.{Bool, true, false, not, ◌&&◌, ◌||◌}
pub use mathlib.Core.Option.{Option, none, some}
unfoldable pub use mathlib.Core.List.{flatten}
pub use mathlib.Core.List.{List, [], ◌∷◌, ◌++◌, map, append_assoc, append-nil}
pub use native.Mathlib.Omega.{arith}
pub use text.Mathlib.Text.{◌==◌ as str_eq}
pub use text.Mathlib.TextEquality.{eq_iff}
