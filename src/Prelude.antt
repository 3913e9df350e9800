-- ===== src/Prelude.antt =====
-- The names that every other module shares: those of the libraries, passed on, Boolean tests
-- and the conditional (Tests), lists measured by native numbers (Lists, Last), Go maps with string
-- keys (Maps), Go sets of numbers (Sets), signed integers (Int) and numbers as text (Digits).
mod Tests
mod Lists
mod Last
pub mod Maps
pub mod Sets
pub mod Int
pub mod Digits
unfoldable pub use Tests.*
pub use Lists.*
pub use Last.*
pub use Prim.Native.Nat.{ℕ, zero, suc, ◌+◌, ◌-◌, ◌*◌, ◌/◌, ◌%◌, ◌^◌, ◌≤◌, ◌<◌}
pub use Prim.Native.String.{String}
pub use text.Mathlib.TextEquality.{eq_iff}
unfoldable pub use text.Mathlib.Text.{◌==◌ as str_eq}
pub use mathlib.Core.Path.{◌≡◌, refl, sym, ap, ◌∙◌, fun_ext, subst}
pub use mathlib.Core.Logic.{◌≢◌, ◌↔◌, ◌⊎◌, inl, inr}
pub use mathlib.Core.Bool.{Bool, true, false, not, ◌&&◌, ◌||◌}
pub use mathlib.Core.Option.{Option, none, some}
pub use mathlib.Core.List.{List, [], ◌∷◌, ◌++◌, map}
pub use native.Mathlib.Omega.{arith}
