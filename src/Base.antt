-- ===== src/Base.antt =====
-- What the other modules share: library names passed on, Boolean tests, lists measured by native
-- numbers, 64-bit words, and the library's error values (include/carta-zarr/error.h, result.h).
mod Tests
mod Lists
mod Word
mod Failure
mod Assign
unfoldable pub use Tests.*
unfoldable pub use Lists.*
unfoldable pub use Word.*
unfoldable pub use Failure.*
unfoldable pub use Assign.*
pub use Prim.Native.Nat.{ℕ, zero, suc, ◌+◌, ◌-◌, ◌*◌, ◌/◌, ◌%◌, ◌^◌, ◌≤◌, ◌<◌, min, max}
pub use Prim.Native.String.{String}
pub use mathlib.Core.Path.{◌≡◌, refl, sym, ap, subst, ◌∙◌, ◌≡⟨◌⟩◌, ◌∎}
pub use mathlib.Core.Logic.{◌≢◌, ◌↔◌, ◌⊎◌, inl, inr}
pub use mathlib.Core.Bool.{Bool, true, false, not, ◌&&◌, ◌||◌}
pub use mathlib.Core.Option.{Option, none, some}
pub use mathlib.Core.List.{List, [], ◌∷◌, ◌++◌, map, append-nil, append_assoc}
pub use native.Mathlib.Omega.{arith}
unfoldable pub use native.Mathlib.Decide.{dec_lt, dec_le, ℕ_discrete}
