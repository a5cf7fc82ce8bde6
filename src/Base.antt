-- ===== src/Base.antt =====
-- The names that the modules share: the libraries', passed on, and those of the children
-- (machine words, arrays, C integers, faults, binary digits).
mod Tests
mod Word
mod Array
mod Int
mod Fault
mod Bits
mod Digits
pub use Tests.*
pub use Word.*
unfoldable pub use Array.*
pub use Int.*
pub use Fault.*
pub use Bits.*
unfoldable pub use Digits.*
pub use Prim.Native.Nat.{ℕ, zero, suc, ◌+◌, ◌-◌, ◌*◌, ◌/◌, ◌%◌, ◌^◌, ◌≤◌, ◌<◌, min, bit_and, bit_or}
pub use mathlib.Core.Path.{◌≡◌, refl, sym, ap, ap₂, subst, ◌∙◌}
pub use mathlib.Core.Logic.{◌≢◌, ◌↔◌, ◌⊎◌, inl, inr}
pub use mathlib.Core.Bool.{Bool, true, false, not, ◌&&◌, ◌||◌}
pub use mathlib.Core.Option.{Option, none, some}
pub use mathlib.Core.List.{List, [], ◌∷◌, ◌++◌, map, append-nil, append_assoc}
pub use native.Mathlib.Omega.{arith}
