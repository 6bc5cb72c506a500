-- ===== src/Base.antt =====
-- What the modules share: the libraries' names, passed on, and the helpers of the children.
mod Tests
mod Lists
mod Equality
mod Assoc
mod Strings
mod Results
mod StringLaws
pub mod Bits
pub mod Words
pub mod Utf8
unfoldable pub use Tests.*
pub use Lists.*
pub use Equality.*
unfoldable pub use Assoc.*
unfoldable pub use Strings.*
pub use Results.*
pub use StringLaws.*
pub use Prim.Native.Nat.{ℕ, zero, suc, ◌+◌, ◌-◌, ◌*◌, ◌/◌, ◌%◌, ◌^◌, ◌≤◌, ◌<◌, min, max}
pub use Prim.Native.Nat.{bit_and, bit_or}
pub use Prim.Native.String.{String}
pub use mathlib.Core.Path.{◌≡◌, refl, sym, ap, ◌∙◌, subst, ◌≡⟨◌⟩◌, ◌∎}
pub use mathlib.Core.Logic.{◌≢◌, ◌↔◌, ◌⊎◌, inl, inr}
pub use mathlib.Core.Bool.{Bool, true, false, not, ◌&&◌, ◌||◌}
pub use mathlib.Core.Option.{Option, none, some}
pub use mathlib.Core.List.{List, [], ◌∷◌, ◌++◌, map, append-nil, append_assoc}
pub use native.Mathlib.Omega.{arith}
