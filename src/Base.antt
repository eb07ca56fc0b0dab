-- ===== src/Base.antt =====
-- The names that the modules share: the libraries', passed on, and those of the children:
-- Boolean tests, lists indexed by native numbers, bytes and their bit operations, and the
-- outcomes of Go code that may fail or stop with a run-time panic.
mod Tests
mod Lists
mod Bits
mod Bytes
mod Results
mod Text
mod Hex
mod Split
pub use Tests.*
pub use Lists.*
pub use Bits.*
unfoldable pub use Bytes.*
unfoldable pub use Results.*
unfoldable pub use Text.*
unfoldable pub use Hex.*
unfoldable pub use Split.*
pub use Prim.Native.Nat.{ℕ, zero, suc, ◌+◌, ◌-◌, ◌*◌, ◌/◌, ◌%◌, ◌^◌, ◌≤◌, ◌<◌}
pub use Prim.Native.Nat.{bit_and, bit_or, bit_xor}
pub use mathlib.Core.Path.{◌≡◌, refl, sym, ap, ◌∙◌}
pub use mathlib.Core.Logic.{◌≢◌, ◌↔◌, ◌⊎◌, inl, inr}
pub use mathlib.Core.Bool.{Bool, true, false, not, ◌&&◌, ◌||◌}
pub use mathlib.Core.Option.{Option, none, some}
pub use mathlib.Core.List.{List, [], ◌∷◌, ◌++◌, map}
pub use native.Mathlib.Omega.{arith}
unfoldable pub use native.Mathlib.Decide.{dec_lt, ℕ_discrete}
