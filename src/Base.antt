-- ===== src/Base.antt =====
-- The names that every other module shares: the libraries', passed on, and those of the children:
-- Boolean tests (Tests), lists indexed by native numbers (Lists), bit operations as arithmetic
-- (Bits), machine words and big-endian byte access (Bytes), and the outcome of I/O calls (Io).
mod Tests
mod Lists
mod Bits
mod Bytes
mod Io
mod Maps
pub use Tests.*
pub use Lists.*
pub use Bits.*
unfoldable pub use Bytes.*
pub use Io.*
pub use Maps.*
pub use Prim.Native.Nat.{ℕ, zero, suc, ◌+◌, ◌-◌, ◌*◌, ◌/◌, ◌%◌, ◌^◌, ◌≤◌, ◌<◌, min}
pub use Prim.Native.Nat.{bit_and, bit_or}
pub use mathlib.Core.Path.{◌≡◌, refl, sym, ap, ap₂, subst, ◌∙◌}
pub use mathlib.Core.Logic.{◌≢◌, ◌↔◌, ◌⊎◌, inl, inr}
pub use mathlib.Core.Bool.{Bool, true, false, not, ◌&&◌, ◌||◌}
pub use mathlib.Core.Option.{Option, none, some}
pub use mathlib.Core.List.{List, [], ◌∷◌, ◌++◌, append-nil, append_assoc}
pub use native.Mathlib.Omega.{arith}
unfoldable pub use native.Mathlib.Decide.{dec_lt, dec_le, ℕ_discrete}
