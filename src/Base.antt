-- ===== src/Base.antt =====
-- What the modules of the model share: the libraries' names, passed on, and the helpers of the
-- children. Text (Rust's `String`, `&str`, `&[u8]`) is the list of its UTF-8 bytes.
mod Tests
mod Bytes
mod Maps
mod Results
pub mod Lists
pub mod Decimal
unfoldable pub use Tests.*
unfoldable pub use Bytes.*
unfoldable pub use Maps.*
pub use Results.*
pub use Prim.Native.Nat.{ℕ, zero, suc, ◌+◌, ◌-◌, ◌*◌, ◌/◌, ◌%◌, ◌^◌, ◌≤◌, ◌<◌, compare, Ordering}
pub use Prim.Native.String.{String}
pub use mathlib.Core.Path.{◌≡◌, refl, sym, ap, ◌∙◌, subst}
pub use mathlib.Core.Logic.{◌≢◌, ◌↔◌, ◌⊎◌, inl, inr}
pub use mathlib.Core.Bool.{Bool, true, false, not, ◌&&◌, ◌||◌}
pub use mathlib.Core.Option.{Option, none, some}
pub use mathlib.Core.List.{List, [], ◌∷◌, ◌++◌, map}
pub use native.Mathlib.Omega.{arith}
