-- ===== src/Prelude.antt =====
-- The names that every other module shares: those of the libraries, passed on, and the children's.
mod Tests
mod Lists
mod Int
mod Keys
mod Maps
mod Decimal
pub mod Outcome
pub mod Act
pub use Tests.*
pub use Lists.*
unfoldable pub use Int.*
pub use Keys.*
unfoldable pub use Maps.*
unfoldable pub use Decimal.{format_uint, parse_uint}
pub use Decimal.{format_uint_injective, format_uint_ne_nil, parse_uint-format_uint}
pub use Outcome.{
  Error, not_found, decoding, unauthorized, invalid_request, unknown_key, logic, invalid_signer,
  invalid_argument, invalid, plain, panic, Result, ok, err, require, or_fail, fetch, fetch_opt,
  fail_as,
}
pub use Prim.Native.Nat.{ℕ, zero, suc, ◌+◌, ◌-◌, ◌*◌, ◌/◌, ◌%◌, ◌^◌, ◌≤◌, ◌<◌}
pub use Prim.Native.String.{String}
pub use mathlib.Core.Path.{◌≡◌, refl, sym, ap, ◌∙◌}
pub use mathlib.Core.Logic.{◌≢◌, ◌↔◌, ◌⊎◌, inl, inr}
pub use mathlib.Core.Bool.{Bool, true, false, not, ◌&&◌, ◌||◌}
pub use mathlib.Core.Option.{Option, none, some}
pub use mathlib.Core.List.{List, [], ◌∷◌, ◌++◌, map}
pub use native.Mathlib.Omega.{arith}
