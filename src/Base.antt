-- ===== src/Base.antt =====
-- The names that the other modules share: the libraries', passed on, and those of the children.
mod Tests
mod Lists
mod Maps
mod Voters
mod Quorums
pub mod Go
pub mod History
pub use Tests.*
pub use Lists.*
unfoldable pub use Maps.{lookup, insert, delete}
pub use Maps.{
  GoMap, values, keys, contains, Distinct, lookup-insert, contains-insert, insert-Distinct,
  lookup-contains, lookup_absent, count_if-insert_new, length-insert_new, length-insert_le,
  keys-insert_present,
}
pub use Voters.{
  voters, length-voters, All-voters, All-insert, voters-Distinct, exists_outside, without,
  without-Distinct, length-without-le, All-without, All-contains,
}
pub use Quorums.{contains-append, common_voter, length-le-Distinct}
pub use Prim.Native.Nat.{ℕ, zero, suc, ◌+◌, ◌-◌, ◌*◌, ◌/◌, ◌%◌, ◌^◌, ◌≤◌, ◌<◌}
pub use Prim.Native.String.{String}
pub use mathlib.Core.Path.{◌≡◌, refl, sym, ap, subst, ◌∙◌}
pub use mathlib.Core.Logic.{◌≢◌, ◌↔◌, ◌⊎◌, inl, inr}
pub use mathlib.Core.Bool.{Bool, true, false, not, ◌&&◌, ◌||◌}
pub use mathlib.Core.Option.{Option, none, some}
pub use mathlib.Core.List.{List, [], ◌∷◌, ◌++◌, map, append-nil, append_assoc}
pub use native.Mathlib.Omega.{arith}
