-- ===== src/Prelude.antt =====
-- The names that the other modules share: the libraries', passed on, and those of the children.
pub mod Tests
pub mod Lists
pub mod Int
pub mod Maps
pub mod Sort
pub mod Results
pub mod Strings
pub use Tests.{
  ltb, leb, eqb, if◌then◌else◌, ltb→lt, lt→ltb, leb→le, le→leb, tests, Bool-cases, Option-cases,
  is_some, ◌<>◌,
}
pub use Lists.{length, length-append, length-map, All, All-append, All-mono, last_or, any}
pub use Int.{ℤ, pos, negsuc, pos_part, neg_part, neg, eqb_ℤ, ltb_ℤ, leb_ℤ, ◌≤ℤ◌, ◌*ℤ◌, sub_ℕ}
pub use Results.{Result, ok, err, Result-cases}
unfoldable pub use Strings.{split, split_from}
pub use Maps.{Assoc, lookup-insert, lookup-insert_self, lookup-insert_ne, Unique, insert-Unique}
unfoldable pub use Lists.{flat_fold}
unfoldable pub use Int.{wrap64}
unfoldable pub use Maps.{lookup, insert}
pub use Prim.Native.Nat.{ℕ, zero, suc, ◌+◌, ◌-◌, ◌*◌, ◌/◌, ◌%◌, ◌^◌, ◌≤◌, ◌<◌, min, max}
pub use Prim.Native.String.{String}
pub use mathlib.Core.Path.{◌≡◌, refl, sym, ap, ◌∙◌, subst}
pub use mathlib.Core.Logic.{◌≢◌, ◌↔◌, ◌⊎◌, inl, inr}
pub use mathlib.Core.Bool.{Bool, true, false, not, ◌&&◌, ◌||◌}
pub use mathlib.Core.Option.{Option, none, some}
pub use mathlib.Core.List.{List, [], ◌∷◌, ◌++◌, map, foldl}
pub use native.Mathlib.Omega.{arith}
pub use text.Mathlib.Text.{◌==◌}
pub use text.Mathlib.TextEquality.{eq_iff}
pub use text.Mathlib.TextPositions.{eq_refl}
