-- ===== src/Shared.antt =====
-- The names that the other modules share: the libraries', passed on, and those of the children.
mod Tests
mod Texts
mod Lists
mod Int
mod Outcome
mod Switch
mod Dict
mod Itoa
mod Bag
mod Traverse
pub use Tests.*
unfoldable pub use Texts.{has_text}
pub use Lists.*
unfoldable pub use Int.{◌+ℤ◌, ◌-ℤ◌}
pub use Int.{
  ℤ, pos, negsuc, pos_part, neg_part, ◌≤ℤ◌, is_neg, is_pos, is_zero, +ℤ_parts, -ℤ_parts,
  eq_of_parts, int_laws, +ℤ-zero,
}
unfoldable pub use Outcome.{traverse}
pub use Bag.*
pub use Traverse.*
pub use Outcome.{
  Failure, error, nil_dereference, type_assertion, Result, ok, err, ◌>>=◌, deref, >>=-eq-ok,
  Result-cases,
}
pub use Switch.*
unfoldable pub use Dict.{lookup, insert}
pub use Dict.{lookup-insert}
unfoldable pub use Itoa.{itoa}
pub use Prim.Native.Nat.{ℕ, zero, suc, ◌+◌, ◌-◌, ◌*◌, ◌≤◌, ◌<◌}
pub use Prim.Native.String.{String}
pub use mathlib.Core.Path.{◌≡◌, refl, sym, ap, subst, ◌∙◌}
pub use mathlib.Core.Logic.{◌≢◌, ◌↔◌, ◌⊎◌, inl, inr}
pub use mathlib.Core.Bool.{Bool, true, false, not, ◌&&◌, ◌||◌}
pub use mathlib.Core.Option.{Option, none, some}
pub use mathlib.Core.List.{List, [], ◌∷◌, ◌++◌, map}
pub use Prim.Native.String.{◌++◌ as str_append}
pub use text.Mathlib.Text.{◌==◌ as str_eq}
pub use text.Mathlib.TextEquality.{eq_iff}
pub use native.Mathlib.Omega.{arith}
