-- ===== src/Shared/Dict.antt =====
-- A Go map with string keys: its entries in the order in which their keys came.
use Prim.Native.String.{String}
use mathlib.Core.Path.{◌≡◌, refl}
use mathlib.Core.Option.{Option, none, some}
use mathlib.Core.List.{List, [], ◌∷◌}
use native.Mathlib.Omega.{arith}
use text.Mathlib.Text.{◌==◌ as str_eq}
use text.Mathlib.TextEquality.{eq_iff}
use go_bpmn.Shared.Tests.{if◌then◌else◌}

module _ {κ} {Value : Type κ} where
  unfoldable pub lookup : String → List (String × Value) → Option Value
  lookup key [] = none
  lookup key (entry ∷ entries) = if str_eq entry.0 key then some entry.1 else lookup key entries

  -- `m[key] = value`.
  unfoldable pub insert : String → Value → List (String × Value) → List (String × Value)
  insert key value [] = (key, value) ∷ []
  insert key value (entry ∷ entries) =
      let changed = insert key value entries in
      if str_eq entry.0 key then (key, value) ∷ entries else entry ∷ changed

  pub lookup-insert :
      (other key : String) (value : Value) (entries : List (String × Value))
      → lookup other (insert key value entries)
        ≡ (if str_eq key other then some value else lookup other entries)
  unfolding lookup insert
  lookup-insert other key value [] = refl
  lookup-insert other key value (entry ∷ entries) = ground (
    arith,
    lookup-insert other key value entries,
    eq_iff entry.0 other,
    eq_iff entry.0 key,
    eq_iff key other,
  )
