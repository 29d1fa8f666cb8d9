-- ===== src/Shared/Switch.antt =====
-- Laws of a `switch` over strings that maps the names of an enum back to its values.
use Prim.Native.String.{String}
use mathlib.Core.Path.{◌≡◌, ◌∙◌, sym}
use mathlib.Core.Logic.{◌⊎◌, inl, inr}
use text.Mathlib.Text.{◌==◌ as str_eq}
use text.Mathlib.TextEquality.{eq_iff}
use go_bpmn.Shared.Tests.{if◌then◌else◌, Bool-cases}

-- The value that a text is mapped to is the zero value, or prints as that text.
module _ {T : Type 0} (zero_value : T) (print : T → String) where
  abbrev pub Names : String → T → Type 0
  Names s v = (v ≡ zero_value) ⊎ (print v ≡ s)

  pub case-Names :
      (s key : String) (v rest : T)
      → print v ≡ key
      → Names s rest
      → Names s (if str_eq s key then v else rest)
  case-Names s key v rest p r = elim (Bool-cases (str_eq s key)) [
    | inl hit ↦ rw hit (inr (p ∙ sym ((eq_iff s key).0 hit)))
    | inr miss ↦ rw miss r
  ]
