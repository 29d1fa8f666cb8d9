-- ===== src/Validate/Pointer.antt =====
-- `elementPointer` of engine/internal/common.go.
use mathlib.Core.List.{reverse}
use go_bpmn.Shared.{ℕ, zero, suc, String, none, some, List, [], ◌∷◌, ◌++◌, str_append, length}
use go_bpmn.Model.Element.{Objects}

-- The IDs from an element to its root; the walk ends with its fuel, or at an element with no parent.
abbrev pub parent_ids : Objects → ℕ → ℕ → List String
parent_ids o zero b = []
parent_ids o (suc fuel) b =
    let more = λ (p : ℕ). parent_ids o fuel p in
    (o.element b).id ∷ elim (o.element b).parent [ none ↦ [] | some p ↦ more p ]

abbrev pub join : String → List String → String
join separator [] = ""
join separator (s ∷ []) = s
join separator (s ∷ t ∷ ts) = str_append s (str_append separator (join separator (t ∷ ts)))

-- There are at most as many elements above an element, and the element itself, as there are elements.
unfoldable pub element_pointer : Objects → ℕ → String
element_pointer o b = join "/" (reverse (parent_ids o (length o.elements) b ++ "" ∷ []))
