-- ===== src/Shared/Texts.antt =====
-- Lists of texts.
use Prim.Native.String.{String}
use mathlib.Core.Bool.{Bool, false, ◌||◌}
use mathlib.Core.List.{List, [], ◌∷◌}
use text.Mathlib.Text.{◌==◌ as str_eq}

-- `slices.Contains`.
unfoldable pub has_text : List String → String → Bool
has_text [] s = false
has_text (x ∷ xs) s = let rest = has_text xs s in str_eq x s || rest
