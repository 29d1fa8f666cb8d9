-- ===== src/Shared/Bag.antt =====
-- How often a number stands in a list.
use Prim.Native.Nat.{ℕ, suc, ◌+◌}
use mathlib.Core.Path.{◌≡◌}
use mathlib.Core.List.{List, [], ◌∷◌, ◌++◌}
use native.Mathlib.Omega.{arith}
use go_bpmn.Shared.Tests.{◌==◌, if◌then◌else◌}

abbrev pub count : ℕ → List ℕ → ℕ
count wanted [] = 0
count wanted (n ∷ ns) = let others = count wanted ns in if n == wanted then suc others else others

pub count-append :
    (wanted : ℕ) (ms ns : List ℕ) → count wanted (ms ++ ns) ≡ count wanted ms + count wanted ns
count-append wanted [] ns = omega arith
count-append wanted (m ∷ ms) ns = ground (count-append wanted ms ns, arith)
