-- ===== src/Shared/Outcome.antt =====
-- The outcomes of fallible code: a value, an error with its text, or a panic: a read through a nil
-- pointer, or a type assertion that fails.
use Prim.Native.String.{String}
use mathlib.Core.Option.{Option, none, some}
use mathlib.Core.Path.{◌≡◌, refl}
use mathlib.Core.Logic.{◌⊎◌, inl, inr}
use mathlib.Core.List.{List, [], ◌∷◌}

pub data Failure : Type 0 where
  error : String → Failure
  nil_dereference type_assertion : Failure

-- `err` holds what went wrong, and ends every chain of steps.
pub data Result {κ} (V : Type κ) : Type κ where
  err : Failure → Result V
  ok : V → Result V

infixl 5 ◌>>=◌
abbrev pub ◌>>=◌ {κ μ} : {V : Type κ} {W : Type μ} → Result V → (V → Result W) → Result W
err failure >>= next = err failure
ok v >>= next = next v

-- The read through a pointer that may be nil.
abbrev pub deref {ℓ} : {A : Type ℓ} → Option A → Result A
deref none = err nil_dereference
deref (some a) = ok a

-- A chain that succeeds did so step by step.
pub >>=-eq-ok {κ μ} :
    {V : Type κ} {W : Type μ} (first : Result V) (next : V → Result W) {w : W}
    → (first >>= next) ≡ ok w
    → (v : V) × (first ≡ ok v) × (next v ≡ ok w)
>>=-eq-ok (err failure) next eq = cc
>>=-eq-ok (ok v) next eq = (v, refl, eq)

pub Result-cases {ℓ} :
    {A : Type ℓ} (r : Result A) → ((a : A) × (r ≡ ok a)) ⊎ ((e : Failure) × (r ≡ err e))
Result-cases (ok a) = inl (a, refl)
Result-cases (err e) = inr (e, refl)

-- The loop that collects a result for each entry, and ends at the first failure.
unfoldable pub traverse {ℓ κ} :
    {A : Type ℓ} {B : Type κ} → (A → Result B) → List A → Result (List B)
traverse f [] = ok []
traverse f (x ∷ xs) = do y ← f x; ys ← traverse f xs; ok (y ∷ ys)
