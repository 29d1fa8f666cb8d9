-- ===== src/Shared/Traverse.antt =====
-- Laws of the loop `traverse`.
use mathlib.Core.Path.{◌≡◌, subst}
use mathlib.Core.Option.{some}
use mathlib.Core.List.{List, [], ◌∷◌}
use native.Mathlib.Omega.{arith}
use go_bpmn.Shared.Lists.{length, All}
use go_bpmn.Shared.Outcome.{Result, ok, traverse, >>=-eq-ok}

pub ok-injective {ℓ} : {A : Type ℓ} {x y : A} → ok x ≡ ok y → x ≡ y
ok-injective e = cc

pub some-injective {ℓ} : {A : Type ℓ} {x y : A} → some x ≡ some y → x ≡ y
some-injective e = cc

module _ {ℓ κ} {A : Type ℓ} {B : Type κ} (f : A → Result B) where
  pub length-traverse : (xs : List A) (ys : List B) → traverse f xs ≡ ok ys → length ys ≡ length xs
  unfolding traverse
  length-traverse [] ys h = ground arith
  length-traverse (x ∷ xs) ys h =
      let (y, hy, rest) = >>=-eq-ok (f x) _ h in
      let (zs, hz, done) = >>=-eq-ok (traverse f xs) _ rest in
      ground (arith, length-traverse xs zs hz)

  -- What holds of each result holds of all that are collected.
  pub All-traverse {μ} :
      (P : B → Type μ)
      → ((x : A) (y : B) → f x ≡ ok y → P y)
      → (xs : List A) (ys : List B) → traverse f xs ≡ ok ys
      → All P ys
  unfolding traverse
  All-traverse P h [] ys e = subst (All P) (ok-injective e) tt
  All-traverse P h (x ∷ xs) ys e =
      let (y, hy, rest) = >>=-eq-ok (f x) _ e in
      let (zs, hz, done) = >>=-eq-ok (traverse f xs) _ rest in
      subst (All P) (ok-injective done) (h x y hy, All-traverse P h xs zs hz)
