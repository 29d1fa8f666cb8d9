-- ===== src/Store/Rows.antt =====
-- The loops over the rows of a partition that the repositories of engine/mem share.
use go_bpmn.Shared.{
  ℕ, ◌≡◌, refl, Option, none, some, List, [], ◌∷◌, ◌++◌, arith, ◌==◌, ==_iff, if◌then◌else◌,
  Bool-cases, inl, inr,
}

-- A missing partition has no rows.
abbrev pub Partitions : Type 0 → Type 0
Partitions A = ℕ → List A

abbrev pub set_rows : {A : Type 0} → ℕ → List A → Partitions A → Partitions A
set_rows key rows t k = if k == key then rows else t k

module _ {A : Type 0} (id_of : A → ℕ) where
  unfoldable pub find_row : ℕ → List A → Option A
  find_row id [] = none
  find_row id (x ∷ xs) = if id_of x == id then some x else find_row id xs

  -- Nothing is returned if no row has the ID.
  unfoldable pub replace_row : A → List A → Option (List A)
  replace_row y [] = none
  replace_row y (x ∷ xs) =
      let rest = replace_row y xs in
      if id_of x == id_of y
      then some (y ∷ xs)
      else elim rest [ none ↦ none | some ys ↦ some (x ∷ ys) ]

  pub find_row-id : (id : ℕ) (xs : List A) {x : A} → find_row id xs ≡ some x → id_of x ≡ id
  unfolding find_row
  find_row-id id [] h = cc
  find_row-id id (y ∷ xs) {x = x} h = ground (arith, find_row-id id xs {x = x})

  -- What is found after a row was replaced.
  pub find_row-replace_row :
      (y : A) (xs : List A) {x : A}
      → find_row (id_of y) xs ≡ some x
      → (ys : List A) × (replace_row y xs ≡ some ys)
        × ((id : ℕ) → find_row id ys ≡ (if id_of y == id then some y else find_row id xs))
  unfolding find_row replace_row
  find_row-replace_row y [] h = absurd (cc h)
  find_row-replace_row y (x ∷ xs) h = elim (Bool-cases (id_of x == id_of y)) [
    | inl hit ↦ rw hit (y ∷ xs, refl, λ id. ground (arith, (==_iff (id_of x) (id_of y)).0 hit))
    | inr miss ↦
        let (ys, eq, found) = find_row-replace_row y xs (rw miss at h) in
        rw (miss, eq) (x ∷ ys, refl, λ id. ground (arith, found id))
  ]

  pub find_row-append :
      (id : ℕ) (xs : List A) (y : A) {x : A}
      → find_row id xs ≡ some x
      → find_row id (xs ++ y ∷ []) ≡ some x
  unfolding find_row
  find_row-append id [] y h = cc
  find_row-append id (z ∷ xs) y {x = x} h = ground (arith, find_row-append id xs y {x = x})

  pub find_row-append_new :
      (xs : List A) (y : A)
      → find_row (id_of y) xs ≡ none
      → find_row (id_of y) (xs ++ y ∷ []) ≡ some y
  unfolding find_row
  find_row-append_new [] y h = ground arith
  find_row-append_new (x ∷ xs) y h = ground (arith, find_row-append_new xs y)
