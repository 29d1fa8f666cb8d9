-- ===== src/Store/Partitions/Kept.antt =====
-- Tables that agree row by row: what locking, unlocking and updating keep.
use go_bpmn.Shared.{
  ℕ, suc, ◌+◌, ◌≡◌, refl, Bool, true, List, [], ◌∷◌, ℤ, length, inl, inr, Bool-cases,
}
use go_bpmn.Store.Locking.{
  Table, is_skipped, is_reached, lock_rows, lock_table, unlock_rows, unlock_table,
}

module _ {A : Type 0} (R : A → A → Type 0) where
  -- Each row is related to the row in its place.
  abbrev pub KeptRows : List A → List A → Type 0
  KeptRows [] [] = Unit
  KeptRows (x ∷ xs) (y ∷ ys) = R x y × KeptRows xs ys
  KeptRows [] (y ∷ ys) = ⊥
  KeptRows (x ∷ xs) [] = ⊥

  abbrev pub Kept : Table A → Table A → Type 0
  Kept [] [] = Unit
  Kept ((k, xs) ∷ t) ((l, ys) ∷ u) = (k ≡ l) × KeptRows xs ys × Kept t u
  Kept [] (y ∷ u) = ⊥
  Kept (x ∷ t) [] = ⊥

  module _ (same : (x : A) → R x x) where
    pub KeptRows-refl : (xs : List A) → KeptRows xs xs
    KeptRows-refl [] = tt
    KeptRows-refl (x ∷ xs) = (same x, KeptRows-refl xs)

    module _ (is_free : A → Bool) (mark : A → A)
        (marks : (x : A) → is_free x ≡ true → R x (mark x)) where
      lock_rows-KeptRows :
          (limit : ℤ) (taken : ℕ) (xs : List A)
          → KeptRows xs (lock_rows is_free mark limit taken xs).0
      unfolding lock_rows
      lock_rows-KeptRows limit taken [] = tt
      lock_rows-KeptRows limit taken (x ∷ xs) = elim (Bool-cases (is_reached limit taken)) [
        | inl full ↦ rw full (same x, KeptRows-refl xs)
        | inr room ↦ elim (Bool-cases (is_free x)) [
          | inl free ↦ rw (room, free) (marks x free, lock_rows-KeptRows limit (suc taken) xs)
          | inr other ↦ rw (room, other) (same x, lock_rows-KeptRows limit taken xs)
        ]
      ]

      pub lock_table-Kept :
          (partition : ℕ) (limit : ℤ) (taken : ℕ) (t : Table A)
          → Kept t (lock_table is_free mark partition limit taken t).0
      unfolding lock_table
      lock_table-Kept partition limit taken [] = tt
      lock_table-Kept partition limit taken ((key, rows) ∷ others) =
          elim (Bool-cases (is_skipped partition key)) [
            | inl skip ↦
                rw skip (refl, KeptRows-refl rows, lock_table-Kept partition limit taken others)
            | inr here ↦ rw here (
              refl,
              lock_rows-KeptRows limit taken rows,
              lock_table-Kept partition limit
                  (taken + length (lock_rows is_free mark limit taken rows).1) others,
            )
          ]

      unlock_rows-KeptRows : (xs : List A) → KeptRows xs (unlock_rows is_free mark xs).0
      unfolding unlock_rows
      unlock_rows-KeptRows [] = tt
      unlock_rows-KeptRows (x ∷ xs) = elim (Bool-cases (is_free x)) [
        | inl free ↦ rw free (marks x free, unlock_rows-KeptRows xs)
        | inr other ↦ rw other (same x, unlock_rows-KeptRows xs)
      ]

      pub unlock_table-Kept :
          (partition : ℕ) (t : Table A) → Kept t (unlock_table is_free mark partition t).0
      unfolding unlock_table
      unlock_table-Kept partition [] = tt
      unlock_table-Kept partition ((key, rows) ∷ others) =
          elim (Bool-cases (is_skipped partition key)) [
            | inl skip ↦ rw skip (refl, KeptRows-refl rows, unlock_table-Kept partition others)
            | inr here ↦
                rw here (refl, unlock_rows-KeptRows rows, unlock_table-Kept partition others)
          ]
