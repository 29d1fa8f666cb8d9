-- ===== src/Store/Partitions/Found.antt =====
-- What is selected after an operation on a table.
use go_bpmn.Shared.{
  ℕ, ◌+◌, ◌≡◌, refl, subst, ◌∙◌, ◌⊎◌, true, false, some, List, [], ◌∷◌, ◌++◌, length, inl, inr,
  Bool-cases, ◌==◌, ==_iff, if◌then◌else◌, some-injective,
}
use go_bpmn.Store.Locking.{Table}
use go_bpmn.Store.Rows.{find_row, find_row-append, find_row-replace_row}
use go_bpmn.Store.Partitions.{
  rows_at, put_rows, insert_row, select_row, update_row, rows_at-put_rows,
}
use go_bpmn.Store.Partitions.Kept.{KeptRows, Kept}

module _ {A : Type 0} (id_of : A → ℕ) where
  -- A row that is there is still there after an insertion.
  pub select_row-insert_row :
      (set_id : ℕ → A → A) (key : ℕ) (new : A) (k id : ℕ) (t : Table A) {x : A}
      → select_row id_of k id t ≡ some x
      → select_row id_of k id (insert_row set_id key new t).0 ≡ some x
  unfolding select_row insert_row
  select_row-insert_row set_id key new k id t e = elim (Bool-cases (key == k)) [
    | inl hit ↦
        let same = (==_iff key k).0 hit in
        rw
          (
            rows_at-put_rows k key (rows_at key t ++ set_id (length (rows_at key t) + 1) new ∷ [])
                t,
            hit,
            same,
          )
          (find_row-append id_of id (rows_at k t) (set_id (length (rows_at k t) + 1) new) e)
    | inr miss ↦
        rw
          (
            rows_at-put_rows k key (rows_at key t ++ set_id (length (rows_at key t) + 1) new ∷ [])
                t,
            miss,
          )
          e
  ]

  -- An update changes the row with the ID alone.
  pub select_row-update_row :
      (key k id : ℕ) (y : A) (t u : Table A) {z : A}
      → select_row id_of key (id_of y) t ≡ some z
      → update_row id_of key y t ≡ some u
      → select_row id_of k id u ≡ (
          if key == k
          then (if id_of y == id then some y else select_row id_of k id t)
          else select_row id_of k id t)
  unfolding select_row update_row
  select_row-update_row key k id y t u h e =
      let (rows, replaced, found) = find_row-replace_row id_of y (rows_at key t) h in
      subst
        (λ w. find_row id_of id (rows_at k w) ≡ (
          if key == k
          then (if id_of y == id then some y else find_row id_of id (rows_at k t))
          else find_row id_of id (rows_at k t)))
        (some-injective (rw (update_row, replaced) at e))
        (rw (rows_at-put_rows k key rows t) (by_key rows (Bool-cases (key == k)) found))
    where
      by_key :
          (rows : List A)
          → (key == k ≡ true) ⊎ (key == k ≡ false)
          → ((i : ℕ)
              → find_row id_of i rows
                ≡ (if id_of y == i then some y else find_row id_of i (rows_at key t)))
          → find_row id_of id (if key == k then rows else rows_at k t) ≡ (
              if key == k
              then (if id_of y == id then some y else find_row id_of id (rows_at k t))
              else find_row id_of id (rows_at k t))
      by_key rows (inl hit) found = rw hit (found id ∙ rw ((==_iff key k).0 hit) refl)
      by_key rows (inr miss) found = rw miss refl

  -- A row that is there can be updated.
  pub update_row-exists :
      (key : ℕ) (y : A) (t : Table A) {z : A}
      → select_row id_of key (id_of y) t ≡ some z
      → (u : Table A) × (update_row id_of key y t ≡ some u)
  unfolding select_row update_row
  update_row-exists key y t h =
      let (rows, replaced, found) = find_row-replace_row id_of y (rows_at key t) h in
      (put_rows key rows t, rw (update_row, replaced) refl)

  module _ (R : A → A → Type 0) (keeps : (x y : A) → R x y → id_of y ≡ id_of x) where
    find_row-KeptRows :
        (id : ℕ) (xs ys : List A) {x : A}
        → KeptRows R xs ys
        → find_row id_of id xs ≡ some x
        → (y : A) × (find_row id_of id ys ≡ some y) × R x y
    unfolding find_row
    find_row-KeptRows id [] [] k e = absurd (cc e)
    find_row-KeptRows id [] (y ∷ ys) k e = absurd k
    find_row-KeptRows id (x ∷ xs) [] k e = absurd k
    find_row-KeptRows id (x ∷ xs) (y ∷ ys) k e = elim (Bool-cases (id_of x == id)) [
      | inl hit ↦
          (y, rw (keeps x y k.0, hit) refl, subst (λ z. R z y) (some-injective (rw hit at e)) k.0)
      | inr miss ↦
          let (z, found, r) = find_row-KeptRows id xs ys k.1 (rw miss at e) in
          (z, rw (keeps x y k.0, miss) found, r)
    ]

    pub select_row-Kept :
        (key id : ℕ) (t u : Table A) {x : A}
        → Kept R t u
        → select_row id_of key id t ≡ some x
        → (y : A) × (select_row id_of key id u ≡ some y) × R x y
    unfolding select_row rows_at find_row
    select_row-Kept key id [] [] k e = absurd (cc e)
    select_row-Kept key id [] (y ∷ u) k e = absurd k
    select_row-Kept key id (x ∷ t) [] k e = absurd k
    select_row-Kept key id ((i, xs) ∷ t) ((j, ys) ∷ u) k e = elim (Bool-cases (i == key)) [
      | inl hit ↦
          let (z, found, r) = find_row-KeptRows id xs ys k.1 (rw hit at e) in
          (z, rw (← k.0, hit) found, r)
      | inr miss ↦
          let (z, found, r) = select_row-Kept key id t u k.2 (rw miss at e) in
          (z, rw (← k.0, miss) found, r)
    ]
