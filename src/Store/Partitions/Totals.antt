-- ===== src/Store/Partitions/Totals.antt =====
-- How the number of rows that pass a test changes as rows are inserted and updated.
use go_bpmn.Shared.{
  some-injective, ℕ, suc, ◌+◌, ◌≡◌, refl, Bool, true, false, some, List, [], ◌∷◌, ◌++◌, length,
  count_if, count_if-append, inl, inr, Bool-cases, Option-cases, ltb, ◌==◌, arith, subst,
}
use go_bpmn.Store.Locking.{Table}
use go_bpmn.Store.Locking.Held.{total}
use go_bpmn.Store.Rows.{find_row, replace_row}
use go_bpmn.Store.Partitions.{rows_at, put_rows, insert_row, select_row, update_row}
use go_bpmn.Store.Partitions.Numbered.{IsTable, IsTableFrom}

module _ {A : Type 0} (partition_of id_of : A → ℕ) (f : A → Bool) where
  abbrev IsFrom : ℕ → Table A → Type 0
  IsFrom = IsTableFrom partition_of id_of

  rows_below : (lo key : ℕ) (t : Table A) → IsFrom lo t → ltb key lo ≡ true → rows_at key t ≡ []
  unfolding rows_at
  rows_below lo key [] v h = refl
  rows_below lo key ((k, rows) ∷ others) v h =
      ground (arith, h, v.0, rows_below (suc k) key others v.2)

  total-put_rows :
      (lo key : ℕ) (rows : List A) (t : Table A)
      → IsFrom lo t
      → total f (put_rows key rows t) + count_if f (rows_at key t) ≡ total f t + count_if f rows
  unfolding put_rows rows_at
  total-put_rows lo key rows [] v = omega arith
  total-put_rows lo key rows ((k, xs) ∷ others) v = elim (Bool-cases (ltb key k)) [
    | inl less ↦
        let other : (k == key) ≡ false = ground (arith, less) in
        let empty = rows_below (suc k) key others v.2 (ground (arith, less)) in
        rw (less, other, empty) (omega arith)
    | inr more ↦ elim (Bool-cases (k == key)) [
      | inl hit ↦ rw (more, hit) (omega arith)
      | inr miss ↦ rw (more, miss) (omega (arith, total-put_rows (suc k) key rows others v.2))
    ]
  ]

  pub total-insert_row :
      (set_id : ℕ → A → A) (key : ℕ) (x : A) (t : Table A)
      → IsTable partition_of id_of t
      → total f (insert_row set_id key x t).0
        ≡ total f t + count_if f ((insert_row set_id key x t).1 ∷ [])
  unfolding insert_row
  total-insert_row set_id key x t v =
      let rows = rows_at key t in
      let y = set_id (length rows + 1) x in
      omega (arith, total-put_rows 0 key (rows ++ y ∷ []) t v, count_if-append f rows (y ∷ []))

  count_if-replace_row :
      (x y : A) (xs ys : List A)
      → find_row id_of (id_of y) xs ≡ some x
      → f x ≡ f y
      → replace_row id_of y xs ≡ some ys
      → count_if f ys ≡ count_if f xs
  unfolding find_row replace_row
  count_if-replace_row x y [] ys h g e = absurd (cc h)
  count_if-replace_row x y (z ∷ xs) ys h g e = elim (Bool-cases (id_of z == id_of y)) [
    | inl hit ↦
        let same = some-injective (rw hit at h) in
        subst (λ zs. count_if f zs ≡ count_if f (z ∷ xs)) (some-injective (rw hit at e))
          (rw (same, g) refl)
    | inr miss ↦ elim (Option-cases (replace_row id_of y xs)) [
      | inl missing ↦ absurd (cc (rw (miss, missing) at e))
      | inr (zs, found) ↦
          subst (λ ws. count_if f ws ≡ count_if f (z ∷ xs)) (some-injective (rw (miss, found) at e))
            (rw (count_if-replace_row x y xs zs (rw miss at h) g found) refl)
    ]
  ]

  pub total-update_row :
      (x y : A) (key : ℕ) (t u : Table A)
      → IsTable partition_of id_of t
      → select_row id_of key (id_of y) t ≡ some x
      → f x ≡ f y
      → update_row id_of key y t ≡ some u
      → total f u ≡ total f t
  unfolding update_row select_row
  total-update_row x y key t u v h g e = elim (Option-cases (replace_row id_of y (rows_at key t))) [
    | inl missing ↦ absurd (cc (rw (update_row, missing) at e))
    | inr (rows, found) ↦
        subst (λ w. total f w ≡ total f t) (some-injective (rw (update_row, found) at e))
          (omega (
            arith,
            total-put_rows 0 key rows t v,
            count_if-replace_row x y (rows_at key t) rows h g found,
          ))
  ]
