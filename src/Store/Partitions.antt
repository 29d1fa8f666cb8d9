-- ===== src/Store/Partitions.antt =====
-- The operations `Insert`, `Select` and `Update` of the repositories of engine/mem whose rows are kept by
-- partition (engine/mem/job.go, engine/mem/task.go, engine/mem/incident.go).
pub mod Kept
pub mod Numbered
pub mod Each
pub mod Totals
pub mod Found
use go_bpmn.Shared.{
  ℕ, ◌+◌, ◌≡◌, refl, Option, none, some, List, [], ◌∷◌, ◌++◌, length, ltb, ◌==◌, if◌then◌else◌,
  arith,
}
use go_bpmn.Store.Rows.{find_row, replace_row}
use go_bpmn.Store.Locking.{Table}

module _ {A : Type 0} where
  -- `r.partitions[key]`: a missing partition has no rows.
  unfoldable pub rows_at : ℕ → Table A → List A
  rows_at key [] = []
  rows_at key ((k, rows) ∷ others) = if k == key then rows else rows_at key others

  -- `r.partitions[key] = rows`.
  unfoldable pub put_rows : ℕ → List A → Table A → Table A
  put_rows key rows [] = (key, rows) ∷ []
  put_rows key rows ((k, xs) ∷ others) =
      let rest = put_rows key rows others in
      if ltb key k
      then (key, rows) ∷ (k, xs) ∷ others
      else if k == key
      then (key, rows) ∷ others
      else (k, xs) ∷ rest

  -- The entity gets the number of its row as ID.
  unfoldable pub insert_row : (ℕ → A → A) → ℕ → A → Table A → Table A × A
  unfolding rows_at put_rows
  insert_row set_id key x t =
      let rows = rows_at key t in
      let y = set_id (length rows + 1) x in (put_rows key (rows ++ y ∷ []) t, y)

  unfoldable pub select_row : (A → ℕ) → ℕ → ℕ → Table A → Option A
  unfolding rows_at find_row
  select_row id_of key id t = find_row id_of id (rows_at key t)

  -- Nothing is returned if there is no row to update.
  unfoldable pub update_row : (A → ℕ) → ℕ → A → Table A → Option (Table A)
  unfolding rows_at put_rows replace_row
  update_row id_of key y t = elim (replace_row id_of y (rows_at key t)) [
    | none ↦ none
    | some rows ↦ some (put_rows key rows t)
  ]

  pub rows_at-put_rows :
      (k key : ℕ) (rows : List A) (t : Table A)
      → rows_at k (put_rows key rows t) ≡ (if key == k then rows else rows_at k t)
  unfolding rows_at put_rows
  rows_at-put_rows k key rows [] = refl
  rows_at-put_rows k key rows ((j, xs) ∷ others) =
      ground (arith, rows_at-put_rows k key rows others)
