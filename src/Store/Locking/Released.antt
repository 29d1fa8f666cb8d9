-- ===== src/Store/Locking/Released.antt =====
-- What `Unlock` does, against a description without loops: it changes each row that is held, and counts them.
use go_bpmn.Shared.{
  ℕ, suc, ◌≡◌, refl, ap, Bool, List, [], ◌∷◌, map, count_if, count_if-append, inl, inr, Bool-cases,
  if◌then◌else◌, arith,
}
use go_bpmn.Store.Locking.{Table, is_skipped, unlock_rows, unlock_table}
use go_bpmn.Store.Locking.Found.{rows_of}

module _ {A : Type 0} (is_held : A → Bool) (release : A → A) where
  abbrev pub released : A → A
  released x = if is_held x then release x else x

  -- The table with the held rows of the partitions released that are not passed over.
  abbrev pub released_table : ℕ → Table A → Table A
  released_table partition [] = []
  released_table partition ((key, rows) ∷ others) =
      (key, if is_skipped partition key then rows else map released rows)
      ∷ released_table partition others

  unlock_rows-Released :
      (xs : List A)
      → ((unlock_rows is_held release xs).0 ≡ map released xs)
        × ((unlock_rows is_held release xs).1 ≡ count_if is_held xs)
  unfolding unlock_rows
  unlock_rows-Released [] = (refl, refl)
  unlock_rows-Released (x ∷ xs) =
      let (rows, n) = unlock_rows-Released xs in
      elim (Bool-cases (is_held x)) [
        | inl held ↦ rw held (ap (λ ys. release x ∷ ys) rows, ap suc n)
        | inr free ↦ rw free (ap (λ ys. x ∷ ys) rows, n)
      ]

  pub unlock_table-Released :
      (partition : ℕ) (t : Table A)
      → ((unlock_table is_held release partition t).0 ≡ released_table partition t)
        × ((unlock_table is_held release partition t).1 ≡ count_if is_held (rows_of partition t))
  unfolding unlock_table
  unlock_table-Released partition [] = (refl, refl)
  unlock_table-Released partition ((key, rows) ∷ others) =
      let (us, m) = unlock_table-Released partition others in
      elim (Bool-cases (is_skipped partition key)) [
        | inl skip ↦ rw skip (ap (λ v. (key, rows) ∷ v) us, m)
        | inr here ↦
            let (rs, n) = unlock_rows-Released rows in
            rw here (
              rw (rs, us) refl,
              omega (arith, n, m, count_if-append is_held rows (rows_of partition others)),
            )
      ]
