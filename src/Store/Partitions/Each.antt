-- ===== src/Store/Partitions/Each.antt =====
-- What holds of each row of a table, and what the operations keep of it.
use go_bpmn.Shared.{
  some-injective, ℕ, ◌≡◌, some, List, [], ◌∷◌, All, All-append, subst, inl, inr, Bool-cases,
  Option-cases, ltb, ◌==◌,
}
use go_bpmn.Store.Locking.{Table}
use go_bpmn.Store.Rows.{find_row, replace_row}
use go_bpmn.Store.Partitions.{rows_at, put_rows, insert_row, select_row, update_row}
use go_bpmn.Store.Partitions.Kept.{KeptRows, Kept}

module _ {A : Type 0} (P : A → Type 0) where
  abbrev pub Each : Table A → Type 0
  Each [] = Unit
  Each ((key, rows) ∷ others) = All P rows × Each others

  rows_at-All : (key : ℕ) (t : Table A) → Each t → All P (rows_at key t)
  unfolding rows_at
  rows_at-All key [] v = tt
  rows_at-All key ((k, rows) ∷ others) v = elim (Bool-cases (k == key)) [
    | inl hit ↦ rw hit v.0
    | inr miss ↦ rw miss (rows_at-All key others v.1)
  ]

  put_rows-Each :
      (key : ℕ) (rows : List A) (t : Table A) → All P rows → Each t → Each (put_rows key rows t)
  unfolding put_rows
  put_rows-Each key rows [] r v = (r, tt)
  put_rows-Each key rows ((k, xs) ∷ others) r v = elim (Bool-cases (ltb key k)) [
    | inl less ↦ rw less (r, v)
    | inr more ↦ elim (Bool-cases (k == key)) [
      | inl hit ↦ rw (more, hit) (r, v.1)
      | inr miss ↦ rw (more, miss) (v.0, put_rows-Each key rows others r v.1)
    ]
  ]

  pub insert_row-Each :
      (set_id : ℕ → A → A) (key : ℕ) (x : A) (t : Table A)
      → ((n : ℕ) → P (set_id n x))
      → Each t
      → Each (insert_row set_id key x t).0
  unfolding insert_row
  insert_row-Each set_id key x t new v =
      put_rows-Each key _ t
        (All-append P (rows_at key t) (_ ∷ []) (rows_at-All key t v) (new _, tt)) v

  module _ (id_of : A → ℕ) where
    find_row-All : (id : ℕ) (xs : List A) {x : A} → All P xs → find_row id_of id xs ≡ some x → P x
    unfolding find_row
    find_row-All id [] v e = absurd (cc e)
    find_row-All id (y ∷ xs) v e = elim (Bool-cases (id_of y == id)) [
      | inl hit ↦ subst P (some-injective (rw hit at e)) v.0
      | inr miss ↦ find_row-All id xs v.1 (rw miss at e)
    ]

    pub select_row-holds :
        (key id : ℕ) (t : Table A) {x : A} → Each t → select_row id_of key id t ≡ some x → P x
    unfolding select_row
    select_row-holds key id t v e = find_row-All id (rows_at key t) (rows_at-All key t v) e

    replace_row-All :
        (y : A) (xs ys : List A) → P y → All P xs → replace_row id_of y xs ≡ some ys → All P ys
    unfolding replace_row
    replace_row-All y [] ys p v e = absurd (cc e)
    replace_row-All y (x ∷ xs) ys p v e = elim (Bool-cases (id_of x == id_of y)) [
      | inl hit ↦ subst (All P) (some-injective (rw hit at e)) (p, v.1)
      | inr miss ↦ elim (Option-cases (replace_row id_of y xs)) [
        | inl missing ↦ absurd (cc (rw (miss, missing) at e))
        | inr (zs, found) ↦
            subst (All P) (some-injective (rw (miss, found) at e))
              (v.0, replace_row-All y xs zs p v.1 found)
      ]
    ]

    pub update_row-Each :
        (key : ℕ) (y : A) (t u : Table A)
        → P y
        → update_row id_of key y t ≡ some u
        → Each t
        → Each u
    unfolding update_row
    update_row-Each key y t u p e v = elim (Option-cases (replace_row id_of y (rows_at key t))) [
      | inl missing ↦ absurd (cc (rw (update_row, missing) at e))
      | inr (rows, found) ↦ subst Each (some-injective (rw (update_row, found) at e)) (
          put_rows-Each key rows t
            (replace_row-All y (rows_at key t) rows p (rows_at-All key t v) found) v)
    ]

  module _ (R : A → A → Type 0) (keeps : (x y : A) → R x y → P x → P y) where
    KeptRows-All : (xs ys : List A) → KeptRows R xs ys → All P xs → All P ys
    KeptRows-All [] [] k v = tt
    KeptRows-All [] (y ∷ ys) k v = absurd k
    KeptRows-All (x ∷ xs) [] k v = absurd k
    KeptRows-All (x ∷ xs) (y ∷ ys) k v = (keeps x y k.0 v.0, KeptRows-All xs ys k.1 v.1)

    pub Kept-Each : (t u : Table A) → Kept R t u → Each t → Each u
    Kept-Each [] [] k v = tt
    Kept-Each [] (y ∷ u) k v = absurd k
    Kept-Each (x ∷ t) [] k v = absurd k
    Kept-Each ((key, xs) ∷ t) ((key', ys) ∷ u) k v =
        (KeptRows-All xs ys k.1 v.0, Kept-Each t u k.2 v.1)
