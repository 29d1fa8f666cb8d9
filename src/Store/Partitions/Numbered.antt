-- ===== src/Store/Partitions/Numbered.antt =====
-- The shape of a table: its partitions stand in the order of their keys, each row knows its partition, and
-- the rows of a partition are numbered from 1 in the order in which they were inserted.
use go_bpmn.Shared.{
  ap, some-injective, ℕ, suc, ◌+◌, ◌≤◌, ◌≡◌, refl, subst, sym, ◌∙◌, Bool, true, ◌&&◌, none, some,
  List, [], ◌∷◌, ◌++◌, length, count_if, inl, inr, Bool-cases, Option-cases, leb, ltb, ◌==◌, ==_iff,
  if◌then◌else◌, arith,
}
use go_bpmn.Store.Locking.{Table}
use go_bpmn.Store.Locking.Held.{total}
use go_bpmn.Store.Rows.{find_row, find_row-id, find_row-append_new, replace_row}
use go_bpmn.Store.Partitions.{
  rows_at, put_rows, insert_row, select_row, update_row, rows_at-put_rows,
}
use go_bpmn.Store.Partitions.Kept.{KeptRows, Kept}

module _ {A : Type 0} (partition_of id_of : A → ℕ) where
  abbrev pub RowsOf : ℕ → ℕ → List A → Type 0
  RowsOf key n [] = Unit
  RowsOf key n (x ∷ xs) = (partition_of x ≡ key) × (id_of x ≡ n) × RowsOf key (suc n) xs

  -- With keys from `lo` on.
  abbrev pub IsTableFrom : ℕ → Table A → Type 0
  IsTableFrom lo [] = Unit
  IsTableFrom lo ((key, rows) ∷ others) =
      (lo ≤ key) × RowsOf key 1 rows × IsTableFrom (suc key) others

  abbrev pub IsTable : Table A → Type 0
  IsTable = IsTableFrom 0

  from_mono : (hi lo : ℕ) (t : Table A) → lo ≤ hi → IsTableFrom hi t → IsTableFrom lo t
  from_mono hi lo [] h v = tt
  from_mono hi lo ((key, rows) ∷ others) h v = (omega (arith, v.0), v.1, v.2)

  rows_at-RowsOf : (lo key : ℕ) (t : Table A) → IsTableFrom lo t → RowsOf key 1 (rows_at key t)
  unfolding rows_at
  rows_at-RowsOf lo key [] v = tt
  rows_at-RowsOf lo key ((k, rows) ∷ others) v = elim (Bool-cases (k == key)) [
    | inl hit ↦ rw hit (subst (λ j. RowsOf j 1 rows) ((==_iff k key).0 hit) v.1)
    | inr miss ↦ rw miss (rows_at-RowsOf (suc k) key others v.2)
  ]

  put_rows-IsTableFrom :
      (lo key : ℕ) (rows : List A) (t : Table A)
      → lo ≤ key
      → RowsOf key 1 rows
      → IsTableFrom lo t
      → IsTableFrom lo (put_rows key rows t)
  unfolding put_rows
  put_rows-IsTableFrom lo key rows [] h r v = (h, r, tt)
  put_rows-IsTableFrom lo key rows ((k, xs) ∷ others) h r v = elim (Bool-cases (ltb key k)) [
    | inl less ↦ rw less (h, r, (ground (arith, less), v.1, v.2))
    | inr more ↦ elim (Bool-cases (k == key)) [
      | inl hit ↦
          let e = (==_iff k key).0 hit in
          rw (more, hit) (h, r, subst (λ j. IsTableFrom (suc j) others) e v.2)
      | inr miss ↦
          rw (more, miss)
            (
              v.0,
              v.1,
              put_rows-IsTableFrom (suc k) key rows others (ground (arith, more, miss)) r v.2,
            )
    ]
  ]

  RowsOf-append :
      (key n : ℕ) (xs : List A) (y : A)
      → RowsOf key n xs
      → partition_of y ≡ key
      → id_of y ≡ n + length xs
      → RowsOf key n (xs ++ y ∷ [])
  RowsOf-append key n [] y r p e = (p, omega (arith, e), tt)
  RowsOf-append key n (x ∷ xs) y r p e =
      (r.0, r.1, RowsOf-append key (suc n) xs y r.2 p (omega (arith, e)))

  pub insert_row-IsTable :
      (set_id : ℕ → A → A) (x : A) (t : Table A)
      → ((n : ℕ) → id_of (set_id n x) ≡ n)
      → ((n : ℕ) → partition_of (set_id n x) ≡ partition_of x)
      → IsTable t
      → IsTable (insert_row set_id (partition_of x) x t).0
  unfolding insert_row
  insert_row-IsTable set_id x t numbers keeps v =
      let rows = rows_at (partition_of x) t in
      put_rows-IsTableFrom 0 (partition_of x) _ t (omega arith)
        (RowsOf-append (partition_of x) 1 rows (set_id (length rows + 1) x)
          (rows_at-RowsOf 0 (partition_of x) t v) (keeps (length rows + 1))
          (omega (arith, numbers (length rows + 1))))
        v

  replace_row-RowsOf :
      (key n : ℕ) (y : A) (xs ys : List A)
      → partition_of y ≡ key
      → RowsOf key n xs
      → replace_row id_of y xs ≡ some ys
      → RowsOf key n ys
  unfolding replace_row
  replace_row-RowsOf key n y [] ys p r e = absurd (cc e)
  replace_row-RowsOf key n y (x ∷ xs) ys p r e = elim (Bool-cases (id_of x == id_of y)) [
    | inl hit ↦
        subst (RowsOf key n) (some-injective (rw hit at e))
          (p, sym ((==_iff (id_of x) (id_of y)).0 hit) ∙ r.1, r.2)
    | inr miss ↦ elim (Option-cases (replace_row id_of y xs)) [
      | inl missing ↦ absurd (cc (rw (miss, missing) at e))
      | inr (zs, found) ↦
          subst (RowsOf key n) (some-injective (rw (miss, found) at e))
            (r.0, r.1, replace_row-RowsOf key (suc n) y xs zs p r.2 found)
    ]
  ]

  pub update_row-IsTable :
      (y : A) (t u : Table A)
      → update_row id_of (partition_of y) y t ≡ some u
      → IsTable t
      → IsTable u
  unfolding update_row
  update_row-IsTable y t u e v =
      elim (Option-cases (replace_row id_of y (rows_at (partition_of y) t))) [
        | inl missing ↦ absurd (cc (rw (update_row, missing) at e))
        | inr (rows, found) ↦ subst IsTable (some-injective (rw (update_row, found) at e)) (
            put_rows-IsTableFrom 0 (partition_of y) rows t (omega arith)
              (replace_row-RowsOf (partition_of y) 1 y (rows_at (partition_of y) t) rows refl
                (rows_at-RowsOf 0 (partition_of y) t v) found)
              v)
      ]

  -- Relations that keep the partition and the ID.
  abbrev pub KeepsKeys : (A → A → Type 0) → Type 0
  KeepsKeys R = (x y : A) → R x y → (partition_of y ≡ partition_of x) × (id_of y ≡ id_of x)

  KeptRows-RowsOf :
      (R : A → A → Type 0) (keeps : KeepsKeys R) (key n : ℕ) (xs ys : List A)
      → KeptRows R xs ys
      → RowsOf key n xs
      → RowsOf key n ys
  KeptRows-RowsOf R keeps key n [] [] k r = tt
  KeptRows-RowsOf R keeps key n [] (y ∷ ys) k r = absurd k
  KeptRows-RowsOf R keeps key n (x ∷ xs) [] k r = absurd k
  KeptRows-RowsOf R keeps key n (x ∷ xs) (y ∷ ys) k r =
      let (p, i) = keeps x y k.0 in
      (p ∙ r.0, i ∙ r.1, KeptRows-RowsOf R keeps key (suc n) xs ys k.1 r.2)

  pub Kept-IsTableFrom :
      (R : A → A → Type 0) (keeps : KeepsKeys R) (lo : ℕ) (t u : Table A)
      → Kept R t u
      → IsTableFrom lo t
      → IsTableFrom lo u
  Kept-IsTableFrom R keeps lo [] [] k v = tt
  Kept-IsTableFrom R keeps lo [] (y ∷ u) k v = absurd k
  Kept-IsTableFrom R keeps lo (x ∷ t) [] k v = absurd k
  Kept-IsTableFrom R keeps lo ((key, xs) ∷ t) ((key', ys) ∷ u) k v = (
    rw (← k.0) v.0,
    subst (λ j. RowsOf j 1 ys) k.0 (KeptRows-RowsOf R keeps key 1 xs ys k.1 v.1),
    subst (λ j. IsTableFrom (suc j) u) k.0 (Kept-IsTableFrom R keeps (suc key) t u k.2 v.2),
  )

  -- The row with the partition and the ID.
  abbrev pub is_row : ℕ → ℕ → A → Bool
  is_row key id x = partition_of x == key && id_of x == id

  RowsOf-once :
      (key id k n : ℕ) (xs : List A)
      → RowsOf k n xs
      → count_if (is_row key id) xs ≤ (if k == key then (if leb n id then 1 else 0) else 0)
  RowsOf-once key id k n [] r = omega arith
  RowsOf-once key id k n (x ∷ xs) r = ground (arith, RowsOf-once key id k (suc n) xs)

  from_once :
      (key id lo : ℕ) (t : Table A)
      → IsTableFrom lo t
      → total (is_row key id) t ≤ (if leb lo key then 1 else 0)
  from_once key id lo [] v = omega arith
  from_once key id lo ((k, rows) ∷ others) v =
      ground (arith, RowsOf-once key id k 1 rows, from_once key id (suc k) others)

  -- A table has no two rows of one partition with one ID.
  pub IsTable-once : (key id : ℕ) (t : Table A) → IsTable t → total (is_row key id) t ≤ 1
  IsTable-once key id t v = ground (arith, from_once key id 0 t)

  RowsOf-partition :
      (key n id : ℕ) (xs : List A) {x : A}
      → RowsOf key n xs
      → find_row id_of id xs ≡ some x
      → partition_of x ≡ key
  unfolding find_row
  RowsOf-partition key n id [] r e = absurd (cc e)
  RowsOf-partition key n id (y ∷ xs) r e = elim (Bool-cases (id_of y == id)) [
    | inl hit ↦ ap partition_of (sym (some-injective (rw hit at e))) ∙ r.0
    | inr miss ↦ RowsOf-partition key (suc n) id xs r.2 (rw miss at e)
  ]

  -- A row is selected by its own partition and ID.
  pub select_row-keys :
      (key id : ℕ) (t : Table A) {x : A}
      → IsTable t
      → select_row id_of key id t ≡ some x
      → (partition_of x ≡ key) × (id_of x ≡ id)
  unfolding select_row
  select_row-keys key id t v e = (
    RowsOf-partition key 1 id (rows_at key t) (rows_at-RowsOf 0 key t v) e,
    find_row-id id_of id (rows_at key t) e,
  )

  RowsOf-next :
      (key n m : ℕ) (xs : List A) → RowsOf key n xs → n + length xs ≤ m → find_row id_of m xs ≡ none
  unfolding find_row
  RowsOf-next key n m [] r h = refl
  RowsOf-next key n m (x ∷ xs) r h =
      ground (arith, r.1, h, RowsOf-next key (suc n) m xs r.2 (omega (arith, h)))

  -- What was inserted is selected by its partition and ID.
  pub select_row-inserted :
      (set_id : ℕ → A → A) (x : A) (t : Table A)
      → ((n : ℕ) → id_of (set_id n x) ≡ n)
      → IsTable t
      → select_row id_of
          (partition_of x)
          (id_of (insert_row set_id (partition_of x) x t).1)
          (insert_row set_id (partition_of x) x t).0
        ≡ some (insert_row set_id (partition_of x) x t).1
  unfolding select_row insert_row
  select_row-inserted set_id x t numbers v =
      let rows = rows_at (partition_of x) t in
      let y = set_id (length rows + 1) x in
      let self : (partition_of x == partition_of x) ≡ true = ground arith in
      rw (rows_at-put_rows (partition_of x) (partition_of x) (rows ++ y ∷ []) t, self)
        (find_row-append_new id_of rows y (
          RowsOf-next (partition_of x) 1 (id_of y) rows (rows_at-RowsOf 0 (partition_of x) t v)
            (omega (arith, numbers (length rows + 1)))))
