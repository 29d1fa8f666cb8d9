-- ===== src/Store/Locking/Found.antt =====
-- What `Lock` returns and leaves, against a description without loops: the free rows in order, cut off at the
-- limit.
use go_bpmn.Shared.{
  ℕ, zero, suc, ◌+◌, ◌-◌, ◌≡◌, refl, ap, ◌∙◌, sym, Bool, true, false, List, [], ◌∷◌, ◌++◌, map, pos,
  length, length-map, take, drop, filter, take-zero, drop-zero, take-append, drop-append,
  length-take, filter-append, inl, inr, Bool-cases, ◌==◌, if◌then◌else◌, arith,
}
use go_bpmn.Store.Locking.{Table, is_skipped, lock_rows, lock_table}

-- The rows of all partitions that are not passed over.
abbrev pub rows_of : {A : Type 0} → ℕ → Table A → List A
rows_of partition [] = []
rows_of partition ((key, rows) ∷ others) =
    let rest = rows_of partition others in if is_skipped partition key then rest else rows ++ rest

map-append : {A B : Type 0} (f : A → B) (xs ys : List A) → map f (xs ++ ys) ≡ map f xs ++ map f ys
map-append f [] ys = refl
map-append f (x ∷ xs) ys = ap (λ zs. f x ∷ zs) (map-append f xs ys)

joined_found :
    {A B : Type 0} (f : A → B) (k n : ℕ) (xs ys : List A)
    → n ≡ length (take k xs)
    → map f (take k xs) ++ map f (take (k - n) ys) ≡ map f (take k (xs ++ ys))
joined_found f k n xs ys e =
    rw (take-append k xs ys, e) (sym (map-append f (take k xs) (take (k - length (take k xs)) ys)))

joined_left :
    {A : Type 0} (k n : ℕ) (xs ys : List A)
    → n ≡ length (take k xs)
    → drop k xs ++ drop (k - n) ys ≡ drop k (xs ++ ys)
joined_left k n xs ys e = rw (drop-append k xs ys, e) refl

module _ {A : Type 0} (is_free : A → Bool) (mark : A → A) where
  abbrev frees : List A → List A
  frees = filter is_free

  -- With room for `k` more rows.
  lock_rows-Found :
      (marked : (x : A) → is_free (mark x) ≡ false) (k limit taken : ℕ) (xs : List A)
      → limit ≡ taken + k
      → ((lock_rows is_free mark (pos limit) taken xs).1 ≡ map mark (take k (frees xs)))
        × (frees (lock_rows is_free mark (pos limit) taken xs).0 ≡ drop k (frees xs))
  unfolding lock_rows
  lock_rows-Found marked k limit taken [] e = (refl, refl)
  lock_rows-Found marked zero limit taken (x ∷ xs) e =
      let full : (limit == taken) ≡ true = ground arith in
      rw full (rw (take-zero (frees (x ∷ xs))) refl, rw (drop-zero (frees (x ∷ xs))) refl)
  lock_rows-Found marked (suc k) limit taken (x ∷ xs) e =
      let room : (limit == taken) ≡ false = ground arith in
      elim (Bool-cases (is_free x)) [
        | inl h ↦
            let (found, left) = lock_rows-Found marked k limit (suc taken) xs (omega arith) in
            rw (room, h) (ap (λ ys. mark x ∷ ys) found, rw (marked x) left)
        | inr h ↦
            let (found, left) = lock_rows-Found marked (suc k) limit taken xs e in
            rw (room, h) (found, rw h left)
      ]

  pub lock_table-Found :
      (marked : (x : A) → is_free (mark x) ≡ false) (k limit taken partition : ℕ) (t : Table A)
      → limit ≡ taken + k
      → ((lock_table is_free mark partition (pos limit) taken t).1
          ≡ map mark (take k (frees (rows_of partition t))))
        × (frees (rows_of partition (lock_table is_free mark partition (pos limit) taken t).0)
            ≡ drop k (frees (rows_of partition t)))
  unfolding lock_table
  lock_table-Found marked k limit taken partition [] e = (refl, refl)
  lock_table-Found marked k limit taken partition ((key, rows) ∷ others) e =
      elim (Bool-cases (is_skipped partition key)) [
        | inl skip ↦
            let (found, left) = lock_table-Found marked k limit taken partition others e in
            rw skip (found, rw skip left)
        | inr here ↦
            let xs = frees rows in
            let ys = frees (rows_of partition others) in
            let now = lock_rows is_free mark (pos limit) taken rows in
            let (found, left) = lock_rows-Found marked k limit taken rows e in
            let size : length now.1 ≡ length (take k xs) =
              ap length found ∙ length-map mark (take k xs) in
            let more =
              lock_table is_free mark partition (pos limit) (taken + length now.1) others in
            let (found', left') =
              lock_table-Found marked (k - length now.1) limit (taken + length now.1) partition
                others (omega (arith, size, length-take k xs)) in
            rw here (
              ap (λ zs. zs ++ more.1) found
                  ∙ ap (λ zs. map mark (take k xs) ++ zs) found'
                  ∙ joined_found mark k (length now.1) xs ys size
                  ∙ ap (λ zs. map mark (take k zs)) (sym (filter-append is_free rows _)),
              rw here (
                  filter-append is_free now.0 _
                  ∙ ap (λ zs. zs ++ frees (rows_of partition more.0)) left
                  ∙ ap (λ zs. drop k xs ++ zs) left'
                  ∙ joined_left k (length now.1) xs ys size
                  ∙ ap (λ zs. drop k zs) (sym (filter-append is_free rows _))),
            )
      ]
