-- ===== src/Store/Locking/Pages.antt =====
-- What `Query` returns, against a description without loops: the rows that match, without the first ones up
-- to the offset, cut off at the limit.
use mathlib.Core.List.{append-nil, append_assoc}
use go_bpmn.Shared.{
  ℕ, zero, suc, ◌+◌, ◌-◌, ◌≡◌, refl, ap, subst, ◌∙◌, sym, Bool, true, false, ◌&&◌, List, [], ◌∷◌,
  ◌++◌, map, pos_part, is_pos, take, drop, take-zero, drop-zero, filter, inl, inr, Bool-cases, ltb,
  ◌==◌, if◌then◌else◌, arith,
}
use go_bpmn.Store.Locking.{
  Table, is_skipped, QueryOptions, Page, no_page, collect, read_row, query_rows, query_table,
}
use go_bpmn.Store.Locking.Found.{rows_of}

module _ {A B : Type 0} (matches : A → Bool) (view : A → B) (o : QueryOptions) where
  abbrev run : List A → Page B → Page B
  run = query_rows matches view o

  read_row_full : (x : A) (p : Page B) → p.is_full ≡ true → read_row matches view o x p ≡ p
  unfolding read_row
  read_row_full x p h = ground (arith, h)

  read_row_other : (x : A) (p : Page B) → matches x ≡ false → read_row matches view o x p ≡ p
  unfolding read_row
  read_row_other x p h = ground (arith, h)

  read_row_hit :
      (x : A) (p : Page B)
      → matches x ≡ true
      → p.is_full ≡ false
      → read_row matches view o x p ≡ collect matches view o x p
  unfolding read_row
  read_row_hit x p h k = ground (arith, h, k)

  run_full : (xs : List A) (p : Page B) → p.is_full ≡ true → run xs p ≡ p
  unfolding query_rows read_row
  run_full [] p h = refl
  run_full (x ∷ xs) p h = ap (run xs) (read_row_full x p h) ∙ run_full xs p h

  run-append : (xs ys : List A) (p : Page B) → run (xs ++ ys) p ≡ run ys (run xs p)
  unfolding query_rows read_row
  run-append [] ys p = refl
  run-append (x ∷ xs) ys p = run-append xs ys (read_row matches view o x p)

  query_table-run :
      (partition : ℕ) (t : Table A) (p : Page B)
      → query_table matches view o partition t p ≡ run (rows_of partition t) p
  unfolding query_table query_rows
  query_table-run partition [] p = refl
  query_table-run partition ((key, rows) ∷ others) p =
      elim (Bool-cases (is_skipped partition key)) [
        | inl skip ↦ rw skip (query_table-run partition others p)
        | inr here ↦ rw here (
            query_table-run partition others (run rows p)
            ∙ sym (run-append rows (rows_of partition others) p))
      ]

  -- The page after a row that matches: passed over, or collected.
  collect_skip :
      (x : A) (p : Page B)
      → ltb p.offset (pos_part o.offset) ≡ true
      → collect matches view o x p ≡ record p { offset = suc p.offset }
  collect_skip x p h = ground (arith, h)

  abbrev collected : A → Page B → Page B
  collected x p = record p {
    limit = suc p.limit;
    results = p.results ++ view x ∷ [];
    is_full = is_pos o.limit && suc p.limit == pos_part o.limit;
  }

  collect_take :
      (x : A) (p : Page B)
      → ltb p.offset (pos_part o.offset) ≡ false
      → collect matches view o x p ≡ collected x p
  collect_take x p h = ground (arith, h)

  abbrev results_of : Page B → List A → List B
  results_of p xs = (run xs p).results

  passed_over :
      (x : A) (xs : List A) (p : Page B)
      → matches x ≡ true
      → p.is_full ≡ false
      → ltb p.offset (pos_part o.offset) ≡ true
      → results_of p (x ∷ xs) ≡ results_of (record p { offset = suc p.offset }) xs
  unfolding query_rows read_row
  passed_over x xs p hit open_page h =
      ap (λ q. results_of q xs) (read_row_hit x p hit open_page ∙ collect_skip x p h)

  taken_in :
      (x : A) (xs : List A) (p : Page B)
      → matches x ≡ true
      → p.is_full ≡ false
      → ltb p.offset (pos_part o.offset) ≡ false
      → results_of p (x ∷ xs) ≡ results_of (collected x p) xs
  unfolding query_rows read_row
  taken_in x xs p hit open_page h =
      ap (λ q. results_of q xs) (read_row_hit x p hit open_page ∙ collect_take x p h)

  left_out :
      (x : A) (xs : List A) (p : Page B)
      → matches x ≡ false
      → results_of p (x ∷ xs) ≡ results_of p xs
  unfolding query_rows read_row
  left_out x xs p other = ap (λ q. results_of q xs) (read_row_other x p other)

  -- With `i` rows to pass over, and no limit.
  run_unlimited :
      (i : ℕ) (xs : List A) (p : Page B)
      → is_pos o.limit ≡ false
      → p.offset + i ≡ pos_part o.offset
      → p.is_full ≡ false
      → results_of p xs ≡ p.results ++ map view (drop i (filter matches xs))
  run_unlimited i [] p no_limit e open_page = unfold query_rows in sym (append-nil p.results)
  run_unlimited zero (x ∷ xs) p no_limit e open_page = elim (Bool-cases (matches x)) [
    | inr other ↦ rw other (left_out x xs p other ∙ run_unlimited zero xs p no_limit e open_page)
    | inl hit ↦ rw hit (
        taken_in x xs p hit open_page (ground arith)
        ∙ run_unlimited zero xs (collected x p) no_limit e (ground (arith, no_limit))
        ∙ append_assoc p.results (view x ∷ []) _
        ∙ ap (λ zs. p.results ++ view x ∷ map view zs) (drop-zero (filter matches xs)))
  ]
  run_unlimited (suc i) (x ∷ xs) p no_limit e open_page = elim (Bool-cases (matches x)) [
    | inr other ↦ rw other (left_out x xs p other ∙ run_unlimited (suc i) xs p no_limit e open_page)
    | inl hit ↦ rw hit (
        passed_over x xs p hit open_page (ground arith)
        ∙ run_unlimited i xs (record p { offset = suc p.offset }) no_limit (omega arith) open_page)
  ]

  -- With `k + 1` places left.
  run_limited :
      (i k : ℕ) (xs : List A) (p : Page B)
      → is_pos o.limit ≡ true
      → p.offset + i ≡ pos_part o.offset
      → p.limit + suc k ≡ pos_part o.limit
      → p.is_full ≡ false
      → results_of p xs ≡ p.results ++ map view (take (suc k) (drop i (filter matches xs)))
  run_limited i k [] p limited e f open_page = unfold query_rows in sym (append-nil p.results)
  run_limited (suc i) k (x ∷ xs) p limited e f open_page = elim (Bool-cases (matches x)) [
    | inr other ↦
        rw other (left_out x xs p other ∙ run_limited (suc i) k xs p limited e f open_page)
    | inl hit ↦ rw hit (
        passed_over x xs p hit open_page (ground arith)
        ∙ run_limited i k xs (record p { offset = suc p.offset }) limited (omega arith) f open_page)
  ]
  run_limited zero zero (x ∷ xs) p limited e f open_page = elim (Bool-cases (matches x)) [
    | inr other ↦
        rw other (left_out x xs p other ∙ run_limited zero zero xs p limited e f open_page)
    | inl hit ↦
        rw (hit, take-zero (filter matches xs))
          (taken_in x xs p hit open_page (ground arith)
            ∙ ap (λ q. q.results) (run_full xs (collected x p) (ground (arith, limited))))
  ]
  run_limited zero (suc k) (x ∷ xs) p limited e f open_page = elim (Bool-cases (matches x)) [
    | inr other ↦
        rw other (left_out x xs p other ∙ run_limited zero (suc k) xs p limited e f open_page)
    | inl hit ↦ rw hit (
        taken_in x xs p hit open_page (ground arith)
        ∙ run_limited zero k xs (collected x p) limited e (omega arith) (ground (arith, limited))
        ∙ append_assoc p.results (view x ∷ []) _
        ∙ ap (λ zs. p.results ++ view x ∷ map view (take (suc k) zs))
            (drop-zero (filter matches xs)))
  ]

  -- The page of a list: what is left of it behind the offset, and of that no more than the limit, if it is set.
  abbrev pub page_of : List A → List A
  page_of xs =
      let rest = drop (pos_part o.offset) xs in
      if is_pos o.limit then take (pos_part o.limit) rest else rest

  run_set :
      (partition : ℕ) (t : Table A)
      → is_pos o.limit ≡ true
      → results_of no_page (rows_of partition t)
        ≡ map view (
            take
              (pos_part o.limit)
              (drop (pos_part o.offset) (filter matches (rows_of partition t))))
  run_set partition t limited =
      let e : suc (pos_part o.limit - 1) ≡ pos_part o.limit = ground (arith, limited) in
      subst
        (λ n.
          results_of no_page (rows_of partition t)
          ≡ map view (take n (drop (pos_part o.offset) (filter matches (rows_of partition t)))))
        e
        (run_limited (pos_part o.offset) (pos_part o.limit - 1) (rows_of partition t) no_page
          limited (omega arith) (omega (arith, e)) refl)

  pub query_table-page :
      (partition : ℕ) (t : Table A)
      → (query_table matches view o partition t no_page).results
        ≡ map view (page_of (filter matches (rows_of partition t)))
  query_table-page partition t = elim (Bool-cases (is_pos o.limit)) [
    | inl limited ↦ rw limited (
        ap (λ (q : Page B). q.results) (query_table-run partition t no_page)
        ∙ run_set partition t limited)
    | inr no_limit ↦ rw no_limit (
        ap (λ (q : Page B). q.results) (query_table-run partition t no_page)
        ∙ run_unlimited (pos_part o.offset) (rows_of partition t) no_page no_limit (omega arith)
            refl)
  ]
