-- ===== src/Store/Locking.antt =====
-- The loops of the repositories of engine/mem over their rows: a map from the key of a partition to its
-- rows (`partitions` of engine/mem/job.go and engine/mem/task.go), what `Lock` and `Unlock` do to the
-- rows, and what `Query` collects.
pub mod Found
pub mod Held
pub mod Pages
pub mod Released
use go_bpmn.Shared.{
  ℕ, zero, suc, ◌+◌, Bool, true, false, not, ◌&&◌, ◌||◌, List, [], ◌∷◌, ◌++◌, ℤ, pos, negsuc,
  pos_part, is_pos, length, ltb, ◌==◌, if◌then◌else◌,
}

-- A map whose keys are dates. Go's map has no order, and every loop sorts the keys first: here the entries
-- stand in the order of the keys.
abbrev pub Table : Type 0 → Type 0
Table A = List (ℕ × List A)

-- `partitionKey != "" && partitionKey != keys[i]`, where the zero time has no key.
abbrev pub is_skipped : ℕ → ℕ → Bool
is_skipped partition key = not (partition == 0) && not (partition == key)

-- `cmd.Limit == len(results)`: a negative limit is never reached.
abbrev pub is_reached : ℤ → ℕ → Bool
is_reached (pos n) taken = n == taken
is_reached (negsuc n) taken = false

module _ {A : Type 0} (is_free : A → Bool) (mark : A → A) where
  -- The rows after the loop, and those that are marked, which is what the loop returns.
  unfoldable pub lock_rows : ℤ → ℕ → List A → List A × List A
  lock_rows limit taken [] = ([], [])
  lock_rows limit taken (x ∷ xs) =
      let passed = lock_rows limit taken xs in
      let found = lock_rows limit (suc taken) xs in
      if is_reached limit taken
      then (x ∷ xs, [])
      else if is_free x
      then (mark x ∷ found.0, mark x ∷ found.1)
      else (x ∷ passed.0, passed.1)

  -- Where the limit is reached the source leaves the outer loop too: no partition behind has a row that the
  -- inner loop would pass.
  unfoldable pub lock_table : ℕ → ℤ → ℕ → Table A → Table A × List A
  unfolding lock_rows
  lock_table partition limit taken [] = ([], [])
  lock_table partition limit taken ((key, rows) ∷ others) =
      let rest = lock_table partition limit taken others in
      let now = lock_rows limit taken rows in
      let more = lock_table partition limit (taken + length now.1) others in
      if is_skipped partition key
      then ((key, rows) ∷ rest.0, rest.1)
      else ((key, now.0) ∷ more.0, now.1 ++ more.1)

module _ {A : Type 0} (is_held : A → Bool) (release : A → A) where
  -- The rows after the loop, and how many were released.
  unfoldable pub unlock_rows : List A → List A × ℕ
  unlock_rows [] = ([], 0)
  unlock_rows (x ∷ xs) =
      let rest = unlock_rows xs in
      if is_held x then (release x ∷ rest.0, suc rest.1) else (x ∷ rest.0, rest.1)

  unfoldable pub unlock_table : ℕ → Table A → Table A × ℕ
  unfolding unlock_rows
  unlock_table partition [] = ([], 0)
  unlock_table partition ((key, rows) ∷ others) =
      let rest = unlock_table partition others in
      let now = unlock_rows rows in
      if is_skipped partition key
      then ((key, rows) ∷ rest.0, rest.1)
      else ((key, now.0) ∷ rest.0, now.1 + rest.1)

-- `engine.QueryOptions`.
pub record QueryOptions : Type 0 where
  pub limit : ℤ
  pub offset : ℤ

-- What a query has passed over and has collected, and whether it has left its loops.
pub record Page (B : Type 0) : Type 0 where
  pub offset : ℕ
  pub limit : ℕ
  pub results : List B
  pub is_full : Bool

abbrev pub no_page : {B : Type 0} → Page B
no_page = record { offset = 0; limit = 0; results = []; is_full = false }

module _ {A B : Type 0} (matches : A → Bool) (view : A → B) (o : QueryOptions) where
  -- One row that matches.
  abbrev pub collect : A → Page B → Page B
  collect x p =
      if ltb p.offset (pos_part o.offset) then record p { offset = suc p.offset } else record p {
        limit = suc p.limit;
        results = p.results ++ view x ∷ [];
        is_full = is_pos o.limit && suc p.limit == pos_part o.limit;
      }

  unfoldable pub read_row : A → Page B → Page B
  read_row x p = if p.is_full || not (matches x) then p else collect x p

  unfoldable pub query_rows : List A → Page B → Page B
  query_rows [] p = p
  query_rows (x ∷ xs) p = query_rows xs (if p.is_full || not (matches x) then p else collect x p)

  unfoldable pub query_table : ℕ → Table A → Page B → Page B
  unfolding query_rows read_row
  query_table partition [] p = p
  query_table partition ((key, rows) ∷ others) p =
      query_table partition others (if is_skipped partition key then p else query_rows rows p)
