-- ===== src/Variables/Written.antt =====
-- What a partition holds after variables were written (engine/mem/variable.go, engine/internal/variable.go).
use go_bpmn.Shared.{
  ℕ, ◌+◌, ◌<◌, ◌≡◌, ◌≢◌, refl, ap, subst, ◌∙◌, false, List, [], ◌∷◌, ◌++◌, length, All, arith, ◌==◌,
  if◌then◌else◌, Bool-cases, Option-cases, inl, inr,
}
use go_bpmn.Store.Partitions.{rows_at, put_rows, rows_at-put_rows, insert_row}
use go_bpmn.Variables.Repository.{
  VariableEntity, VariableTable, is_deleted, delete_rows, overwrite_rows, set_id, insert, upsert,
  delete,
}
use go_bpmn.Variables.Set.{Data, write_variable, write_variables}
use go_bpmn.Variables.Contents.{Key, key_of, content_of, contents, IsKeyed}
use go_bpmn.Variables.Changes.{
  changed, contents-append, contents-overwrite_rows, overwrite_rows-none, contents-delete_rows,
}

-- What the partition of an entity holds after it was written, and that no other partition changes.
pub record Writes (x : VariableEntity) (ds : List Data) (t u : VariableTable) : Type 0 where
  pub here :
      (k : Key)
      → contents k (rows_at x.partition u)
        ≡ changed k (key_of x) ds (contents k (rows_at x.partition t))
  pub elsewhere : (q : ℕ) → q ≢ x.partition → rows_at q u ≡ rows_at q t

pub rows_at-put_same :
    (p : ℕ) (rows : List VariableEntity) (t : VariableTable) → rows_at p (put_rows p rows t) ≡ rows
rows_at-put_same p rows t = ground (arith, rows_at-put_rows p p rows t)

put-Writes :
    (x : VariableEntity) (ds : List Data) (rows : List VariableEntity) (t : VariableTable)
    → ((k : Key) → contents k rows ≡ changed k (key_of x) ds (contents k (rows_at x.partition t)))
    → Writes x ds t (put_rows x.partition rows t)
put-Writes x ds rows t h = record {
  here = λ k. ap (contents k) (rows_at-put_same x.partition rows t) ∙ h k;
  elsewhere = λ q other. ground (arith, rows_at-put_rows q x.partition rows t, other);
}

upsert-Writes :
    (x : VariableEntity) (t : VariableTable)
    → is_deleted x ≡ false
    → IsKeyed (rows_at x.partition t)
    → Writes x (content_of x ∷ []) t (upsert x t)
unfolding upsert insert insert_row
upsert-Writes x t live h = elim (Option-cases (overwrite_rows x (rows_at x.partition t))) [
  | inl nothing ↦
      let rows = rows_at x.partition t in
      rw (upsert, nothing)
        (put-Writes x (content_of x ∷ []) (rows ++ set_id (length rows + 1) x ∷ []) t (λ k.
          contents-append k rows (set_id (length rows + 1) x) refl
            (overwrite_rows-none x rows nothing)))
  | inr (rows, found) ↦
      rw (upsert, found)
        (put-Writes x (content_of x ∷ []) rows t
          (λ k. contents-overwrite_rows k x (rows_at x.partition t) live h found))
]

delete-Writes :
    (x : VariableEntity) (t : VariableTable)
    → 0 < x.process_instance_id
    → IsKeyed (rows_at x.partition t)
    → Writes x [] t (delete x t)
unfolding delete
delete-Writes x t p h =
    put-Writes x [] (delete_rows x (rows_at x.partition t)) t
      (λ k. contents-delete_rows k x (rows_at x.partition t) p h)

-- The contents that an entity brings: none if it is one to delete.
abbrev pub brought : VariableEntity → List Data
brought x = if x.process_id == 0 then [] else content_of x ∷ []

write_variable-Writes :
    (x : VariableEntity) (t : VariableTable)
    → is_deleted x ≡ false
    → 0 < x.process_instance_id
    → IsKeyed (rows_at x.partition t)
    → Writes x (brought x) t (write_variable x t)
unfolding write_variable
write_variable-Writes x t live p h = elim (Bool-cases (x.process_id == 0)) [
  | inl deletion ↦ rw deletion (delete-Writes x t p h)
  | inr assignment ↦ rw assignment (upsert-Writes x t live h)
]

Writes-IsKeyed :
    (x : VariableEntity) (t u : VariableTable)
    → Writes x (brought x) t u
    → IsKeyed (rows_at x.partition t)
    → IsKeyed (rows_at x.partition u)
Writes-IsKeyed x t u w h k = let n = ap (length {A = Data}) (w.here k) in ground (arith, n, h k)

-- An entity of a process instance in its partition.
pub record Belongs (p i : ℕ) (x : VariableEntity) : Type 0 where
  pub live : is_deleted x ≡ false
  pub at_partition : x.partition ≡ p
  pub of_instance : x.process_instance_id ≡ i

-- What is left of the contents after the entities were written.
abbrev pub effects : Key → List VariableEntity → List Data → List Data
effects k [] before = before
effects k (x ∷ xs) before = effects k xs (changed k (key_of x) (brought x) before)

abbrev Step : ℕ → VariableEntity → VariableTable → VariableTable → Type 0
Step p x t u =
    IsKeyed (rows_at p u)
    × ((k : Key)
        → contents k (rows_at p u) ≡ changed k (key_of x) (brought x) (contents k (rows_at p t)))
    × ((q : ℕ) → q ≢ p → rows_at q u ≡ rows_at q t)

write_variable-Step :
    (p i : ℕ) (x : VariableEntity) (t : VariableTable)
    → 0 < i
    → Belongs p i x
    → IsKeyed (rows_at p t)
    → Step p x t (write_variable x t)
write_variable-Step p i x t pos_i b =
    subst (λ r. IsKeyed (rows_at r t) → Step r x t (write_variable x t)) b.at_partition
      (λ h.
        let w = write_variable-Writes x t b.live (omega (arith, pos_i, b.of_instance)) h in
        (Writes-IsKeyed x t (write_variable x t) w h, w.here, w.elsewhere))

pub write_variables-effects :
    (p i : ℕ) (xs : List VariableEntity) (t : VariableTable)
    → 0 < i
    → All (Belongs p i) xs
    → IsKeyed (rows_at p t)
    → IsKeyed (rows_at p (write_variables xs t))
      × ((k : Key)
          → contents k (rows_at p (write_variables xs t)) ≡ effects k xs (contents k (rows_at p t)))
      × ((q : ℕ) → q ≢ p → rows_at q (write_variables xs t) ≡ rows_at q t)
unfolding write_variables
write_variables-effects p i [] t pos_i a h = (h, λ k. refl, λ q other. refl)
write_variables-effects p i (x ∷ xs) t pos_i a h =
    let (keyed, here, elsewhere) = write_variable-Step p i x t pos_i a.0 h in
    let (keyed', here', elsewhere') =
      write_variables-effects p i xs (write_variable x t) pos_i a.1 keyed in
    (
      keyed',
      λ k. here' k ∙ ap (effects k xs) (here k),
      λ q other. elsewhere' q other ∙ elsewhere q other,
    )
