-- ===== src/Variables/Placed.antt =====
-- Rows of process instances and rows of elements (engine/mem/variable.go): a row belongs to an element instance exactly if
-- its element instance ID is not 0.
use go_bpmn.Shared.{
  ℕ, ◌+◌, ◌<◌, ◌≡◌, refl, ap, sym, subst, ◌∙◌, Bool, not, ◌&&◌, String, some, some-injective, List,
  [], ◌∷◌, ◌++◌, map, filter, length, All, All-append, arith, ◌==◌, str_eq, eq_iff, has_text,
  Bool-cases, Option-cases, inl, inr,
}
use go_bpmn.Variables.Changes.{
  put_first, overwrite_rows-nil, overwrite_rows-hit, overwrite_rows-miss, counts-key,
}
use go_bpmn.Variables.Written.{rows_at-put_same}
use go_bpmn.Store.Partitions.{rows_at, put_rows, insert_row}
use go_bpmn.Jobs.Repository.{accepts}
use go_bpmn.Variables.Repository.{
  VariableEntity, VariableTable, is_deleted, is_meant, delete_rows, overwrite_rows, set_id, insert,
  upsert, delete, GetProcessVariablesCmd, select_by_process_instance, accepts_name,
}
use go_bpmn.Variables.Set.{write_variable, write_variables}
use go_bpmn.Variables.Contents.{
  counts_for, contents-hit, contents-miss, Key, key_of, content_of, contents, same_key,
}
use go_bpmn.Variables.Mapped.{process_key}

abbrev pub IsPlaced : VariableEntity → Type 0
IsPlaced e = e.element_instance_id.valid ≡ not (e.element_instance_id.int32 == 0)

delete_rows-All :
    (x : VariableEntity) (rows : List VariableEntity)
    → All IsPlaced rows
    → All IsPlaced (delete_rows x rows)
unfolding delete_rows
delete_rows-All x [] a = tt
delete_rows-All x (e ∷ es) a = elim (Bool-cases (not (is_deleted e) && is_meant x e)) [
  | inl hit ↦ rw hit a
  | inr miss ↦ rw miss (a.0, delete_rows-All x es a.1)
]

overwrite_rows-All :
    (x : VariableEntity) (rows : List VariableEntity) (ys : List VariableEntity)
    → IsPlaced x
    → All IsPlaced rows
    → overwrite_rows x rows ≡ some ys
    → All IsPlaced ys
overwrite_rows-All x [] ys p a e = absurd (cc (overwrite_rows-nil x, e))
overwrite_rows-All x (r ∷ rs) ys p a e = elim (Bool-cases (counts_for (key_of x) r)) [
  | inl hit ↦
      subst (All IsPlaced) (some-injective (sym (overwrite_rows-hit x r rs hit) ∙ e)) (p, a.1)
  | inr miss ↦ elim (Option-cases (overwrite_rows x rs)) [
    | inl nothing ↦
        absurd (cc (sym (overwrite_rows-miss x r rs miss) ∙ e, ap (put_first r) nothing))
    | inr (zs, found) ↦
        subst (All IsPlaced)
          (some-injective (sym (overwrite_rows-miss x r rs miss ∙ ap (put_first r) found) ∙ e))
          (a.0, overwrite_rows-All x rs zs p a.1 found)
  ]
]

upsert-All :
    (x : VariableEntity) (t : VariableTable)
    → IsPlaced x
    → All IsPlaced (rows_at x.partition t)
    → All IsPlaced (rows_at x.partition (upsert x t))
unfolding upsert insert insert_row
upsert-All x t p a = elim (Option-cases (overwrite_rows x (rows_at x.partition t))) [
  | inl nothing ↦
      let rows = rows_at x.partition t in
      rw (upsert, nothing)
        (put_All (rows ++ set_id (length rows + 1) x ∷ [])
          (All-append IsPlaced rows (set_id (length rows + 1) x ∷ []) a (p, tt)))
  | inr (rows, found) ↦
      rw (upsert, found)
        (put_All rows (overwrite_rows-All x (rows_at x.partition t) rows p a found))
]
  where
    put_All :
        (rows : List VariableEntity)
        → All IsPlaced rows
        → All IsPlaced (rows_at x.partition (put_rows x.partition rows t))
    put_All rows b = subst (All IsPlaced) (sym (rows_at-put_same x.partition rows t)) b

delete-All :
    (x : VariableEntity) (t : VariableTable)
    → All IsPlaced (rows_at x.partition t)
    → All IsPlaced (rows_at x.partition (delete x t))
unfolding delete
delete-All x t a =
    subst (All IsPlaced)
      (sym (rows_at-put_same x.partition (delete_rows x (rows_at x.partition t)) t))
      (delete_rows-All x (rows_at x.partition t) a)

-- The rows stay as they have to be when entities are written.
pub write_variables-All :
    (p : ℕ) (xs : List VariableEntity) (t : VariableTable)
    → All (λ (x : VariableEntity). (x.partition ≡ p) × IsPlaced x) xs
    → All IsPlaced (rows_at p t)
    → All IsPlaced (rows_at p (write_variables xs t))
unfolding write_variables
write_variables-All p [] t made a = a
write_variables-All p (x ∷ xs) t made a = write_variables-All p xs (write_variable x t) made.1 (
    subst (λ r. All IsPlaced (rows_at r t) → All IsPlaced (rows_at r (write_variable x t))) made.0.0
      (write_variable-All x t made.0.1) a)
  where
    write_variable-All :
        (y : VariableEntity) (s : VariableTable)
        → IsPlaced y
        → All IsPlaced (rows_at y.partition s)
        → All IsPlaced (rows_at y.partition (write_variable y s))
    write_variable-All y s q b = elim (Bool-cases (y.process_id == 0)) [
      | inl deletion ↦ rw (write_variable, deletion) (delete-All y s b)
      | inr assignment ↦ rw (write_variable, assignment) (upsert-All y s q b)
    ]

-- The query for one name of a process instance finds what the rows hold for it.
abbrev pub named : ℕ → ℕ → String → GetProcessVariablesCmd
named partition id name = record {
  partition = partition;
  process_instance_id = id;
  names = name ∷ [];
}

abbrev is_wanted : ℕ → String → VariableEntity → Bool
is_wanted id name e =
    not (is_deleted e)
    && not e.element_instance_id.valid
    && accepts id e.process_instance_id
    && accepts_name (name ∷ []) e

wanted_counts :
    (id : ℕ) (name : String) (e : VariableEntity)
    → 0 < id
    → IsPlaced e
    → is_wanted id name e ≡ counts_for (process_key id name) e
unfolding same_key has_text
wanted_counts id name e pos_id placed = ground (arith, pos_id, placed, turned name e.name)
  where
    turned : (s r : String) → str_eq s r ≡ str_eq r s
    turned s r = elim (Bool-cases (str_eq s r)) [
      | inl hit ↦ hit ∙ sym ((eq_iff r s).1 (sym ((eq_iff s r).0 hit)))
      | inr miss ↦ elim (Bool-cases (str_eq r s)) [
        | inl hit ↦ absurd (cc ((eq_iff s r).1 (sym ((eq_iff r s).0 hit)), miss))
        | inr other ↦ miss ∙ sym other
      ]
    ]

-- The rows with the key are found, with their contents and under its name.
pub selected-contents :
    (p id : ℕ) (name : String) (t : VariableTable)
    → 0 < id
    → All IsPlaced (rows_at p t)
    → (map content_of (select_by_process_instance (named p id name) t)
        ≡ contents (process_key id name) (rows_at p t))
      × All (λ e. e.name ≡ name) (select_by_process_instance (named p id name) t)
unfolding select_by_process_instance
selected-contents p id name t pos_id a = by_rows (rows_at p t) a
  where
    by_rows :
        (rows : List VariableEntity)
        → All IsPlaced rows
        → (map content_of (filter (is_wanted id name) rows) ≡ contents (process_key id name) rows)
          × All (λ e. e.name ≡ name) (filter (is_wanted id name) rows)
    by_rows [] b = (unfold contents in refl, tt)
    by_rows (e ∷ es) b =
        let (same_contents, names) = by_rows es b.1 in
        let wanted = wanted_counts id name e pos_id b.0 in
        elim (Bool-cases (counts_for (process_key id name) e)) [
          | inl hit ↦ rw (wanted ∙ hit) (
            ap (λ ds. content_of e ∷ ds) same_contents
                ∙ sym (contents-hit (process_key id name) e es hit),
            (ap (λ (k : Key). k.name) (counts-key (process_key id name) e hit), names),
          )
          | inr miss ↦
              rw (wanted ∙ miss)
                (same_contents ∙ sym (contents-miss (process_key id name) e es miss), names)
        ]
