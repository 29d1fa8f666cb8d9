-- ===== src/Variables/Repository.antt =====
-- The entity of a variable (engine/internal/variable.go), and its in-memory repository (engine/mem/variable.go).
use go_bpmn.Shared.{
  ℕ, zero, suc, Bool, true, false, not, ◌&&◌, ◌||◌, String, Option, none, some, List, [], ◌∷◌, ℤ,
  pos, negsuc, filter, ◌==◌, str_eq, has_text, if◌then◌else◌,
}
use go_bpmn.Entity.{Int4}
use go_bpmn.Store.Locking.{Table, QueryOptions, no_page, query_table}
use go_bpmn.Jobs.Repository.{accepts}
use go_bpmn.Store.Partitions.{rows_at, put_rows, insert_row}

-- An ID of -1 marks a variable that is deleted.
pub record VariableEntity : Type 0 where
  pub partition : ℕ
  pub id : ℤ
  pub element_id : Int4
  pub element_instance_id : Int4
  pub process_id : ℕ
  pub process_instance_id : ℕ
  pub created_at : ℕ
  pub created_by : String
  pub encoding : String
  pub is_encrypted : Bool
  pub name : String
  pub updated_at : ℕ
  pub updated_by : String
  pub value : String

abbrev pub VariableTable : Type 0
VariableTable = Table VariableEntity

abbrev pub is_minus_one : ℤ → Bool
is_minus_one (pos n) = false
is_minus_one (negsuc zero) = true
is_minus_one (negsuc (suc n)) = false

abbrev pub is_deleted : VariableEntity → Bool
is_deleted e = is_minus_one e.id

-- The conditions of the loop of `Delete`, without a process instance for the variables of elements.
unfoldable pub is_meant : VariableEntity → VariableEntity → Bool
is_meant x e =
    not (not (x.process_instance_id == 0) && not (e.process_instance_id == x.process_instance_id))
    && e.element_instance_id.int32 == x.element_instance_id.int32
    && str_eq e.name x.name

abbrev pub mark_deleted : VariableEntity → VariableEntity
mark_deleted e = record e { id = negsuc 0; value = "" }

unfoldable pub delete_rows : VariableEntity → List VariableEntity → List VariableEntity
unfolding is_meant
delete_rows x [] = []
delete_rows x (e ∷ es) =
    let rest = delete_rows x es in
    if not (is_deleted e) && is_meant x e then mark_deleted e ∷ es else e ∷ rest

-- A partition without rows is as good as a missing one.
unfoldable pub delete : VariableEntity → VariableTable → VariableTable
unfolding rows_at put_rows delete_rows
delete x t = put_rows x.partition (delete_rows x (rows_at x.partition t)) t

abbrev pub set_id : ℕ → VariableEntity → VariableEntity
set_id n e = record e { id = pos n }

unfoldable pub insert : VariableEntity → VariableTable → VariableTable
unfolding insert_row
insert x t = (insert_row set_id x.partition x t).0

unfoldable pub insert_batch : List VariableEntity → VariableTable → VariableTable
unfolding insert
insert_batch [] t = t
insert_batch (x ∷ xs) t = insert_batch xs (insert x t)

-- The condition of the loop of `Upsert`.
unfoldable pub is_same : VariableEntity → VariableEntity → Bool
is_same x e =
    e.process_instance_id == x.process_instance_id
    && e.element_instance_id.int32 == x.element_instance_id.int32
    && str_eq e.name x.name

abbrev pub overwrite : VariableEntity → VariableEntity → VariableEntity
overwrite x e = record x { created_at = e.created_at; created_by = e.created_by }

-- Nothing is returned if there is no row to write over.
unfoldable pub overwrite_rows : VariableEntity → List VariableEntity → Option (List VariableEntity)
unfolding is_same
overwrite_rows x [] = none
overwrite_rows x (e ∷ es) =
    let rest = overwrite_rows x es in
    if not (is_deleted e) && is_same x e
    then some (overwrite x e ∷ es)
    else elim rest [ none ↦ none | some ys ↦ some (e ∷ ys) ]

-- The entity itself, which is written to as well, is not read again by those that call it.
unfoldable pub upsert : VariableEntity → VariableTable → VariableTable
unfolding rows_at put_rows overwrite_rows insert
upsert x t = elim (overwrite_rows x (rows_at x.partition t)) [
  | none ↦ insert x t
  | some rows ↦ put_rows x.partition rows t
]

abbrev pub is_empty : List String → Bool
is_empty [] = true
is_empty (x ∷ xs) = false

abbrev pub accepts_name : List String → VariableEntity → Bool
accepts_name names e = is_empty names || has_text names e.name

unfoldable pub select_by_element_instance :
    ℕ → ℕ → List String → VariableTable → List VariableEntity
unfolding rows_at has_text
select_by_element_instance partition id names t =
    filter (λ e. not (is_deleted e) && e.element_instance_id.int32 == id && accepts_name names e)
      (rows_at partition t)

-- `engine.GetProcessVariablesCmd`.
pub record GetProcessVariablesCmd : Type 0 where
  pub partition : ℕ
  pub process_instance_id : ℕ
  pub names : List String

unfoldable pub select_by_process_instance :
    GetProcessVariablesCmd → VariableTable → List VariableEntity
unfolding rows_at has_text
select_by_process_instance cmd t =
    filter
      (λ e.
        not (is_deleted e)
        && not e.element_instance_id.valid
        && accepts cmd.process_instance_id e.process_instance_id
        && accepts_name cmd.names e)
      (rows_at cmd.partition t)

-- `engine.VariableCriteria`.
pub record VariableCriteria : Type 0 where
  pub partition : ℕ
  pub element_instance_id : ℕ
  pub process_instance_id : ℕ
  pub names : List String

unfoldable pub matches : VariableCriteria → VariableEntity → Bool
unfolding has_text
matches c e =
    not (is_deleted e)
    && accepts c.element_instance_id e.element_instance_id.int32
    && accepts c.process_instance_id e.process_instance_id
    && accepts_name c.names e

-- What a variable is shown as is the entity without its value.
abbrev pub show : VariableEntity → VariableEntity
show e = record e { value = "" }

unfoldable pub query : VariableCriteria → QueryOptions → VariableTable → List VariableEntity
unfolding query_table matches
query c o t = (query_table (matches c) show o c.partition t no_page).results
