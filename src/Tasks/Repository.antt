-- ===== src/Tasks/Repository.antt =====
-- `taskRepository` of engine/mem/task.go.
use go_bpmn.Shared.{
  ℕ, Bool, not, ◌&&◌, ◌||◌, String, Option, List, [], ◌∷◌, ℤ, pos, is_pos, ltb, if◌then◌else◌,
  str_eq,
}
use go_bpmn.Enum.WorkState as WorkState
use go_bpmn.Enum.WorkState.{created, due, locked}
use go_bpmn.Enum.TaskType as TaskType
use go_bpmn.Enum.TaskType.{TaskType}
use go_bpmn.Entity.{no_text, no_timestamp, valid_text, valid_timestamp}
use go_bpmn.Entity.Task.{TaskEntity}
use go_bpmn.Store.Locking.{Table, QueryOptions, no_page, lock_table, unlock_table, query_table}
use go_bpmn.Store.Partitions.{insert_row, select_row, update_row}
use go_bpmn.Jobs.Repository.{accepts}

abbrev pub TaskTable : Type 0
TaskTable = Table TaskEntity

abbrev pub set_id : ℕ → TaskEntity → TaskEntity
set_id n e = record e { id = n }

unfoldable pub insert : TaskEntity → TaskTable → TaskTable × TaskEntity
unfolding insert_row
insert e t = insert_row set_id e.partition e t

unfoldable pub insert_batch : List TaskEntity → TaskTable → TaskTable
unfolding insert
insert_batch [] t = t
insert_batch (e ∷ es) t = insert_batch es (insert e t).0

unfoldable pub select : ℕ → ℕ → TaskTable → Option TaskEntity
unfolding select_row
select partition id t = select_row (λ e. e.id) partition id t

unfoldable pub update : TaskEntity → TaskTable → Option TaskTable
unfolding update_row
update e t = update_row (λ x. x.id) e.partition e t

-- `engine.ExecuteTasksCmd`: a number of 0, and the type that is unset, is no condition.
pub record ExecuteTasksCmd : Type 0 where
  pub partition : ℕ
  pub id : ℕ
  pub process_id : ℕ
  pub process_instance_id : ℕ
  pub type : TaskType
  pub limit : ℤ

abbrev pub accepts_type : TaskType → TaskType → Bool
accepts_type wanted t = TaskType.is_unset wanted || TaskType.same wanted t

unfoldable pub is_free : ExecuteTasksCmd → ℕ → TaskEntity → Bool
is_free cmd now e =
    not (e.locked_at.valid || ltb now e.due_at)
    && accepts cmd.id e.id
    && accepts cmd.process_id e.process_id.int32
    && accepts cmd.process_instance_id e.process_instance_id.int32
    && accepts_type cmd.type e.type

unfoldable pub mark : String → ℕ → TaskEntity → TaskEntity
mark engine_id now e = record e {
  locked_at = valid_timestamp now;
  locked_by = valid_text engine_id;
  state = locked;
}

-- A limit that is not positive is 1.
unfoldable pub lock : String → ExecuteTasksCmd → ℕ → TaskTable → TaskTable × List TaskEntity
unfolding lock_table is_free mark
lock engine_id cmd now t =
    let limit = if is_pos cmd.limit then cmd.limit else pos 1 in
    lock_table (is_free cmd now) (mark engine_id now) cmd.partition limit 0 t

-- `engine.UnlockTasksCmd`.
pub record UnlockTasksCmd : Type 0 where
  pub partition : ℕ
  pub id : ℕ
  pub engine_id : String

unfoldable pub is_held : UnlockTasksCmd → TaskEntity → Bool
is_held cmd e =
    not (e.completed_at.valid || not e.locked_by.valid)
    && str_eq cmd.engine_id e.locked_by.string
    && accepts cmd.id e.id

unfoldable pub release : TaskEntity → TaskEntity
release e = record e { locked_at = no_timestamp; locked_by = no_text; state = created }

-- Also `UnlockTasks` of engine/internal/task.go.
unfoldable pub unlock : UnlockTasksCmd → TaskTable → TaskTable × ℕ
unfolding unlock_table is_held release
unlock cmd t = unlock_table (is_held cmd) release cmd.partition t

-- `engine.TaskCriteria`.
pub record TaskCriteria : Type 0 where
  pub partition : ℕ
  pub id : ℕ
  pub element_id : ℕ
  pub element_instance_id : ℕ
  pub process_id : ℕ
  pub process_instance_id : ℕ
  pub type : TaskType

unfoldable pub matches : TaskCriteria → TaskEntity → Bool
matches c e =
    accepts c.id e.id
    && accepts c.element_id e.element_id.int32
    && accepts c.element_instance_id e.element_instance_id.int32
    && accepts c.process_id e.process_id.int32
    && accepts c.process_instance_id e.process_instance_id.int32
    && accepts_type c.type e.type

-- What a task is shown as is the entity with the zero value in place of what is not valid, so it is left as
-- it is; a task that is created shows as due from its time on.
unfoldable pub show_at : ℕ → TaskEntity → TaskEntity
show_at now e =
    if WorkState.same e.state created && not (ltb now e.due_at) then record e { state = due } else e

unfoldable pub query : TaskCriteria → QueryOptions → ℕ → TaskTable → List TaskEntity
unfolding query_table matches show_at
query c o now t = (query_table (matches c) (show_at now) o c.partition t no_page).results
