-- ===== src/Queue/Refines/Task.antt =====
-- `DequeueProcessInstanceTask` (engine/internal/process_instance.go) against the contract.
use go_bpmn.Shared.{
  lookup, str_eq, ◌≡◌, Bool, true, false, ◌&&◌, String, Option, List, [], ◌∷◌, ok, if◌then◌else◌,
}
use go_bpmn.Enum.WorkState.{canceled}
use go_bpmn.Entity.Task.{TaskEntity}
use go_bpmn.Store.Rows.{Partitions}
use go_bpmn.Queue.Table.{
  ProcessInstanceQueueEntity, Tables, must_dequeue, update, insert_task, add_task,
}
use go_bpmn.Queue.Operations.{next_dequeue, execute_dequeue}
use go_bpmn.Queue.Contract.{Key, Waiting, has_capacity, Represents, Started}

abbrev pub is_waiting : List Key → Bool
is_waiting [] = false
is_waiting (k ∷ ks) = true

-- Whether another process instance could start.
abbrev pub can_start : Waiting → Bool
can_start w = is_waiting w.keys && has_capacity w

-- The outcome that the contract asks for: another task follows as long as a process instance can start.
pub record Executed (id : String) (task : TaskEntity) (s : Tables) (starts_one : Bool) (w : Waiting)
    (started : Option Key) : Type 0 where
  pub tables : Tables
  pub result :
      execute_dequeue id task s
      ≡ ok (if starts_one then task else record task { state = canceled }, tables)
  pub represents : Represents tables id w
  pub idle : starts_one ≡ false → tables ≡ s
  pub queues :
      (other : String)
      → str_eq id other ≡ false
      → lookup other tables.queues ≡ lookup other s.queues
  pub others : tables ≡ record s { queues = tables.queues; tasks = tables.tasks }
  pub between : Partitions TaskEntity
  pub starts : Started started s.tasks between
  pub follows :
      tables.tasks
      ≡ (if starts_one && can_start w then add_task (next_dequeue id task s) between else between)

module _ (id : String) (task : TaskEntity) (s : Tables) where
  -- What the head's start leaves.
  abbrev tables_after : ProcessInstanceQueueEntity → TaskEntity → Tables
  tables_after q t =
      let s' = update q (insert_task t s) in
      if must_dequeue q then insert_task (next_dequeue id task s) s' else s'

  abbrev left : ProcessInstanceQueueEntity → TaskEntity → Bool → Tables
  left q t b =
      if b
      then insert_task (next_dequeue id task s) (update q (insert_task t s))
      else update q (insert_task t s)
