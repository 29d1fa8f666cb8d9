-- ===== src/Queue/Table.antt =====
-- The queue's entities and the operations of its in-memory repository
-- (engine/internal/process_instance_queue.go, engine/mem/process_instance_queue.go), with the two
-- other tables that the queue writes to (engine/mem/process_instance.go, engine/mem/task.go).
use go_bpmn.Shared.{
  ℕ, ◌+◌, Bool, not, ◌&&◌, ◌||◌, String, none, some, List, [], ◌∷◌, ◌++◌, ℤ, pos, ◌-ℤ◌, is_neg,
  is_pos, Result, ok, err, error, length, str_append, itoa, lookup, insert,
}
use go_bpmn.Entity.{Int4, Timestamp, ProcessInstanceEntity}
use go_bpmn.Entity.Task.{TaskEntity}
use go_bpmn.Store.Rows.{Partitions, set_rows, find_row, replace_row}

pub record ProcessInstanceQueueEntity : Type 0 where
  pub bpmn_process_id : String
  pub parallelism : ℤ
  pub active_count : ℤ
  pub queued_count : ℤ
  pub head_partition : Timestamp
  pub head_id : Int4
  pub tail_partition : Timestamp
  pub tail_id : Int4

-- `x < y` on integers.
abbrev pub less : ℤ → ℤ → Bool
less x y = is_neg (x -ℤ y)

abbrev pub must_dequeue : ProcessInstanceQueueEntity → Bool
must_dequeue q =
    is_pos q.queued_count && (not (is_pos q.parallelism) || less q.active_count q.parallelism)

abbrev pub must_enqueue : ProcessInstanceQueueEntity → Bool
must_enqueue q = is_pos q.parallelism && not (less q.active_count q.parallelism)

pub record ProcessInstanceQueueElementEntity : Type 0 where
  pub partition : ℕ
  pub id : ℕ
  pub process_id : ℕ
  pub next_partition : Timestamp
  pub next_id : Int4
  pub prev_partition : Timestamp
  pub prev_id : Int4

-- The tables, and what the context knows besides: its time, its date and the engine's ID.
pub record Tables : Type 0 where
  pub queues : List (String × ProcessInstanceQueueEntity)
  pub queue_elements : Partitions ProcessInstanceQueueElementEntity
  pub process_instances : Partitions ProcessInstanceEntity
  pub tasks : Partitions TaskEntity
  pub time : ℕ
  pub date : ℕ
  pub engine_id : String

abbrev pub element_id : ProcessInstanceQueueElementEntity → ℕ
element_id x = x.id

abbrev pub instance_id : ProcessInstanceEntity → ℕ
instance_id x = x.id

-- How a date is written is not modelled: the number of the day stands for it.
abbrev no_rows : String → ℕ → ℕ → String
no_rows what key id = str_append what (
    str_append (itoa (pos key))
      (str_append "/" (str_append (itoa (pos id)) ": no rows in result set")))

unfoldable pub select : String → Tables → Result ProcessInstanceQueueEntity
select id s = elim (lookup id s.queues) [
  | none ↦ err (
      error (
        str_append "failed to select process instance queue "
          (str_append id ": no rows in result set")))
  | some q ↦ ok q
]

unfoldable pub update : ProcessInstanceQueueEntity → Tables → Tables
update q s = record s { queues = insert q.bpmn_process_id q s.queues }

-- The entity's counts are those of the queue that is there already.
unfoldable pub upsert : ProcessInstanceQueueEntity → Tables → ProcessInstanceQueueEntity × Tables
upsert entity s = elim (lookup entity.bpmn_process_id s.queues) [
  | none ↦ (entity, record s { queues = insert entity.bpmn_process_id entity s.queues })
  | some q ↦ (
    record entity { active_count = q.active_count; queued_count = q.queued_count },
    record s {
      queues =
          insert entity.bpmn_process_id (record q { parallelism = entity.parallelism }) s.queues;
    },
  )
]

unfoldable pub insert_element : ProcessInstanceQueueElementEntity → Tables → Tables
insert_element x s = record s {
  queue_elements = set_rows x.partition (s.queue_elements x.partition ++ x ∷ []) s.queue_elements;
}

unfoldable pub select_element : ℕ → ℕ → Tables → Result ProcessInstanceQueueElementEntity
select_element key id s = elim (find_row element_id id (s.queue_elements key)) [
  | none ↦ err (error (no_rows "failed to select process instance queue element " key id))
  | some x ↦ ok x
]

unfoldable pub update_element : ProcessInstanceQueueElementEntity → Tables → Result Tables
update_element x s = elim (replace_row element_id x (s.queue_elements x.partition)) [
  | none ↦ err (error (no_rows "failed to update process instance queue element " x.partition x.id))
  | some rows ↦ ok (record s { queue_elements = set_rows x.partition rows s.queue_elements })
]

unfoldable pub update_process_instance : ProcessInstanceEntity → Tables → Result Tables
update_process_instance x s = elim (replace_row instance_id x (s.process_instances x.partition)) [
  | none ↦ err (error (no_rows "failed to update process instance " x.partition x.id))
  | some rows ↦ ok (record s { process_instances = set_rows x.partition rows s.process_instances })
]

-- The ID of a new task is its position in its partition, from 1.
abbrev pub add_task : TaskEntity → Partitions TaskEntity → Partitions TaskEntity
add_task t ts =
    set_rows t.partition (ts t.partition ++ record t { id = length (ts t.partition) + 1 } ∷ []) ts

unfoldable pub insert_task : TaskEntity → Tables → Tables
insert_task t s = record s { tasks = add_task t s.tasks }
