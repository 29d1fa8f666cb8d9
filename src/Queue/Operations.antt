-- ===== src/Queue/Operations.antt =====
-- `enqueueProcessInstance` and `dequeueProcessInstance`
-- (engine/internal/process_instance_queue.go), and `DequeueProcessInstanceTask.Execute`
-- (engine/internal/process_instance.go). A process instance or task that the code mutates is part of
-- the result, with the tables.
use go_bpmn.Shared.{ℕ, String, some, pos, ◌+ℤ◌, ◌-ℤ◌, Result, ok, ◌>>=◌, if◌then◌else◌}
use go_bpmn.Enum.InstanceState.{queued}
use go_bpmn.Enum.TaskType.{start_process_instance, dequeue_process_instance}
use go_bpmn.Enum.WorkState.{created, canceled}
use go_bpmn.Entity.{ProcessInstanceEntity, no_int4, no_timestamp, valid_int4, valid_timestamp}
use go_bpmn.Entity.Task.{
  TaskEntity, no_task, start_process_instance_task, dequeue_process_instance_task,
}
use go_bpmn.Queue.Table.{
  ProcessInstanceQueueEntity, ProcessInstanceQueueElementEntity, Tables, must_dequeue, must_enqueue,
  select, update, insert_element, select_element, update_element, update_process_instance,
  insert_task,
}

-- An element that no other element follows or precedes.
abbrev pub single_element : ProcessInstanceEntity → ProcessInstanceQueueElementEntity
single_element p = record {
  partition = p.partition;
  id = p.id;
  process_id = p.process_id;
  next_partition = no_timestamp;
  next_id = no_int4;
  prev_partition = no_timestamp;
  prev_id = no_int4;
}

-- The new element becomes the last or the only one, unless the process instance need not wait.
unfoldable pub add_element :
    ProcessInstanceEntity
    → ProcessInstanceQueueEntity
    → Tables
    → Result (ProcessInstanceQueueEntity × Tables)
add_element p q s =
    if q.tail_id.valid
    then (do
      old ← select_element q.tail_partition.time q.tail_id.int32 s
      s' ←
          update_element
            (record old { next_partition = valid_timestamp p.partition; next_id = valid_int4 p.id })
            s
      ok (
        q,
        insert_element
            (record (single_element p) {
              prev_partition = valid_timestamp old.partition;
              prev_id = valid_int4 old.id;
            })
            s',
      ))
    else if must_enqueue q
    then ok (
      record q { head_partition = valid_timestamp p.partition; head_id = valid_int4 p.id },
      insert_element (single_element p) s,
    )
    else ok (q, s)

-- The process instance waits if the queue is not empty.
unfoldable pub count_instance :
    ProcessInstanceEntity
    → ProcessInstanceQueueEntity
    → Tables
    → Result (ProcessInstanceEntity × Tables)
count_instance p q s =
    if q.head_id.valid
    then (do
      let waiting = record p { started_at = no_timestamp; state = queued }
      s' ← update_process_instance waiting s
      ok (
        waiting,
        update
            (record q {
              queued_count = q.queued_count +ℤ pos 1;
              tail_partition = valid_timestamp p.partition;
              tail_id = valid_int4 p.id;
            })
            s',
      ))
    else ok (p, update (record q { active_count = q.active_count +ℤ pos 1 }) s)

unfoldable pub enqueue_process_instance :
    ProcessInstanceEntity → Tables → Result (ProcessInstanceEntity × Tables)
enqueue_process_instance p s = do
  q ← select p.bpmn_process_id s
  r ← add_element p q s
  count_instance p r.0 r.1

abbrev pub start_task : ProcessInstanceQueueElementEntity → ℕ → String → TaskEntity
start_task head time created_by = record no_task {
  partition = head.partition;
  process_id = valid_int4 head.process_id;
  process_instance_id = valid_int4 head.id;
  created_at = time;
  created_by = created_by;
  due_at = time;
  state = created;
  type = start_process_instance;
  instance_task = some start_process_instance_task;
}

-- The queue behind its head.
abbrev pub drop_head :
    ProcessInstanceQueueElementEntity → ProcessInstanceQueueEntity → ProcessInstanceQueueEntity
drop_head head q =
    if head.next_id.valid
    then record q { head_id = head.next_id; head_partition = head.next_partition }
    else record q {
      head_id = no_int4;
      head_partition = no_timestamp;
      tail_id = no_int4;
      tail_partition = no_timestamp;
    }

-- The head leaves the queue, and a task starts its process instance.
unfoldable pub start_head :
    ProcessInstanceQueueEntity → String → Tables → Result (ProcessInstanceQueueEntity × Tables)
start_head q created_by s = do
  head ← select_element q.head_partition.time q.head_id.int32 s
  ok (
    record (drop_head head q) {
      active_count = q.active_count +ℤ pos 1;
      queued_count = q.queued_count -ℤ pos 1;
    },
    insert_task (start_task head s.time created_by) s,
  )

unfoldable pub dequeue_process_instance_of : ProcessInstanceEntity → String → Tables → Result Tables
dequeue_process_instance_of p engine_or_worker_id s = do
  q ← select p.bpmn_process_id s
  let left = record q { active_count = q.active_count -ℤ pos 1 }
  let start = start_head left engine_or_worker_id s
  r ← if must_dequeue left then start else ok (left, s)
  ok (update r.0 r.1)

abbrev pub next_dequeue : String → TaskEntity → Tables → TaskEntity
next_dequeue bpmn_process_id task s = record no_task {
  partition = s.date;
  process_id = task.process_id;
  created_at = s.time;
  created_by = s.engine_id;
  due_at = s.time;
  state = created;
  type = dequeue_process_instance;
  instance_task = some (dequeue_process_instance_task bpmn_process_id);
}

unfoldable pub execute_dequeue : String → TaskEntity → Tables → Result (TaskEntity × Tables)
execute_dequeue bpmn_process_id task s = do
  q ← select bpmn_process_id s
  let start = do
    r ← start_head q s.engine_id s
    let s' = update r.0 r.1
    ok (task, if must_dequeue r.0 then insert_task (next_dequeue bpmn_process_id task s) s' else s')
  if must_dequeue q then start else ok (record task { state = canceled }, s)
