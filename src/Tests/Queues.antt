-- ===== src/Tests/Queues.antt =====
-- The queue of the BPMN process "order" with a parallelism of 1: the process instance 1 is active, 2
-- waits, and 3 is created.
use go_bpmn.Shared.{ℕ, ◌≡◌, refl, none, some, [], ◌∷◌, pos, lookup, insert, ok, ◌+ℤ◌, ◌-ℤ◌}
use go_bpmn.Enum.InstanceState.{started}
use go_bpmn.Entity.{
  ProcessInstanceEntity, no_int4, no_text, no_timestamp, valid_int4, valid_timestamp,
}
use go_bpmn.Store.Rows.{set_rows, find_row, replace_row}
use go_bpmn.Queue.Table.{
  ProcessInstanceQueueEntity, ProcessInstanceQueueElementEntity, Tables, element_id, upsert, select,
  update, select_element, update_element, insert_element, update_process_instance, insert_task,
  add_task,
}
use go_bpmn.Queue.Operations.{
  single_element, start_task, enqueue_process_instance, add_element, count_instance,
  dequeue_process_instance_of, start_head,
}
use go_bpmn.Queue.Contract.{Waiting, arrive, leave, Represents}
use go_bpmn.Queue.Refines.Enqueue.{
  Enqueued, instance_after, row_after, enqueue_process_instance-Enqueued,
}
use go_bpmn.Queue.Refines.Dequeue.{Dequeued, dequeue_process_instance-Dequeued}
use go_bpmn.Queue.Refines.Upsert.{upsert-Represents}
use go_bpmn.Queue.Runs.{Run, rest, create, finish, Within}
use go_bpmn.Queue.Order.{Served, Run-Served}

abbrev instance_of : ℕ → ProcessInstanceEntity
instance_of n = record {
  partition = 7;
  id = n;
  parent_id = no_int4;
  root_id = no_int4;
  message_id = no_int4;
  process_id = 4;
  bpmn_process_id = "order";
  correlation_key = no_text;
  created_at = 100;
  created_by = "worker";
  ended_at = no_timestamp;
  started_at = valid_timestamp 100;
  state = started;
  tags = no_text;
  version = "1";
}

abbrev queue : ProcessInstanceQueueEntity
queue = record {
  bpmn_process_id = "order";
  parallelism = pos 1;
  active_count = pos 1;
  queued_count = pos 1;
  head_partition = valid_timestamp 7;
  head_id = valid_int4 2;
  tail_partition = valid_timestamp 7;
  tail_id = valid_int4 2;
}

abbrev tables : Tables
tables = record {
  queues = ("order", queue) ∷ [];
  queue_elements = set_rows 7 (single_element (instance_of 2) ∷ []) (λ k. []);
  process_instances = set_rows 7 (instance_of 1 ∷ instance_of 2 ∷ instance_of 3 ∷ []) (λ k. []);
  tasks = λ k. [];
  time = 200;
  date = 8;
  engine_id = "engine";
}

abbrev waiting_2 : Waiting
waiting_2 = record { parallelism = pos 1; active = pos 1; keys = (7, 2) ∷ [] }

holds : Represents tables "order" waiting_2
unfolding lookup find_row
holds = record {
  queue = queue;
  stored = refl;
  named = refl;
  parallelism = refl;
  active = refl;
  size = refl;
  ends = (refl, refl, refl, refl, (single_element (instance_of 2), refl, (refl, refl), refl));
}

stored_3 :
    find_row (λ (x : ProcessInstanceEntity). x.id) 3 (tables.process_instances 7)
    ≡ some (instance_of 3)
unfolding find_row
stored_3 = refl

new_3 : find_row element_id 3 (tables.queue_elements 7) ≡ none
unfolding find_row
new_3 = refl

enqueue_process_instance-Enqueued_example :
    Enqueued
      (instance_of 3)
      (instance_after waiting_2 (instance_of 3))
      (row_after waiting_2 (instance_of 3) (instance_of 3))
      tables
      (arrive (7, 3) waiting_2)
enqueue_process_instance-Enqueued_example =
    enqueue_process_instance-Enqueued tables waiting_2 (instance_of 3) (instance_of 3) holds
      stored_3 new_3

dequeue_process_instance-Dequeued_example :
    Dequeued (instance_of 1) "engine" tables (leave waiting_2).0 (leave waiting_2).1
dequeue_process_instance-Dequeued_example =
    dequeue_process_instance-Dequeued tables waiting_2 (instance_of 1) "engine" holds

upsert-Represents_example :
    Represents (upsert queue tables).1 "order" waiting_2
    × ((upsert queue tables).0.active_count ≡ pos 1)
    × ((upsert queue tables).0.queued_count ≡ pos 1)
upsert-Represents_example = upsert-Represents queue tables waiting_2 holds

-- The process instance 3 is created, and the process instance 1 ends.
abbrev waiting_3 : ProcessInstanceEntity
waiting_3 = instance_after waiting_2 (instance_of 3)

abbrev link : ℕ → ℕ → ProcessInstanceQueueElementEntity
link n m = record (single_element (instance_of n)) {
  next_partition = valid_timestamp 7;
  next_id = valid_int4 m;
}

abbrev enqueued : Tables
enqueued = record tables {
  queues =
      (
        "order",
        record queue {
          queued_count = pos 2;
          tail_partition = valid_timestamp 7;
          tail_id = valid_int4 3;
        },
      )
      ∷ [];
  queue_elements =
      set_rows 7
        (link 2 3
          ∷ record (single_element (instance_of 3)) {
            prev_partition = valid_timestamp 7;
            prev_id = valid_int4 2;
          }
          ∷ [])
        (set_rows 7 (link 2 3 ∷ []) tables.queue_elements);
  process_instances =
      set_rows 7 (instance_of 1 ∷ instance_of 2 ∷ waiting_3 ∷ []) tables.process_instances;
}

enqueued_result : enqueue_process_instance (instance_of 3) tables ≡ ok (waiting_3, enqueued)
unfolding enqueue_process_instance add_element count_instance select update select_element
    update_element insert_element update_process_instance find_row replace_row lookup insert ◌+ℤ◌
    ◌-ℤ◌
enqueued_result = refl

abbrev dequeued : Tables
dequeued = record enqueued {
  queues =
      (
        "order",
        record queue {
          head_id = valid_int4 3;
          tail_partition = valid_timestamp 7;
          tail_id = valid_int4 3;
        },
      )
      ∷ [];
  tasks = add_task (start_task (link 2 3) 200 "engine") enqueued.tasks;
}

dequeued_result : dequeue_process_instance_of (instance_of 1) "engine" enqueued ≡ ok dequeued
unfolding dequeue_process_instance_of start_head select update select_element insert_task find_row
    lookup insert ◌+ℤ◌ ◌-ℤ◌
dequeued_result = refl

run : Run "order" tables ((7, 1) ∷ []) dequeued ((7, 2) ∷ []) ((7, 3) ∷ [])
unfolding find_row
run = create (instance_of 3) (instance_of 3) waiting_3 refl stored_3 refl new_3 enqueued_result (
    finish (instance_of 1) [] [] "engine" (some (7, 2)) refl dequeued_result
      (start_task (link 2 3) 200 "engine", (refl, refl, refl, refl), refl) rest)

Run-Served_example :
    Served "order" tables dequeued waiting_2 ((7, 2) ∷ []) ((7, 3) ∷ [])
    × (Within (pos 1) ((7, 1) ∷ []) → Within (pos 1) ((7, 2) ∷ []))
Run-Served_example =
    Run-Served "order" tables dequeued waiting_2 ((7, 1) ∷ []) ((7, 2) ∷ []) ((7, 3) ∷ []) holds
      refl run
