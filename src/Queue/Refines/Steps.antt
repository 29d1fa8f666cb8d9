-- ===== src/Queue/Refines/Steps.antt =====
-- What the single reads and writes return (engine/mem/process_instance_queue.go).
use go_bpmn.Shared.{
  ℕ, ◌≡◌, refl, true, String, some, pos, ◌+ℤ◌, ok, lookup, lookup-insert, eq_iff, arith, ◌==◌,
  if◌then◌else◌, Bool-cases, inl, inr,
}
use go_bpmn.Enum.InstanceState.{queued}
use go_bpmn.Entity.{ProcessInstanceEntity, no_timestamp, valid_int4, valid_timestamp}
use go_bpmn.Store.Rows.{Partitions, set_rows, find_row-replace_row}
use go_bpmn.Queue.Table.{
  ProcessInstanceQueueEntity, ProcessInstanceQueueElementEntity, Tables, instance_id, select,
  update, select_element, update_process_instance,
}
use go_bpmn.Queue.Operations.{count_instance}
use go_bpmn.Queue.Contract.{Key, element_of, instance_at}
use go_bpmn.Queue.Chain.{same_key}

pub select-stored :
    (id : String) (s : Tables) {q : ProcessInstanceQueueEntity}
    → lookup id s.queues ≡ some q
    → select id s ≡ ok q
unfolding select
select-stored id s h = rw (select, h) refl

pub update-stored :
    (id : String) (q : ProcessInstanceQueueEntity) (s : Tables)
    → q.bpmn_process_id ≡ id
    → lookup id (update q s).queues ≡ some q
unfolding update
update-stored id q s h =
    rw (lookup-insert id q.bpmn_process_id q s.queues, (eq_iff q.bpmn_process_id id).1 h) refl

pub select_element-found :
    (key id : ℕ) (s : Tables) {x : ProcessInstanceQueueElementEntity}
    → element_of s.queue_elements (key, id) ≡ some x
    → select_element key id s ≡ ok x
unfolding select_element
select_element-found key id s h = rw (select_element, h) refl

-- A process instance that waits, and the queue that it waits in.
abbrev pub waiting : ProcessInstanceEntity → ProcessInstanceEntity
waiting p = record p { started_at = no_timestamp; state = queued }

abbrev pub longer : ProcessInstanceEntity → ProcessInstanceQueueEntity → ProcessInstanceQueueEntity
longer p q = record q {
  queued_count = q.queued_count +ℤ pos 1;
  tail_partition = valid_timestamp p.partition;
  tail_id = valid_int4 p.id;
}

-- The rows in which one process instance was written.
abbrev pub Written :
    ProcessInstanceEntity
    → Partitions ProcessInstanceEntity
    → Partitions ProcessInstanceEntity
    → Type 0
Written p ts us =
    (k : Key)
    → instance_at us k ≡ (if same_key (p.partition, p.id) k then some p else instance_at ts k)

update_process_instance-stored :
    (p x : ProcessInstanceEntity) (s : Tables)
    → instance_at s.process_instances (p.partition, p.id) ≡ some x
    → (t : Partitions ProcessInstanceEntity) × (update_process_instance p s
        ≡ ok (record s { process_instances = t }))
      × Written p s.process_instances t
unfolding update_process_instance
update_process_instance-stored p x s stored =
    let (rows, eq, found) =
      find_row-replace_row instance_id p (s.process_instances p.partition) stored in
    (
      set_rows p.partition rows s.process_instances,
      rw (update_process_instance, eq) refl,
      λ k. elim (Bool-cases (k.0 == p.partition)) [
        | inl here ↦ ground (arith, found k.1)
        | inr other ↦ ground arith
      ],
    )

pub count_instance-waiting :
    (p x : ProcessInstanceEntity) (q : ProcessInstanceQueueEntity) (s : Tables)
    → q.head_id.valid ≡ true
    → instance_at s.process_instances (p.partition, p.id) ≡ some x
    → (t : Partitions ProcessInstanceEntity) × (count_instance p q s
        ≡ ok (waiting p, update (longer p q) (record s { process_instances = t })))
      × Written (waiting p) s.process_instances t
unfolding count_instance
count_instance-waiting p x q s head stored =
    let (t, eq, found) = update_process_instance-stored (waiting p) x s stored in
    (t, simp (head, eq), found)
