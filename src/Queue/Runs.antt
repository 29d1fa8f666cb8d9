-- ===== src/Queue/Runs.antt =====
-- Runs of many operations on the queue of a BPMN process
-- (engine/internal/process_instance_queue.go).
use go_bpmn.Shared.{
  Bool, length, ℕ, ◌≡◌, true, false, String, Option, none, some, List, [], ◌∷◌, ◌++◌, ℤ, pos, ◌≤ℤ◌,
  is_pos, ok, if◌then◌else◌,
}
use go_bpmn.Enum.InstanceState.{same, queued}
use go_bpmn.Entity.{ProcessInstanceEntity}
use go_bpmn.Entity.Task.{TaskEntity}
use go_bpmn.Store.Rows.{Partitions}
use go_bpmn.Queue.Table.{Tables, add_task}
use go_bpmn.Queue.Operations.{enqueue_process_instance, dequeue_process_instance_of}
use go_bpmn.Queue.Contract.{Key, instance_at, element_of, Starts, Started}
use go_bpmn.Queue.Fifo.{keys_of}
use go_bpmn.Queue.Refines.Add.{instance_key}

abbrev pub in_state_queued : Option ProcessInstanceEntity → Bool
in_state_queued none = false
in_state_queued (some x) = same x.state queued

-- Whether the row of the process instance has state QUEUED.
abbrev pub is_queued : Key → Tables → Bool
is_queued k s = in_state_queued (instance_at s.process_instances k)

-- The process instance, if it is created and has to wait.
abbrev pub joined : Key → Tables → List Key
joined k s = if is_queued k s then k ∷ [] else []

-- The process instance, if it is created and is active at once.
abbrev pub begun : Key → Tables → List Key
begun k s = if is_queued k s then [] else k ∷ []

-- A run of the engine as the queue of a BPMN process sees it: process instances are created, active ones
-- end, and between that, the process instances and the time change. A run has the tables and the active
-- process instances before and after it, and the process instances whose row had state QUEUED when they were
-- created, in that order. A process instance is active from its creation on, if its row is not QUEUED then,
-- or from the creation of the task that starts it, until it ends. That a process instance is
-- terminated while it is QUEUED is not a step.
pub data Run (id : String) : Tables → List Key → Tables → List Key → List Key → Type 0 where
  rest : {s : Tables} {a : List Key} → Run id s a s a []
  create :
      {s s' u : Tables} {a b ks : List Key} (p x p' : ProcessInstanceEntity)
      → p.bpmn_process_id ≡ id
      → instance_at s.process_instances (instance_key p) ≡ some x
      → same x.state queued ≡ false
      → element_of s.queue_elements (instance_key p) ≡ none
      → enqueue_process_instance p s ≡ ok (p', s')
      → Run id s' (begun (instance_key p) s' ++ a) u b ks
      → Run id s a u b (joined (instance_key p) s' ++ ks)
  finish :
      {s s' u : Tables} {b ks : List Key} (p : ProcessInstanceEntity) (before behind : List Key)
      (engine_or_worker_id : String) (next : Option Key)
      → p.bpmn_process_id ≡ id
      → dequeue_process_instance_of p engine_or_worker_id s ≡ ok s'
      → Started next s.tasks s'.tasks
      → Run id s' (keys_of next ++ (before ++ behind)) u b ks
      → Run id s (before ++ instance_key p ∷ behind) u b ks
  change :
      {s u : Tables} {a b ks : List Key} (process_instances : Partitions ProcessInstanceEntity)
      (time date : ℕ)
      → Run id
          (record s { process_instances = process_instances; time = time; date = date })
          a
          u
          b
          ks
      → Run id s a u b ks

-- The tasks that were created start these process instances, in this order.
abbrev pub StartedAll : List Key → Partitions TaskEntity → Partitions TaskEntity → Type 0
StartedAll [] ts us = us ≡ ts
StartedAll (k ∷ ks) ts us = (t : TaskEntity) × Starts k t × StartedAll ks (add_task t ts) us

-- No more are active than a positive parallelism allows.
abbrev pub Within : ℤ → List Key → Type 0
Within parallelism a = is_pos parallelism ≡ true → pos (length a) ≤ℤ parallelism
