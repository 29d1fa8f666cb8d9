-- ===== src/Queue/Contract.antt =====
-- What the process instance queue promises: a first-in first-out list of process instances that wait
-- because as many as the parallelism allows are active (engine/internal/process_instance_queue.go).
use go_bpmn.Shared.{
  ℕ, ◌≡◌, Bool, true, false, not, ◌||◌, String, Option, none, some, List, [], ◌∷◌, ◌++◌, ℤ, pos,
  ◌+ℤ◌, ◌-ℤ◌, is_pos, length, lookup, if◌then◌else◌,
}
use go_bpmn.Enum.TaskType.{start_process_instance}
use go_bpmn.Enum.WorkState.{created}
use go_bpmn.Entity.{ProcessInstanceEntity, valid_int4, valid_timestamp}
use go_bpmn.Entity.Task.{TaskEntity}
use go_bpmn.Store.Rows.{Partitions, find_row}
use go_bpmn.Queue.Table.{
  ProcessInstanceQueueEntity, ProcessInstanceQueueElementEntity, Tables, less, element_id,
  instance_id, add_task,
}

-- A process instance: its partition and its ID.
abbrev pub Key : Type 0
Key = ℕ × ℕ

pub record Waiting : Type 0 where
  pub parallelism : ℤ
  pub active : ℤ
  pub keys : List Key

-- A parallelism that is not positive is no bound.
abbrev pub has_capacity : Waiting → Bool
has_capacity w = not (is_pos w.parallelism) || less w.active w.parallelism

abbrev pub arrive_at : List Key → Key → Waiting → Waiting
arrive_at [] k w =
    if has_capacity w then record w { active = w.active +ℤ pos 1 } else record w { keys = k ∷ [] }
arrive_at (j ∷ js) k w = record w { keys = (j ∷ js) ++ k ∷ [] }

-- A process instance is created: it is active at once if none waits and there is capacity.
abbrev pub arrive : Key → Waiting → Waiting
arrive k w = arrive_at w.keys k w

abbrev pub waits_at : List Key → Waiting → Bool
waits_at [] w = not (has_capacity w)
waits_at (j ∷ js) w = true

-- Whether a process instance that is created has to wait.
abbrev pub waits : Waiting → Bool
waits w = waits_at w.keys w

abbrev pub start_at : List Key → Waiting → Waiting × Option Key
start_at [] w = (w, none)
start_at (k ∷ ks) w =
    if has_capacity w
    then (record w { active = w.active +ℤ pos 1; keys = ks }, some k)
    else (w, none)

-- The one that waits longest starts if there is capacity.
abbrev pub start_next : Waiting → Waiting × Option Key
start_next w = start_at w.keys w

-- An active process instance ends.
abbrev pub leave : Waiting → Waiting × Option Key
leave w = start_next (record w { active = w.active -ℤ pos 1 })

abbrev pub Elements : Type 0
Elements = Partitions ProcessInstanceQueueElementEntity

abbrev pub element_of : Elements → Key → Option ProcessInstanceQueueElementEntity
element_of t k = find_row element_id k.1 (t k.0)

abbrev pub instance_at : Partitions ProcessInstanceEntity → Key → Option ProcessInstanceEntity
instance_at t k = find_row instance_id k.1 (t k.0)

-- An element's own key.
abbrev pub At : Key → ProcessInstanceQueueElementEntity → Type 0
At k x = (x.partition ≡ k.0) × (x.id ≡ k.1)

-- The elements are linked from the first key to the last one, which links to none.
abbrev pub Linked : Elements → Key → List Key → Type 0
Linked t k [] =
    (x : ProcessInstanceQueueElementEntity) × (element_of t k ≡ some x)
    × At k x
    × (x.next_id.valid ≡ false)
Linked t k (j ∷ js) =
    (x : ProcessInstanceQueueElementEntity) × (element_of t k ≡ some x)
    × At k x
    × (x.next_id ≡ valid_int4 j.1)
    × (x.next_partition ≡ valid_timestamp j.0)
    × Linked t j js

abbrev pub last : Key → List Key → Key
last k [] = k
last k (j ∷ js) = last j js

abbrev pub HasEnds : Elements → ProcessInstanceQueueEntity → List Key → Type 0
HasEnds t q [] = (q.head_id.valid ≡ false) × (q.tail_id.valid ≡ false)
HasEnds t q (k ∷ ks) =
    (q.head_id ≡ valid_int4 k.1)
    × (q.head_partition ≡ valid_timestamp k.0)
    × (q.tail_id ≡ valid_int4 (last k ks).1)
    × (q.tail_partition ≡ valid_timestamp (last k ks).0)
    × Linked t k ks

-- The tables hold the queue of the BPMN process.
pub record Represents (s : Tables) (id : String) (w : Waiting) : Type 0 where
  pub queue : ProcessInstanceQueueEntity
  pub stored : lookup id s.queues ≡ some queue
  pub named : queue.bpmn_process_id ≡ id
  pub parallelism : queue.parallelism ≡ w.parallelism
  pub active : queue.active_count ≡ w.active
  pub size : queue.queued_count ≡ pos (length w.keys)
  pub ends : HasEnds s.queue_elements queue w.keys

-- The task that starts the process instance.
abbrev pub Starts : Key → TaskEntity → Type 0
Starts k t =
    (t.type ≡ start_process_instance)
    × (t.state ≡ created)
    × (t.partition ≡ k.0)
    × (t.process_instance_id ≡ valid_int4 k.1)

-- The tasks afterwards: one more, if a process instance starts.
abbrev pub Started : Option Key → Partitions TaskEntity → Partitions TaskEntity → Type 0
Started none ts ts' = ts' ≡ ts
Started (some k) ts ts' = (t : TaskEntity) × Starts k t × (ts' ≡ add_task t ts)
