-- ===== src/Queue/Refines/Dequeue.antt =====
-- `dequeueProcessInstance` (engine/internal/process_instance_queue.go) against the contract.
use go_bpmn.Shared.{
  suc, ◌≡◌, refl, ap, ◌∙◌, true, false, String, Option, none, some, List, [], ◌∷◌, pos, ◌+ℤ◌, ◌-ℤ◌,
  int_laws, pos_part, neg_part, ok, length, Bool-cases, inl, inr,
}
use go_bpmn.Entity.{ProcessInstanceEntity, valid_int4, valid_timestamp}
use go_bpmn.Entity.Task.{TaskEntity}
use go_bpmn.Queue.Table.{
  ProcessInstanceQueueEntity, ProcessInstanceQueueElementEntity, Tables, must_dequeue, update,
  select_element, insert_task,
}
use go_bpmn.Queue.Operations.{start_task, drop_head, start_head, dequeue_process_instance_of}
use go_bpmn.Queue.Contract.{
  Key, Waiting, has_capacity, leave, element_of, At, HasEnds, Represents, Starts, Started,
}
use go_bpmn.Queue.Refines.Steps.{select-stored, update-stored, select_element-found}

-- What starting the head returns: the queue behind it, with the counts, and the task.
pub record StartedHead (q : ProcessInstanceQueueEntity) (s : Tables) (by : String) (k : Key)
    (ks : List Key) : Type 0 where
  pub queue : ProcessInstanceQueueEntity
  pub task : TaskEntity
  pub result : start_head q by s ≡ ok (queue, insert_task task s)
  pub named : queue.bpmn_process_id ≡ q.bpmn_process_id
  pub parallelism : queue.parallelism ≡ q.parallelism
  pub active : queue.active_count ≡ q.active_count +ℤ pos 1
  pub size : queue.queued_count ≡ q.queued_count -ℤ pos 1
  pub starts : Starts k task
  pub ends : HasEnds s.queue_elements queue ks

head_found :
    (q : ProcessInstanceQueueEntity) (s : Tables) (k : Key) (x : ProcessInstanceQueueElementEntity)
    → q.head_id ≡ valid_int4 k.1
    → q.head_partition ≡ valid_timestamp k.0
    → element_of s.queue_elements k ≡ some x
    → select_element q.head_partition.time q.head_id.int32 s ≡ ok x
head_found q s k x head day found =
    select_element-found q.head_partition.time q.head_id.int32 s {x = x}
      (rw (ap (λ y. y.time) day, ap (λ y. y.int32) head) found)

-- The counts and the name do not depend on where the queue's ends are.
started_head :
    (q : ProcessInstanceQueueEntity) (s : Tables) (by : String) (k : Key) (ks : List Key)
    (x : ProcessInstanceQueueElementEntity)
    → At k x
    → select_element q.head_partition.time q.head_id.int32 s ≡ ok x
    → HasEnds s.queue_elements (drop_head x q) ks
    → StartedHead q s by k ks
unfolding start_head
started_head q s by k ks x at found ends = record {
  queue = record (drop_head x q) {
    active_count = q.active_count +ℤ pos 1;
    queued_count = q.queued_count -ℤ pos 1;
  };
  task = start_task x s.time by;
  result = rw found refl;
  named = kept.0;
  parallelism = kept.1;
  active = refl;
  size = refl;
  starts = (refl, refl, at.0, ap valid_int4 at.1);
  ends = same_ends ks ends;
}
  where
    kept :
        ((drop_head x q).bpmn_process_id ≡ q.bpmn_process_id)
        × ((drop_head x q).parallelism ≡ q.parallelism)
    kept = elim (Bool-cases x.next_id.valid) [
      | inl more ↦ simp more (refl, refl)
      | inr last_one ↦ simp last_one (refl, refl)
    ]

    same_ends :
        (ls : List Key)
        → HasEnds s.queue_elements (drop_head x q) ls
        → HasEnds s.queue_elements
            (record (drop_head x q) {
              active_count = q.active_count +ℤ pos 1;
              queued_count = q.queued_count -ℤ pos 1;
            })
            ls
    same_ends [] h = h
    same_ends (l ∷ ls) h = h

pub start_head-StartedHead :
    (q : ProcessInstanceQueueEntity) (s : Tables) (by : String) (k : Key) (ks : List Key)
    → HasEnds s.queue_elements q (k ∷ ks)
    → StartedHead q s by k ks
start_head-StartedHead q s by k [] (head, day, tail, tail_day, (x, found, at, ends)) =
    started_head q s by k [] x at (head_found q s k x head day found) (rw ends (refl, refl))
start_head-StartedHead q s by k (j ∷ js)
      (head, day, tail, tail_day, (x, found, at, next, next_day, rest)) =
    started_head q s by k (j ∷ js) x at (head_found q s k x head day found)
      (simp (ap (λ y. y.valid) next) (next, next_day, tail, tail_day, rest))

-- The tables after the head of the stored queue has started.
pub started-Represents :
    (s : Tables) (id : String) (w : Waiting) (r : Represents s id w)
    (q : ProcessInstanceQueueEntity) (by : String) (k : Key) (ks : List Key)
    → w.keys ≡ k ∷ ks
    → q.bpmn_process_id ≡ r.queue.bpmn_process_id
    → q.parallelism ≡ w.parallelism
    → q.queued_count ≡ pos (suc (length ks))
    → (h : StartedHead q s by k ks)
    → Represents
        (update h.queue (insert_task h.task s))
        id
        (record { parallelism = w.parallelism; active = q.active_count +ℤ pos 1; keys = ks })
unfolding update insert_task
started-Represents s id w r q by k ks first named bound size h = record {
  queue = h.queue;
  stored = update-stored id h.queue (insert_task h.task s) (h.named ∙ named ∙ r.named);
  named = h.named ∙ named ∙ r.named;
  parallelism = h.parallelism ∙ bound;
  active = h.active;
  size =
      omega (int_laws, ap pos_part h.size, ap neg_part h.size, ap pos_part size, ap neg_part size);
  ends = h.ends;
}

-- The outcome that the contract asks for.
pub record Dequeued (p : ProcessInstanceEntity) (by : String) (s : Tables) (w : Waiting)
    (started : Option Key) : Type 0 where
  pub tables : Tables
  pub result : dequeue_process_instance_of p by s ≡ ok tables
  pub represents : Represents tables p.bpmn_process_id w
  pub tasks : Started started s.tasks tables.tasks

module _ (p : ProcessInstanceEntity) (by : String) (s : Tables) where
  abbrev left : ProcessInstanceQueueEntity → ProcessInstanceQueueEntity
  left q = record q { active_count = q.active_count -ℤ pos 1 }

  -- None starts.
  dequeue_none :
      (w : Waiting) (r : Represents s p.bpmn_process_id w)
      → must_dequeue (left r.queue) ≡ false
      → Dequeued p by s (record w { active = w.active -ℤ pos 1 }) none
  unfolding dequeue_process_instance_of update
  dequeue_none w r stays = record {
    tables = update (left r.queue) s;
    result = rw (select-stored p.bpmn_process_id s {q = r.queue} r.stored) (simp stays);
    represents = record {
      queue = left r.queue;
      stored = update-stored p.bpmn_process_id (left r.queue) s r.named;
      named = r.named;
      parallelism = r.parallelism;
      active = ap (λ a. a -ℤ pos 1) r.active;
      size = r.size;
      ends = same_ends w.keys r.ends;
    };
    tasks = refl;
  }
    where
      same_ends :
          (ls : List Key)
          → HasEnds s.queue_elements r.queue ls
          → HasEnds s.queue_elements (left r.queue) ls
      same_ends [] h = h
      same_ends (l ∷ ls) h = h

  -- The head starts.
  dequeue_head :
      (w : Waiting) (k : Key) (ks : List Key)
      (r : Represents s p.bpmn_process_id (record w { keys = k ∷ ks }))
      → must_dequeue (left r.queue) ≡ true
      → Dequeued p by s (record w { active = w.active -ℤ pos 1 +ℤ pos 1; keys = ks }) (some k)
  unfolding dequeue_process_instance_of update insert_task
  dequeue_head w k ks r starts =
      let h = start_head-StartedHead (left r.queue) s by k ks r.ends in
      record {
        tables = update h.queue (insert_task h.task s);
        result =
            rw (select-stored p.bpmn_process_id s {q = r.queue} r.stored) (simp (starts, h.result));
        represents = rw (← r.active) (
            started-Represents s p.bpmn_process_id (record w { keys = k ∷ ks }) r (left r.queue) by
              k ks refl refl r.parallelism r.size h);
        tasks = (h.task, h.starts, refl);
      }

  dequeue_by_keys :
      (w : Waiting) (ks : List Key)
      → Represents s p.bpmn_process_id (record w { keys = ks })
      → Dequeued p by s (leave (record w { keys = ks })).0 (leave (record w { keys = ks })).1
  dequeue_by_keys w [] r = dequeue_none (record w { keys = [] }) r (rw r.size refl)
  dequeue_by_keys w (k ∷ ks) r =
      elim (Bool-cases (has_capacity (record w { active = w.active -ℤ pos 1 }))) [
        | inl free ↦ rw free (dequeue_head w k ks r (rw (r.size, r.parallelism, r.active) free))
        | inr full ↦ rw full (
            dequeue_none (record w { keys = k ∷ ks }) r (rw (r.size, r.parallelism, r.active) full))
      ]

-- When a process instance has ended, dequeueing succeeds wherever the tables hold the queue of its BPMN
-- process: they hold afterwards the queue that one active process instance has left, and from which the one
-- that has waited longest has become active, if there is one and the parallelism allows it; exactly in that
-- case one task is created, which starts that process instance.
pub dequeue_process_instance-Dequeued :
    (s : Tables) (w : Waiting) (p : ProcessInstanceEntity) (engine_or_worker_id : String)
    → Represents s p.bpmn_process_id w
    → Dequeued p engine_or_worker_id s (leave w).0 (leave w).1
dequeue_process_instance-Dequeued s w p engine_or_worker_id r =
    dequeue_by_keys p engine_or_worker_id s w w.keys r
