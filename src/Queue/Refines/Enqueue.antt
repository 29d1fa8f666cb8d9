-- ===== src/Queue/Refines/Enqueue.antt =====
-- `enqueueProcessInstance` (engine/internal/process_instance_queue.go) against the contract.
use go_bpmn.Shared.{
  ◌≡◌, refl, ap, subst, ◌∙◌, true, false, not, ◌&&◌, none, some, List, [], ◌∷◌, ◌++◌, pos, ◌+ℤ◌,
  is_pos, int_laws, pos_part, neg_part, ok, length-append, arith, if◌then◌else◌, Bool-cases, inl,
  inr, String, str_eq, lookup, lookup-insert,
}
use go_bpmn.Entity.{ProcessInstanceEntity}
use go_bpmn.Queue.Table.{ProcessInstanceQueueEntity, Tables, less, must_enqueue, update}
use go_bpmn.Queue.Operations.{add_element, count_instance, enqueue_process_instance}
use go_bpmn.Queue.Contract.{
  Key, Waiting, has_capacity, arrive, waits, element_of, instance_at, HasEnds, Represents,
}
use go_bpmn.Queue.Chain.{same_key}
use go_bpmn.Queue.Refines.Steps.{
  select-stored, update-stored, waiting, longer, count_instance-waiting,
}
use go_bpmn.Queue.Refines.Add.{instance_key, Added, add_first, add_last, same_key_equal}

-- What becomes of a process instance that is created.
abbrev pub instance_after : Waiting → ProcessInstanceEntity → ProcessInstanceEntity
instance_after w p = if waits w then waiting p else p

-- The row of the process instance afterwards, which nothing writes if it is active at once.
abbrev pub row_after :
    Waiting → ProcessInstanceEntity → ProcessInstanceEntity → ProcessInstanceEntity
row_after w p stored = if waits w then waiting p else stored

-- The outcome that the contract asks for: `p'` is what becomes of the process instance `p`, and `row` is
-- its row.
pub record Enqueued (p p' row : ProcessInstanceEntity) (s : Tables) (w : Waiting) : Type 0 where
  pub tables : Tables
  pub result : enqueue_process_instance p s ≡ ok (p', tables)
  pub represents : Represents tables p.bpmn_process_id w
  pub rows :
      (k : Key)
      → instance_at tables.process_instances k
        ≡ (if same_key (instance_key p) k then some row else instance_at s.process_instances k)
  pub queues :
      (other : String)
      → str_eq p.bpmn_process_id other ≡ false
      → lookup other tables.queues ≡ lookup other s.queues
  pub tasks : tables.tasks ≡ s.tasks

-- Only the queue of its BPMN process is written.
update-other :
    (id other : String) (q : ProcessInstanceQueueEntity) (s : Tables)
    → q.bpmn_process_id ≡ id
    → str_eq id other ≡ false
    → lookup other (update q s).queues ≡ lookup other s.queues
unfolding update
update-other id other q s named h =
    lookup-insert other q.bpmn_process_id q s.queues ∙ rw (named, h) refl

module _ (s : Tables) (p x : ProcessInstanceEntity)
    (stored : instance_at s.process_instances (instance_key p) ≡ some x) where
  -- The process instance waits behind those that wait.
  enqueue_waiting :
      (w : Waiting) (r : Represents s p.bpmn_process_id w)
      → Added p r.queue s w.keys
      → Enqueued p (waiting p) (waiting p) s (record w { keys = w.keys ++ instance_key p ∷ [] })
  unfolding enqueue_process_instance update
  enqueue_waiting w r a =
      let (t, counted, found) =
        count_instance-waiting p x a.queue a.tables a.head
          (ap (λ y. instance_at y.process_instances (instance_key p)) a.others ∙ stored) in
      record {
        tables = update (longer p a.queue) (record a.tables { process_instances = t });
        result =
            rw (select-stored p.bpmn_process_id s {q = r.queue} r.stored, a.result, counted) refl;
        represents = record {
          queue = longer p a.queue;
          stored =
              update-stored p.bpmn_process_id (longer p a.queue)
                (record a.tables { process_instances = t })
                (ap (λ y. y.bpmn_process_id) a.kept ∙ r.named);
          named = ap (λ y. y.bpmn_process_id) a.kept ∙ r.named;
          parallelism = ap (λ y. y.parallelism) a.kept ∙ r.parallelism;
          active = ap (λ y. y.active_count) a.kept ∙ r.active;
          size = omega (
            int_laws,
            ap (λ y. pos_part y.queued_count) a.kept,
            ap (λ y. neg_part y.queued_count) a.kept,
            ap pos_part r.size,
            ap neg_part r.size,
            length-append w.keys (instance_key p ∷ []),
          );
          ends = a.ends;
        };
        rows = λ k.
            found k
            ∙ ap
                (λ y.
                  if same_key (instance_key p) k
                  then some (waiting p)
                  else instance_at y.process_instances k)
                a.others;
        queues = λ other h.
            update-other p.bpmn_process_id other (longer p a.queue)
              (record a.tables { process_instances = t })
              (ap (λ y. y.bpmn_process_id) a.kept ∙ r.named) h
            ∙ ap (λ y. lookup other y.queues) a.others;
        tasks = ap (λ y. y.tasks) a.others;
      }

  unwritten :
      (k : Key)
      → instance_at s.process_instances k
        ≡ (if same_key (instance_key p) k then some x else instance_at s.process_instances k)
  unwritten k = elim (Bool-cases (same_key (instance_key p) k)) [
    | inl here ↦ rw here (
        subst (λ j. instance_at s.process_instances j ≡ some x)
          (same_key_equal (instance_key p) k here) stored)
    | inr other ↦ rw other refl
  ]

  -- No other waits, and there is capacity.
  enqueue_active :
      (w : Waiting) (r : Represents s p.bpmn_process_id w)
      → HasEnds s.queue_elements r.queue []
      → must_enqueue r.queue ≡ false
      → Enqueued p p x s (record w { active = w.active +ℤ pos 1 })
  unfolding enqueue_process_instance add_element count_instance update
  enqueue_active w r (no_head, no_tail) free =
      let q = record r.queue { active_count = r.queue.active_count +ℤ pos 1 } in
      record {
        tables = update q s;
        result =
            rw (select-stored p.bpmn_process_id s {q = r.queue} r.stored)
              (simp (no_tail, free, no_head));
        represents = record {
          queue = q;
          stored = update-stored p.bpmn_process_id q s r.named;
          named = r.named;
          parallelism = r.parallelism;
          active = ap (λ a. a +ℤ pos 1) r.active;
          size = r.size;
          ends = r.ends;
        };
        rows = λ k. unwritten k;
        queues = λ other h. update-other p.bpmn_process_id other q s r.named h;
        tasks = refl;
      }

  by_keys :
      (w : Waiting) (ks : List Key)
      → Represents s p.bpmn_process_id (record w { keys = ks })
      → element_of s.queue_elements (instance_key p) ≡ none
      → Enqueued p
          (instance_after (record w { keys = ks }) p)
          (row_after (record w { keys = ks }) p x)
          s
          (arrive (instance_key p) (record w { keys = ks }))
  by_keys w (k ∷ ks) r new =
      enqueue_waiting (record w { keys = k ∷ ks }) r (add_last p r.queue s k ks r.ends new)
  by_keys w [] r new = elim (Bool-cases (has_capacity w)) [
    | inl free ↦ rw free (
        enqueue_active (record w { keys = [] }) r r.ends
          (rw (r.parallelism, r.active) (not_full w free)))
    | inr full ↦ rw full (
        enqueue_waiting (record w { keys = [] }) r
          (add_first p r.queue s r.ends (rw (r.parallelism, r.active) (is_full w full)) new))
  ]
    where
      not_full :
          (v : Waiting)
          → has_capacity v ≡ true
          → (is_pos v.parallelism && not (less v.active v.parallelism)) ≡ false
      not_full v h = ground arith

      is_full :
          (v : Waiting)
          → has_capacity v ≡ false
          → (is_pos v.parallelism && not (less v.active v.parallelism)) ≡ true
      is_full v h = ground arith

-- Enqueueing a process instance that is stored, and that was not in the queue before, succeeds
-- wherever the tables hold the queue of its BPMN process: they hold afterwards the queue with the process
-- instance as the contract adds it, behind all that wait or among the active ones; exactly if it waits, its
-- row is written with state QUEUED and no start, and so it is returned, and otherwise it is returned as it
-- was and its row stays; the rows of other process instances, the queues of other BPMN processes and the
-- tasks stay as they were.
pub enqueue_process_instance-Enqueued :
    (s : Tables) (w : Waiting) (p x : ProcessInstanceEntity)
    → Represents s p.bpmn_process_id w
    → instance_at s.process_instances (instance_key p) ≡ some x
    → element_of s.queue_elements (instance_key p) ≡ none
    → Enqueued p (instance_after w p) (row_after w p x) s (arrive (instance_key p) w)
enqueue_process_instance-Enqueued s w p x r stored new = by_keys s p x stored w w.keys r new
