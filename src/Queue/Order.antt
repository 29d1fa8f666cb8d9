-- ===== src/Queue/Order.antt =====
-- Any sequence of enqueueing and dequeueing (engine/internal/process_instance_queue.go).
use go_bpmn.Shared.{
  length, length-append, ◌≡◌, refl, ap, sym, subst, ◌∙◌, true, false, String, Option, none, some,
  List, [], ◌∷◌, ◌++◌, pos, ◌+ℤ◌, ◌≤ℤ◌, is_pos, int_laws, pos_part, neg_part, ok-injective, arith,
  if◌then◌else◌, Bool-cases, inl, inr,
}
use mathlib.Core.List.{append_assoc, append-nil}
use go_bpmn.Enum.InstanceState.{same, queued}
use go_bpmn.Entity.{ProcessInstanceEntity}
use go_bpmn.Entity.Task.{TaskEntity}
use go_bpmn.Store.Rows.{Partitions}
use go_bpmn.Queue.Table.{Tables}
use go_bpmn.Queue.Contract.{Key, instance_at, Waiting, arrive, waits, leave, Represents, Started}
use go_bpmn.Queue.Fifo.{
  Bounded, keys_of, arrive-keys, arrive-Bounded, arrive-active, leave-keys, leave-Bounded,
  leave-active, Started-count,
}
use go_bpmn.Queue.Chain.{same_key}
use go_bpmn.Queue.Refines.Add.{instance_key}
use go_bpmn.Queue.Refines.Enqueue.{row_after, enqueue_process_instance-Enqueued}
use go_bpmn.Queue.Refines.Dequeue.{dequeue_process_instance-Dequeued}
use go_bpmn.Queue.Runs.{
  Run, rest, create, finish, change, is_queued, joined, begun, StartedAll, Within,
}

same_key_self : (k : Key) → same_key k k ≡ true
same_key_self k = ground arith

-- The row that enqueueing leaves is QUEUED exactly if the process instance has to wait.
row-waits :
    (w : Waiting) (p x : ProcessInstanceEntity) (t s : Tables)
    → same x.state queued ≡ false
    → instance_at t.process_instances (instance_key p) ≡ (
        if same_key (instance_key p) (instance_key p)
        then some (row_after w p x)
        else instance_at s.process_instances (instance_key p))
    → is_queued (instance_key p) t ≡ waits w
row-waits w p x t s fresh row = written ∙ state
  where
    written : is_queued (instance_key p) t ≡ same (row_after w p x).state queued
    written = rw (row, same_key_self (instance_key p)) refl

    state : same (row_after w p x).state queued ≡ waits w
    state = elim (Bool-cases (waits w)) [
      | inl behind ↦ rw behind refl
      | inr at_once ↦ rw at_once fresh
    ]

-- What holds after a run.
pub record Served (id : String) (s u : Tables) (w : Waiting) (b ks : List Key) : Type 0 where
  pub after : Waiting
  pub started : List Key
  pub represents : Represents u id after
  pub order : w.keys ++ ks ≡ started ++ after.keys
  pub tasks : StartedAll started s.tasks u.tasks
  pub bound : after.parallelism ≡ w.parallelism
  pub active : after.active ≡ pos (length b)
  pub bounded : Bounded w → Bounded after

after_enqueue :
    (id : String) (s s' u : Tables) (w : Waiting) (p : ProcessInstanceEntity) (b ks : List Key)
    → is_queued (instance_key p) s' ≡ waits w
    → s'.tasks ≡ s.tasks
    → Served id s' u (arrive (instance_key p) w) b ks
    → Served id s u w b (joined (instance_key p) s' ++ ks)
after_enqueue id s s' u w p b ks row tasks v = record {
  after = v.after;
  started = v.started;
  represents = v.represents;
  order =
      ap (λ q. w.keys ++ ((if q then instance_key p ∷ [] else []) ++ ks)) row
      ∙ sym (append_assoc w.keys (if waits w then instance_key p ∷ [] else []) ks)
      ∙ ap (λ ls. ls ++ ks) (sym (arrive-keys w (instance_key p) w.keys))
      ∙ v.order;
  tasks = subst (λ ts. StartedAll v.started ts u.tasks) tasks v.tasks;
  bound = v.bound ∙ same_bound w.keys;
  active = v.active;
  bounded = λ h. v.bounded (arrive-Bounded w (instance_key p) w.keys h);
}
  where
    same_bound :
        (ls : List Key)
        → (arrive (instance_key p) (record w { keys = ls })).parallelism ≡ w.parallelism
    same_bound [] = ground arith
    same_bound (l ∷ ls) = refl

count-begun :
    (w : Waiting) (k : Key) (s' : Tables) (a : List Key)
    → is_queued k s' ≡ waits w
    → w.active ≡ pos (length a)
    → (arrive k w).active ≡ pos (length (begun k s' ++ a))
count-begun w k s' a row count =
    arrive-active w k w.keys
    ∙ by_wait
    ∙ ap (λ q. pos (length ((if q then [] else k ∷ []) ++ a))) (sym row)
  where
    by_wait :
        (if waits w then w.active else w.active +ℤ pos 1)
        ≡ pos (length ((if waits w then [] else k ∷ []) ++ a))
    by_wait = elim (Bool-cases (waits w)) [
      | inl behind ↦ rw behind count
      | inr at_once ↦ rw (at_once, count) (omega int_laws)
    ]

count-ended :
    (w : Waiting) (k : Key) (before behind : List Key) (next : Option Key)
    (ts us : Partitions TaskEntity)
    → Started next ts us
    → Started (leave w).1 ts us
    → w.active ≡ pos (length (before ++ k ∷ behind))
    → (leave w).0.active ≡ pos (length (keys_of next ++ (before ++ behind)))
count-ended w k before behind next ts us started started' count =
    leave-active w w.keys
    ∙ omega (
      int_laws,
      arith,
      ap pos_part count,
      ap neg_part count,
      Started-count next (leave w).1 ts us started started',
      length-append before (k ∷ behind),
      length-append before behind,
      length-append (keys_of next) (before ++ behind),
    )

after_dequeue :
    (id : String) (s s' u : Tables) (w : Waiting) (b ks : List Key)
    → Started (leave w).1 s.tasks s'.tasks
    → Served id s' u (leave w).0 b ks
    → Served id s u w b ks
after_dequeue id s s' u w b ks started v = record {
  after = v.after;
  started = keys_of (leave w).1 ++ v.started;
  represents = v.represents;
  order =
      ap (λ ls. ls ++ ks) (leave-keys w w.keys)
      ∙ append_assoc (keys_of (leave w).1) (leave w).0.keys ks
      ∙ ap (λ ls. keys_of (leave w).1 ++ ls) v.order
      ∙ sym (append_assoc (keys_of (leave w).1) v.started v.after.keys);
  tasks = tasks_of (leave w).1 started;
  bound = v.bound ∙ same_bound w.keys;
  active = v.active;
  bounded = λ h. v.bounded (leave-Bounded w w.keys h);
}
  where
    same_bound : (ls : List Key) → (leave (record w { keys = ls })).0.parallelism ≡ w.parallelism
    same_bound [] = refl
    same_bound (l ∷ ls) = ground arith

    tasks_of :
        (o : Option Key)
        → Started o s.tasks s'.tasks
        → StartedAll (keys_of o ++ v.started) s.tasks u.tasks
    tasks_of none h = subst (λ ts. StartedAll v.started ts u.tasks) h v.tasks
    tasks_of (some k) (t, starts, h) =
        (t, starts, subst (λ ts. StartedAll v.started ts u.tasks) h v.tasks)

serve :
    (id : String) (s u : Tables) (w : Waiting) (a b ks : List Key)
    → Represents s id w
    → w.active ≡ pos (length a)
    → Run id s a u b ks
    → Served id s u w b ks
serve id s u w a b ks r count rest = record {
  after = w;
  started = [];
  represents = r;
  order = append-nil w.keys;
  tasks = refl;
  bound = refl;
  active = count;
  bounded = λ h. h;
}
serve id s u w a b ks r count
      (create {s' = s'} {ks = js} p x p' named stored fresh new result run) =
    let e = enqueue_process_instance-Enqueued s w p x (rw named r) stored new in
    let s_eq = ap (λ r. r.1) (ok-injective (sym e.result ∙ result)) in
    let row =
      ap (is_queued (instance_key p)) (sym s_eq)
      ∙ row-waits w p x e.tables s fresh (e.rows (instance_key p)) in
    after_enqueue id s s' u w p b js row (subst (λ t. t.tasks ≡ s.tasks) s_eq e.tasks) (
      serve id s' u (arrive (instance_key p) w) (begun (instance_key p) s' ++ a) b js
        (subst (λ t. Represents t id (arrive (instance_key p) w)) s_eq
          (subst (λ i. Represents e.tables i (arrive (instance_key p) w)) named e.represents))
        (count-begun w (instance_key p) s' a row count) run)
serve id s u w a b ks r count (finish {s' = s'} p before behind by next named result started run) =
    let d = dequeue_process_instance-Dequeued s w p by (rw named r) in
    let s_eq = ok-injective (sym d.result ∙ result) in
    let tasks = subst (λ t. Started (leave w).1 s.tasks t.tasks) s_eq d.tasks in
    after_dequeue id s s' u w b ks tasks (
      serve id s' u (leave w).0 (keys_of next ++ (before ++ behind)) b ks
        (subst (λ t. Represents t id (leave w).0) s_eq
          (subst (λ i. Represents d.tables i (leave w).0) named d.represents))
        (count-ended w (instance_key p) before behind next s.tasks s'.tasks started tasks count)
        run)
serve id s u w a b ks r count (change process_instances time date run) =
    let v =
      serve id (record s { process_instances = process_instances; time = time; date = date }) u w a
        b ks
        (record {
          queue = r.queue;
          stored = r.stored;
          named = r.named;
          parallelism = r.parallelism;
          active = r.active;
          size = r.size;
          ends = r.ends;
        })
        count run in
    record {
      after = v.after;
      started = v.started;
      represents = v.represents;
      order = v.order;
      tasks = v.tasks;
      bound = v.bound;
      active = v.active;
      bounded = v.bounded;
    }

-- Where the tables hold the queue of a BPMN process and its active count is the number of active process
-- instances: whatever process instances are created and whatever active ones end, in whatever order, and as
-- long as none is terminated while it is QUEUED, those whose row is QUEUED when they are created start in
-- the order in which they were created, by the tasks that are created meanwhile and no other, and the rest
-- of them still waits in that order; the tables hold the queue at the end, and its active count is the
-- number of active process instances; and with a positive parallelism, no more process instances are
-- active at the end than it says, if that was so at the start.
pub Run-Served :
    (id : String) (s u : Tables) (w : Waiting) (a b ks : List Key)
    → Represents s id w
    → w.active ≡ pos (length a)
    → Run id s a u b ks
    → Served id s u w b ks × (Within w.parallelism a → Within w.parallelism b)
Run-Served id s u w a b ks r count run =
    let v = serve id s u w a b ks r count run in
    (
      v,
      λ within positive.
          subst (λ m. pos (length b) ≤ℤ m) v.bound
            (subst (λ n. n ≤ℤ v.after.parallelism) v.active
              (v.bounded (λ h. subst (λ n. n ≤ℤ w.parallelism) (sym count) (within h))
                (ap is_pos v.bound ∙ positive))),
    )
