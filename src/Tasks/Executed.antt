-- ===== src/Tasks/Executed.antt =====
-- How the execution of a task ends: with nothing more to do, with a retry, or with an incident; and which
-- tasks an engine gets to execute.
use go_bpmn.Shared.{
  true, ◌≢◌, ap, sym, subst, error, ℕ, ◌+◌, ◌≡◌, refl, ◌∙◌, Bool, false, Option, none, some,
  if◌then◌else◌, ◌==◌, arith, inl, inr, Bool-cases, ltb, Result, ok, err,
}
use go_bpmn.Entity.{valid_text, valid_int4, valid_timestamp}
use go_bpmn.Enum.WorkState.{WorkState, same, created, done, locked, caused_retry, caused_incident}
use go_bpmn.Entity.Task.{Task, TaskEntity}
use go_bpmn.Entity.Job.{IncidentEntity}
use go_bpmn.Store.Locking.Held.{total}
use go_bpmn.Store.Partitions.Numbered.{IsTable, select_row-inserted, update_row-IsTable}
use go_bpmn.Store.Partitions.Found.{select_row-insert_row, select_row-update_row, update_row-exists}
use go_bpmn.Store.Partitions.Totals.{total-insert_row, total-update_row}
use go_bpmn.Jobs.Retries.{any, IsIncidentTable}
use go_bpmn.Incidents
use go_bpmn.Store.Partitions.{insert_row}
use go_bpmn.Tasks.Repository.{insert, select, update, set_id}
use go_bpmn.Tasks.Execute.{
  TaskStore, Execution, executed, rejected, failed, Settings, end_state, ended, retry_of,
  incident_of, follow_up, end_task, end_execution, not_mapped, execute_kind, execute_task,
}

abbrev pub partition_of : TaskEntity → ℕ
partition_of e = e.partition

abbrev pub id_of : TaskEntity → ℕ
id_of e = e.id

abbrev incident_partition : IncidentEntity → ℕ
incident_partition x = x.partition

abbrev incident_id : IncidentEntity → ℕ
incident_id x = x.id

ended-eq :
    (o : Settings) (is_retry : Bool) (task : TaskEntity) (state : WorkState)
    → end_state is_retry task ≡ state
    → ended o is_retry task ≡ record task { completed_at = valid_timestamp o.now; state = state }
unfolding ended
ended-eq o is_retry task state h = simp h

module _ {Rest : Type 0} where
  -- The task of the table is completed, in the state.
  abbrev pub EndsIn : WorkState → Settings → TaskEntity → TaskStore Rest → Type 0
  EndsIn state o task t =
      select task.partition task.id t.tasks
      ≡ some (record task { completed_at = valid_timestamp o.now; state = state })

  -- One more task is stored: a retry, which is due at once.
  pub record HasRetry (o : Settings) (task : TaskEntity) (s t : TaskStore Rest) : Type 0 where
    pub retry : TaskEntity
    pub is_stored : select retry.partition retry.id t.tasks ≡ some retry
    pub is_created : retry.state ≡ created
    pub is_unlocked : retry.locked_at.valid ≡ false
    pub has_no_error : retry.error.valid ≡ false
    pub counts : retry.retry_count ≡ task.retry_count + 1
    pub same_type : retry.type ≡ task.type
    pub same_task : retry.instance_task ≡ task.instance_task
    pub is_due : retry.due_at ≡ o.now
    pub one_more : total any t.tasks ≡ total any s.tasks + 1

  -- One more incident is stored, which is the task's, and open.
  pub record HasIncident (task : TaskEntity) (s t : TaskStore Rest) : Type 0 where
    pub incident : IncidentEntity
    pub is_stored : Incidents.select incident.partition incident.id t.incidents ≡ some incident
    pub of_task : incident.task_id ≡ valid_int4 task.id
    pub is_open : incident.resolved_at.valid ≡ false
    pub one_more : total any t.incidents ≡ total any s.incidents + 1

  abbrev pub NoMoreTasks : TaskStore Rest → TaskStore Rest → Type 0
  NoMoreTasks s t = total any t.tasks ≡ total any s.tasks

  -- What is left where a task of the table ended, of what its execution has left.
  pub data Outcome (o : Settings) (is_retry : Bool) (task : TaskEntity) (s t : TaskStore Rest)
      : Type 0 where
    is_done :
        task.error.valid ≡ false
        → task.state ≡ locked
        → EndsIn done o task t
        → NoMoreTasks s t
        → t.incidents ≡ s.incidents
        → Outcome o is_retry task s t
    keeps_state :
        task.error.valid ≡ false
        → task.state ≢ locked
        → EndsIn task.state o task t
        → NoMoreTasks s t
        → t.incidents ≡ s.incidents
        → Outcome o is_retry task s t
    is_retried :
        task.error.valid ≡ true
        → is_retry ≡ true
        → EndsIn caused_retry o task t
        → HasRetry o task s t
        → t.incidents ≡ s.incidents
        → Outcome o is_retry task s t
    is_stuck :
        task.error.valid ≡ true
        → is_retry ≡ false
        → EndsIn caused_incident o task t
        → HasIncident task s t
        → NoMoreTasks s t
        → Outcome o is_retry task s t

  insert-HasRetry :
      (o : Settings) (task : TaskEntity) (s u : TaskStore Rest)
      → IsTable partition_of id_of s.tasks
      → total any s.tasks ≡ total any u.tasks
      → HasRetry o task u (record s { tasks = (insert (retry_of o task) s.tasks).0 })
  unfolding insert select retry_of
  insert-HasRetry o task s u v a = record {
    retry = (insert (retry_of o task) s.tasks).1;
    is_stored =
        select_row-inserted partition_of id_of set_id (retry_of o task) s.tasks (λ n. refl) v;
    is_created = unfold insert_row in refl;
    is_unlocked = unfold insert_row in refl;
    has_no_error = unfold insert_row in refl;
    counts = unfold insert_row in refl;
    same_type = unfold insert_row in refl;
    same_task = unfold insert_row in refl;
    is_due = unfold insert_row in refl;
    one_more =
        total-insert_row partition_of id_of any set_id task.partition (retry_of o task) s.tasks v
        ∙ omega (arith, a);
  }

  insert-HasIncident :
      (o : Settings) (task : TaskEntity) (s u : TaskStore Rest)
      → IsIncidentTable s.incidents
      → s.incidents ≡ u.incidents
      → HasIncident task u
          (record s { incidents = (Incidents.insert (incident_of o task) s.incidents).0 })
  unfolding Incidents.insert Incidents.select incident_of
  insert-HasIncident o task s u w b = record {
    incident = (Incidents.insert (incident_of o task) s.incidents).1;
    is_stored =
        select_row-inserted incident_partition incident_id Incidents.set_id (incident_of o task)
          s.incidents (λ n. refl) w;
    of_task = unfold insert_row in refl;
    is_open = unfold insert_row in refl;
    one_more =
        total-insert_row incident_partition incident_id any Incidents.set_id task.partition
          (incident_of o task) s.incidents w
        ∙ ap (λ x. total any x + 1) b;
  }

  follow_up-Outcome :
      (o : Settings) (is_retry : Bool) (task : TaskEntity) (s u : TaskStore Rest)
      → IsTable partition_of id_of s.tasks
      → IsIncidentTable s.incidents
      → select task.partition task.id s.tasks ≡ some (ended o is_retry task)
      → total any s.tasks ≡ total any u.tasks
      → s.incidents ≡ u.incidents
      → Outcome o is_retry task u (follow_up o is_retry task s)
  unfolding follow_up end_state
  follow_up-Outcome o is_retry task s u v w h a b = elim (Bool-cases task.error.valid) [
    | inr fine ↦
        let left : follow_up o is_retry task s ≡ s = simp fine in
        subst (Outcome o is_retry task u) (sym left) (elim (Bool-cases (same task.state locked)) [
          | inl was_locked ↦
              is_done fine (same-locked task.state was_locked)
                (h ∙ ap some (ended-eq o is_retry task done (simp (fine, was_locked)))) a b
          | inr other ↦
              keeps_state fine (λ e. absurd (cc (ap (λ w. same w locked) e, other)))
                (h ∙ ap some (ended-eq o is_retry task task.state (simp (fine, other)))) a b
        ])
    | inl broke ↦ elim (Bool-cases is_retry) [
      | inl more ↦
          let left : follow_up o is_retry task s
              ≡ record s { tasks = (insert (retry_of o task) s.tasks).0 } =
            simp (broke, more) in
          subst (Outcome o is_retry task u) (sym left) (
            is_retried broke more
              (kept (h ∙ ap some (ended-eq o is_retry task caused_retry (simp (broke, more)))))
              (insert-HasRetry o task s u v a) b)
      | inr spent ↦
          let left : follow_up o is_retry task s
              ≡ record s { incidents = (Incidents.insert (incident_of o task) s.incidents).0 } =
            simp (broke, spent) in
          subst (Outcome o is_retry task u) (sym left) (
            is_stuck broke spent
              (h ∙ ap some (ended-eq o is_retry task caused_incident (simp (broke, spent))))
              (insert-HasIncident o task s u w b) a)
    ]
  ]
    where
      kept :
          {x : TaskEntity}
          → select task.partition task.id s.tasks ≡ some x
          → select task.partition task.id (insert (retry_of o task) s.tasks).0 ≡ some x
      kept found =
          unfold insert select in
          select_row-insert_row id_of set_id task.partition (retry_of o task) task.partition task.id
            s.tasks found

      same-locked : (w : WorkState) → same w locked ≡ true → w ≡ locked
      same-locked WorkState.unset e = absurd (cc e)
      same-locked WorkState.canceled e = absurd (cc e)
      same-locked WorkState.caused_incident e = absurd (cc e)
      same-locked WorkState.caused_retry e = absurd (cc e)
      same-locked WorkState.created e = absurd (cc e)
      same-locked WorkState.done e = absurd (cc e)
      same-locked WorkState.due e = absurd (cc e)
      same-locked WorkState.locked e = refl

  end_task-Outcome :
      (o : Settings) (is_retry : Bool) (old task : TaskEntity) (s : TaskStore Rest)
      → IsTable partition_of id_of s.tasks
      → IsIncidentTable s.incidents
      → select task.partition task.id s.tasks ≡ some old
      → (t : TaskStore Rest) × (end_task o is_retry task s ≡ ok t) × Outcome o is_retry task s t
  unfolding end_task update ended select
  end_task-Outcome o is_retry old task s v w h =
      let new = ended o is_retry task in
      let (tasks, found) = update_row-exists id_of task.partition new s.tasks h in
      let own =
        select_row-update_row id_of task.partition task.partition task.id new s.tasks tasks h
          found in
      let kept =
        total-update_row partition_of id_of any old new task.partition s.tasks tasks v h refl
          found in
      let table = update_row-IsTable partition_of id_of new s.tasks tasks found v in
      let left = record s { tasks = tasks } in
      (
        follow_up o is_retry task left,
        rw (end_task, found) refl,
        follow_up-Outcome o is_retry task left s table w
            (own ∙ here task.partition task.id (some new) (select task.partition task.id s.tasks))
            kept refl,
      )
    where
      here :
          {B : Type 0} (p i : ℕ) (x y : B) → (if p == p then (if i == i then x else y) else y) ≡ x
      here p i x y = ground arith

  -- What the execution of the task comes to, and whether a failure causes a retry: a task of no known kind is
  -- rejected for good.
  abbrev pub run_of :
      (Task → TaskEntity → TaskStore Rest → Execution Rest)
      → Option Task
      → TaskEntity
      → TaskStore Rest
      → Execution Rest
  run_of execute none task s = rejected (not_mapped task) task s
  run_of execute (some t) task s = execute t task s

  -- How the execution ends the task.
  abbrev pub Concludes : Settings → Bool → Execution Rest → Result (TaskStore Rest) → Type 0
  Concludes o is_retry (executed e u) r =
      (t : TaskStore Rest) × (r ≡ ok t) × Outcome o is_retry e u t
  Concludes o is_retry (rejected text e u) r =
      (t : TaskStore Rest) × (r ≡ ok t)
      × Outcome o is_retry (record e { error = valid_text text }) u t
  Concludes o is_retry (failed text) r = r ≡ err (error text)

  -- The tables that an execution leaves are tables still, and have a row of the task, whose entity has its day and
  -- its ID.
  abbrev pub Leaves : TaskEntity → TaskEntity → TaskStore Rest → Type 0
  Leaves task e u =
      (e.partition ≡ task.partition)
      × (e.id ≡ task.id)
      × IsTable partition_of id_of u.tasks
      × IsIncidentTable u.incidents
      × (row : TaskEntity) × (select task.partition task.id u.tasks ≡ some row)

  abbrev pub IsSound : TaskEntity → Execution Rest → Type 0
  IsSound task (executed e u) = Leaves task e u
  IsSound task (rejected text e u) = Leaves task e u
  IsSound task (failed text) = Unit

  concludes :
      (o : Settings) (is_retry : Bool) (task : TaskEntity) (x : Execution Rest)
      → IsSound task x
      → Concludes o is_retry x (end_execution o is_retry x)
  unfolding end_execution
  concludes o is_retry task (executed e u) (day, id, v, w, row, h) =
      end_task-Outcome o is_retry row e u v w (rw (day, id) h)
  concludes o is_retry task (rejected text e u) (day, id, v, w, row, h) =
      end_task-Outcome o is_retry row (record e { error = valid_text text }) u v w (rw (day, id) h)
  concludes o is_retry task (failed text) sound = refl

abbrev pub may_retry : Settings → Option Task → TaskEntity → Bool
may_retry o none task = false
may_retry o (some t) task = ltb task.retry_count o.retry_limit

-- A task that is executed, by whatever its kind does to it and to the tables, as long as these stay tables with a row
-- of the task, ends in one way, compared with what the execution left. Without an error, it is completed, done if it
-- is still locked and else in its state, with no more tasks and incidents. If it was rejected and had retries left
-- before, it has caused a retry: exactly one more task is stored, of the same type, which counts one more retry and
-- is due at once. If it was rejected and had none left, or is of no known kind, it has caused an incident: exactly one
-- more is stored, which names the task and is open. Any other error of the execution is returned.
pub execute_task-Concludes :
    {Rest : Type 0} (execute : Task → TaskEntity → TaskStore Rest → Execution Rest) (o : Settings)
    (task : TaskEntity) (s : TaskStore Rest)
    → IsSound task (run_of execute task.instance_task task s)
    → Concludes o
        (may_retry o task.instance_task task)
        (run_of execute task.instance_task task s)
        (execute_task execute o task s)
unfolding execute_task
execute_task-Concludes execute o task s = by_kind task.instance_task
  where
    by_kind :
        (kind : Option Task)
        → IsSound task (run_of execute kind task s)
        → Concludes o
            (may_retry o kind task)
            (run_of execute kind task s)
            (execute_kind execute o kind task s)
    by_kind none sound =
        unfold execute_kind in concludes o false task (rejected (not_mapped task) task s) sound
    by_kind (some t) sound =
        unfold execute_kind in
        concludes o (ltb task.retry_count o.retry_limit) task (execute t task s) sound
