-- ===== src/Incidents/Resolved.antt =====
-- What resolving an incident leaves: an incident that is resolved, once, and a retry.
use go_bpmn.Shared.{
  ℕ, ◌+◌, ◌≡◌, refl, ap, sym, ◌∙◌, true, false, Option, none, some, if◌then◌else◌, ◌==◌, arith, inl,
  inr, Bool-cases, Option-cases,
}
use go_bpmn.Entity.Job.{JobEntity, IncidentEntity}
use go_bpmn.Store.Locking.Held.{total}
use go_bpmn.Store.Partitions.{insert_row}
use go_bpmn.Store.Partitions.Numbered.{IsTable, select_row-inserted, select_row-keys}
use go_bpmn.Store.Partitions.Found.{select_row-update_row, update_row-exists}
use go_bpmn.Store.Partitions.Totals.{total-insert_row}
use go_bpmn.Jobs.Repository as Jobs
use go_bpmn.Jobs.Steps.{IsFresh}
use go_bpmn.Jobs.Phases as Phases
use go_bpmn.Jobs.Retries.{any, IsIncidentTable}
use go_bpmn.Tasks.Repository as Tasks
use go_bpmn.Incidents.{IncidentTable, select, update}
use go_bpmn.Incidents.Resolve.{
  ResolveIncidentCmd, ResolveStore, Refusal, incident_not_found, incident_is_resolved, no_rows,
  resolved, retry_job, retry_as_job, retry_as_task, retry, write_resolved, resolve_found,
  resolve_incident,
}

abbrev partition_of : IncidentEntity → ℕ
partition_of e = e.partition

abbrev id_of : IncidentEntity → ℕ
id_of e = e.id

-- An incident that is updated is selected as it was written.
updated :
    (i y : IncidentEntity) (t u : IncidentTable)
    → select y.partition y.id t ≡ some i
    → update y t ≡ some u
    → select y.partition y.id u ≡ some y
unfolding select update
updated i y t u h e =
    select_row-update_row id_of y.partition y.partition y.id y t u h e
    ∙ here y.partition y.id (some y) (select y.partition y.id t)
  where
    here : {B : Type 0} (p i : ℕ) (x y : B) → (if p == p then (if i == i then x else y) else y) ≡ x
    here p i x y = ground arith

retry_as_job-incidents :
    (cmd : ResolveIncidentCmd) (i : IncidentEntity) (s : ResolveStore)
    → (retry_as_job cmd i s).0.incidents ≡ s.incidents
unfolding retry_as_job
retry_as_job-incidents cmd i s =
    elim (Option-cases (Jobs.select i.partition i.job_id.int32 s.jobs)) [
      | inl missing ↦ rw (retry_as_job, missing) refl
      | inr (job, found) ↦ rw (retry_as_job, found) refl
    ]

retry_as_task-incidents :
    (cmd : ResolveIncidentCmd) (i : IncidentEntity) (s : ResolveStore)
    → (retry_as_task cmd i s).0.incidents ≡ s.incidents
unfolding retry_as_task
retry_as_task-incidents cmd i s =
    elim (Option-cases (Tasks.select i.partition i.task_id.int32 s.tasks)) [
      | inl missing ↦ rw (retry_as_task, missing) refl
      | inr (task, found) ↦ rw (retry_as_task, found) refl
    ]

-- The retry leaves the incidents as they are.
retry-incidents :
    (cmd : ResolveIncidentCmd) (i : IncidentEntity) (s : ResolveStore)
    → (retry cmd i s).0.incidents ≡ s.incidents
unfolding retry
retry-incidents cmd i s = elim (Bool-cases i.job_id.valid) [
  | inl job ↦ simp job (retry_as_job-incidents cmd i s)
  | inr task ↦ simp task (retry_as_task-incidents cmd i s)
]

-- An incident that was found and resolved has its row written.
resolved_row :
    (cmd : ResolveIncidentCmd) (i : IncidentEntity) (s t : ResolveStore)
    → select i.partition i.id s.incidents ≡ some i
    → write_resolved cmd i s ≡ (t, none)
    → select i.partition i.id t.incidents ≡ some (resolved cmd i)
unfolding resolved write_resolved
resolved_row cmd i s t h e = elim (Option-cases (update (resolved cmd i) s.incidents)) [
  | inl missing ↦
      let refused : ◌≡◌ {A = ResolveStore × Option Refusal} (s, some no_rows) (t, none) =
        rw (write_resolved, missing) at e in
      absurd (cc refused)
  | inr (incidents, found) ↦
      let retried : retry cmd i (record s { incidents = incidents }) ≡ (t, none) =
        rw (write_resolved, found) at e in
      ap (λ (w : IncidentTable). select i.partition i.id w)
        (ap (λ (r : ResolveStore × Option Refusal). r.0.incidents) (sym retried)
          ∙ retry-incidents cmd i (record s { incidents = incidents }))
      ∙ updated i (resolved cmd i) s.incidents incidents h found
]

found_open :
    (cmd : ResolveIncidentCmd) (i : IncidentEntity) (s t : ResolveStore)
    → resolve_found cmd i s ≡ (t, none)
    → write_resolved cmd i s ≡ (t, none)
unfolding resolve_found
found_open cmd i s t e = elim (Bool-cases i.resolved_at.valid) [
  | inl before ↦
      let refused : resolve_found cmd i s ≡ (s, some incident_is_resolved) = simp before in
      absurd (cc (sym refused ∙ e))
  | inr now ↦ let same : resolve_found cmd i s ≡ write_resolved cmd i s = simp now in sym same ∙ e
]

select_keys :
    (partition id : ℕ) (t : IncidentTable) (i : IncidentEntity)
    → IsIncidentTable t
    → select partition id t ≡ some i
    → (i.partition ≡ partition) × (i.id ≡ id)
unfolding select
select_keys partition id t i v found = select_row-keys partition_of id_of partition id t v found

update_exists :
    (y i : IncidentEntity) (t : IncidentTable)
    → select y.partition y.id t ≡ some i
    → (u : IncidentTable) × (update y t ≡ some u)
unfolding select update
update_exists y i t h = update_row-exists id_of y.partition y t h

found_write :
    (cmd : ResolveIncidentCmd) (i : IncidentEntity) (s : ResolveStore)
    → i.resolved_at.valid ≡ false
    → resolve_found cmd i s ≡ write_resolved cmd i s
unfolding resolve_found
found_write cmd i s is_open = simp is_open

retry_of_job :
    (cmd : ResolveIncidentCmd) (i : IncidentEntity) (s : ResolveStore)
    → i.job_id.valid ≡ true
    → retry cmd i s ≡ retry_as_job cmd i s
unfolding retry
retry_of_job cmd i s h = simp h

-- An incident is resolved once: after it was resolved, it is refused to whoever tries to resolve it again, and the
-- tables stay as they are.
pub resolve_incident-once :
    (cmd again : ResolveIncidentCmd) (s t : ResolveStore)
    → IsIncidentTable s.incidents
    → again.partition ≡ cmd.partition
    → again.id ≡ cmd.id
    → resolve_incident cmd s ≡ (t, none)
    → resolve_incident again t ≡ (t, some incident_is_resolved)
unfolding resolve_incident resolve_found resolved
resolve_incident-once cmd again s t v p n e =
    elim (Option-cases (select cmd.partition cmd.id s.incidents)) [
      | inl missing ↦
          let refused : ◌≡◌ {A = ResolveStore × Option Refusal} (s, some incident_not_found)
              (t, none) =
            rw (resolve_incident, missing) at e in
          absurd (cc refused)
      | inr (i, found) ↦
          let (day, number) = select_keys cmd.partition cmd.id s.incidents i v found in
          let here : select i.partition i.id s.incidents ≡ some i = simp (day, number) found in
          let written : resolve_found cmd i s ≡ (t, none) = rw (resolve_incident, found) at e in
          let row = resolved_row cmd i s t here (found_open cmd i s t written) in
          let place : select again.partition again.id t.incidents
              ≡ select i.partition i.id t.incidents =
            rw (p, n, day, number) refl in
          let there = place ∙ row in rw (resolve_incident, there) refl
    ]

-- The retry of a job: it is stored, it can be locked from the time of the retry timer on, and it counts its
-- retries anew.
pub record Retried (cmd : ResolveIncidentCmd) (job : JobEntity) (s t : ResolveStore) : Type 0 where
  pub retry : JobEntity
  pub is_stored : Jobs.select retry.partition retry.id t.jobs ≡ some retry
  pub is_fresh : IsFresh retry
  pub counts_anew : retry.retry_count ≡ 0
  pub same_instance : retry.element_instance_id ≡ job.element_instance_id
  pub same_type : retry.type ≡ job.type
  pub is_due : retry.due_at ≡ cmd.due_at
  pub one_more : total any t.jobs ≡ total any s.jobs + 1
  pub same_tasks : t.tasks ≡ s.tasks

retried :
    (cmd : ResolveIncidentCmd) (job : JobEntity) (s : ResolveStore) (incidents : IncidentTable)
    → IsTable Phases.partition_of Phases.id_of s.jobs
    → Retried cmd job s
        (record s { incidents = incidents; jobs = (Jobs.insert (retry_job cmd job) s.jobs).0 })
unfolding Jobs.insert Jobs.select retry_job
retried cmd job s incidents v = record {
  retry = (Jobs.insert (retry_job cmd job) s.jobs).1;
  is_stored =
      select_row-inserted Phases.partition_of Phases.id_of Jobs.set_id (retry_job cmd job) s.jobs
        (λ n. refl) v;
  is_fresh = record {
    is_created = unfold insert_row in refl;
    is_unlocked = unfold insert_row in refl;
    has_no_worker = unfold insert_row in refl;
    is_open = unfold insert_row in refl;
  };
  counts_anew = unfold insert_row in refl;
  same_instance = unfold insert_row in refl;
  same_type = unfold insert_row in refl;
  is_due = unfold insert_row in refl;
  one_more =
      total-insert_row Phases.partition_of Phases.id_of any Jobs.set_id job.partition
        (retry_job cmd job) s.jobs v;
  same_tasks = refl;
}

-- Resolving an incident of a job, that is not resolved yet, marks it as resolved and stores exactly one retry of
-- the job.
pub resolve_incident-Retried :
    (cmd : ResolveIncidentCmd) (s : ResolveStore) (i : IncidentEntity) (job : JobEntity)
    → IsTable Phases.partition_of Phases.id_of s.jobs
    → IsIncidentTable s.incidents
    → select cmd.partition cmd.id s.incidents ≡ some i
    → i.resolved_at.valid ≡ false
    → i.job_id.valid ≡ true
    → Jobs.select i.partition i.job_id.int32 s.jobs ≡ some job
    → (t : ResolveStore) × (resolve_incident cmd s ≡ (t, none))
      × (select cmd.partition cmd.id t.incidents ≡ some (resolved cmd i))
      × Retried cmd job s t
unfolding resolve_incident write_resolved retry_as_job resolved
resolve_incident-Retried cmd s i job v w found is_open of_job here =
    let (day, number) = select_keys cmd.partition cmd.id s.incidents i w found in
    let own : select i.partition i.id s.incidents ≡ some i = simp (day, number) found in
    let (incidents, written) = update_exists (resolved cmd i) i s.incidents own in
    let left = record s { incidents = incidents } in
    let t = record left { jobs = (Jobs.insert (retry_job cmd job) s.jobs).0 } in
    let by_job : retry_as_job cmd i left ≡ (t, none) = rw (retry_as_job, here) refl in
    let by_write : write_resolved cmd i s ≡ retry cmd i left = rw (write_resolved, written) refl in
    let place : select cmd.partition cmd.id incidents ≡ select i.partition i.id incidents =
      rw (day, number) refl in
    (
      t,
      rw (resolve_incident, found)
          (found_write cmd i s is_open ∙ by_write ∙ retry_of_job cmd i left of_job ∙ by_job),
      place ∙ updated i (resolved cmd i) s.incidents incidents own written,
      retried cmd job s incidents v,
    )
