-- ===== src/Jobs/Retries.antt =====
-- How a job ends: with nothing more to do, with a retry, or with an incident.
use go_bpmn.Shared.{
  ◌≤◌, sym, subst, ℕ, ◌+◌, ◌<◌, ◌≡◌, refl, ap, ◌∙◌, Bool, true, false, if◌then◌else◌, ◌==◌, arith,
  inl, inr, Bool-cases, ltb, some,
}
use go_bpmn.Entity.{valid_int4, valid_timestamp}
use go_bpmn.Jobs.Steps.{IsFresh}
use go_bpmn.Enum.WorkState.{WorkState, done, caused_retry, caused_incident}
use go_bpmn.Entity.Job.{JobEntity, IncidentEntity}
use go_bpmn.Store.Locking.Held.{total}
use go_bpmn.Store.Partitions.{select_row, insert_row}
use go_bpmn.Store.Partitions.Numbered.{IsTable, select_row-inserted, update_row-IsTable}
use go_bpmn.Store.Partitions.Found.{select_row-insert_row, select_row-update_row, update_row-exists}
use go_bpmn.Store.Partitions.Totals.{total-insert_row, total-update_row}
use go_bpmn.Jobs.Repository.{insert, select, update, set_id}
use go_bpmn.Jobs.Complete.{
  JobStore, Ending, end_job, end_state, ended, retry_of, incident_of, follow_up,
}
use go_bpmn.Jobs.Phases.{partition_of, id_of}
use go_bpmn.Incidents
use go_bpmn.Incidents.{IncidentTable}

-- All rows.
abbrev pub any : {A : Type 0} → A → Bool
any x = true

abbrev pub IsIncidentTable : IncidentTable → Type 0
IsIncidentTable = IsTable (λ e. e.partition) (λ e. e.id)

-- The job of the table is completed, in the state.
abbrev pub EndsIn : WorkState → Ending → JobEntity → JobStore → Type 0
EndsIn state e job t =
    select job.partition job.id t.jobs
    ≡ some (record job { completed_at = valid_timestamp e.now; state = state })

-- One more job is stored: a retry, which can be locked from the time of the retry timer on.
pub record HasRetry (e : Ending) (job : JobEntity) (s t : JobStore) : Type 0 where
  pub retry : JobEntity
  pub is_stored : select retry.partition retry.id t.jobs ≡ some retry
  pub is_fresh : IsFresh retry
  pub counts : retry.retry_count ≡ job.retry_count + 1
  pub same_instance : retry.element_instance_id ≡ job.element_instance_id
  pub same_type : retry.type ≡ job.type
  pub is_due : retry.due_at ≡ e.retry_at
  pub one_more : total any t.jobs ≡ total any s.jobs + 1

-- One more incident is stored, which is the job's, and open.
pub record HasIncident (job : JobEntity) (s t : JobStore) : Type 0 where
  pub incident : IncidentEntity
  pub is_stored : Incidents.select incident.partition incident.id t.incidents ≡ some incident
  pub of_job : incident.job_id ≡ valid_int4 job.id
  pub same_instance : incident.element_instance_id ≡ valid_int4 job.element_instance_id
  pub is_open : incident.resolved_at.valid ≡ false
  pub one_more : total any t.incidents ≡ total any s.incidents + 1

abbrev pub NoMoreJobs : JobStore → JobStore → Type 0
NoMoreJobs s t = total any t.jobs ≡ total any s.jobs

-- What is left where a job of the table ended.
pub data Outcome (e : Ending) (job : JobEntity) (s t : JobStore) : Type 0 where
  succeeds :
      job.error.valid ≡ false
      → EndsIn done e job t
      → NoMoreJobs s t
      → t.incidents ≡ s.incidents
      → Outcome e job s t
  is_retried :
      job.error.valid ≡ true
      → job.retry_count < e.retry_limit
      → EndsIn caused_retry e job t
      → HasRetry e job s t
      → t.incidents ≡ s.incidents
      → Outcome e job s t
  is_stuck :
      job.error.valid ≡ true
      → e.retry_limit ≤ job.retry_count
      → EndsIn caused_incident e job t
      → HasIncident job s t
      → NoMoreJobs s t
      → Outcome e job s t

ended-eq :
    (e : Ending) (job : JobEntity) (state : WorkState)
    → end_state e job ≡ state
    → ended e job ≡ record job { completed_at = valid_timestamp e.now; state = state }
unfolding ended
ended-eq e job state h = simp h

insert-HasRetry :
    (e : Ending) (job : JobEntity) (s u : JobStore)
    → IsTable partition_of id_of s.jobs
    → total any s.jobs ≡ total any u.jobs
    → HasRetry e job u (record s { jobs = (insert (retry_of e job) s.jobs).0 })
unfolding insert select retry_of
insert-HasRetry e job s u v a = record {
  retry = (insert (retry_of e job) s.jobs).1;
  is_stored = select_row-inserted partition_of id_of set_id (retry_of e job) s.jobs (λ n. refl) v;
  is_fresh = record {
    is_created = unfold insert_row in refl;
    is_unlocked = unfold insert_row in refl;
    has_no_worker = unfold insert_row in refl;
    is_open = unfold insert_row in refl;
  };
  counts = unfold insert_row in refl;
  same_instance = unfold insert_row in refl;
  same_type = unfold insert_row in refl;
  is_due = unfold insert_row in refl;
  one_more =
      total-insert_row partition_of id_of any set_id job.partition (retry_of e job) s.jobs v
      ∙ omega (arith, a);
}

abbrev incident_partition : IncidentEntity → ℕ
incident_partition x = x.partition

abbrev incident_id : IncidentEntity → ℕ
incident_id x = x.id

insert-HasIncident :
    (e : Ending) (job : JobEntity) (s u : JobStore)
    → IsIncidentTable s.incidents
    → s.incidents ≡ u.incidents
    → HasIncident job u
        (record s { incidents = (Incidents.insert (incident_of e job) s.incidents).0 })
unfolding Incidents.insert Incidents.select incident_of
insert-HasIncident e job s u w b = record {
  incident = (Incidents.insert (incident_of e job) s.incidents).1;
  is_stored =
      select_row-inserted incident_partition incident_id Incidents.set_id (incident_of e job)
        s.incidents (λ n. refl) w;
  of_job = unfold insert_row in refl;
  same_instance = unfold insert_row in refl;
  is_open = unfold insert_row in refl;
  one_more =
      total-insert_row incident_partition incident_id any Incidents.set_id job.partition
        (incident_of e job) s.incidents w
      ∙ ap (λ x. total any x + 1) b;
}

follow_up-Outcome :
    (e : Ending) (job : JobEntity) (s u : JobStore)
    → IsTable partition_of id_of s.jobs
    → IsIncidentTable s.incidents
    → select job.partition job.id s.jobs ≡ some (ended e job)
    → total any s.jobs ≡ total any u.jobs
    → s.incidents ≡ u.incidents
    → Outcome e job u (follow_up e job s)
unfolding follow_up end_state
follow_up-Outcome e job s u v w h a b = elim (Bool-cases job.error.valid) [
  | inr fine ↦
      let left : follow_up e job s ≡ s = simp fine in
      subst (Outcome e job u) (sym left)
        (succeeds fine (h ∙ ap some (ended-eq e job done (simp fine))) a b)
  | inl failed ↦ elim (Bool-cases (ltb job.retry_count e.retry_limit)) [
    | inl more ↦
        let left : follow_up e job s ≡ record s { jobs = (insert (retry_of e job) s.jobs).0 } =
          simp (failed, more) in
        subst (Outcome e job u) (sym left) (
          is_retried failed (ground (arith, more))
            (kept (h ∙ ap some (ended-eq e job caused_retry (simp (failed, more)))))
            (insert-HasRetry e job s u v a) b)
    | inr spent ↦
        let left : follow_up e job s
            ≡ record s { incidents = (Incidents.insert (incident_of e job) s.incidents).0 } =
          simp (failed, spent) in
        subst (Outcome e job u) (sym left) (
          is_stuck failed (ground (arith, spent))
            (h ∙ ap some (ended-eq e job caused_incident (simp (failed, spent))))
            (insert-HasIncident e job s u w b) a)
  ]
]
  where
    kept :
        {x : JobEntity}
        → select job.partition job.id s.jobs ≡ some x
        → select job.partition job.id (insert (retry_of e job) s.jobs).0 ≡ some x
    kept found =
        unfold insert select in
        select_row-insert_row id_of set_id job.partition (retry_of e job) job.partition job.id
          s.jobs found

-- A job that has a row ends in one of three ways. If it has no error, it is done, with no retry and no incident. If
-- it failed and has retries left, it has caused a retry: exactly one more job is stored, for the same element
-- instance and of the same type, which counts one more retry, can be locked from the time of the retry timer on,
-- and no incident. If it failed and has none left, it has caused an incident: exactly one more is stored, which
-- names the job and is open, and no more job.
pub end_job-Outcome :
    (e : Ending) (old job : JobEntity) (s : JobStore)
    → IsTable partition_of id_of s.jobs
    → IsIncidentTable s.incidents
    → select job.partition job.id s.jobs ≡ some old
    → (t : JobStore) × (end_job e job s ≡ some t) × Outcome e job s t
unfolding end_job update ended select
end_job-Outcome e old job s v w h =
    let new = ended e job in
    let (jobs, found) = update_row-exists id_of job.partition new s.jobs h in
    let own =
      select_row-update_row id_of job.partition job.partition job.id new s.jobs jobs h found in
    let same =
      total-update_row partition_of id_of any old new job.partition s.jobs jobs v h refl found in
    let table = update_row-IsTable partition_of id_of new s.jobs jobs found v in
    let left = record s { jobs = jobs } in
    (
      follow_up e job left,
      rw (end_job, found) refl,
      follow_up-Outcome e job left s table w
          (own
            ∙ here job.partition job.id (some new) (select_row id_of job.partition job.id s.jobs))
          same refl,
    )
  where
    here : {B : Type 0} (p i : ℕ) (x y : B) → (if p == p then (if i == i then x else y) else y) ≡ x
    here p i x y = ground arith
