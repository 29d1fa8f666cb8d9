-- ===== src/Jobs/Complete.antt =====
-- `CompleteJob` of engine/internal/job.go: its guards, the cancellation of a job whose element instance has
-- ended, and what follows the handling of the job (`executionContext.handleJob`), which may have set the
-- error of the job.
use go_bpmn.Shared.{ℕ, ◌+◌, not, String, Option, none, some, ltb, if◌then◌else◌, str_eq}
use go_bpmn.Enum.WorkState.{WorkState, canceled, caused_incident, caused_retry, created, done}
use go_bpmn.Entity.{valid_int4, valid_text, valid_timestamp}
use go_bpmn.Entity.Job.{JobEntity, no_job, IncidentEntity, no_incident}
use go_bpmn.Jobs.Repository as Jobs
use go_bpmn.Jobs.Repository.{JobTable}
use go_bpmn.Incidents
use go_bpmn.Incidents.{IncidentTable}

-- Why a job is not completed: the conflicts in the order in which they are looked for.
pub data Conflict : Type 0 where
  is_completed is_not_locked : Conflict
  is_locked_by : (worker_id : String) → Conflict

unfoldable pub check_job : (worker_id : String) → JobEntity → Option Conflict
check_job worker_id job =
    if job.completed_at.valid
    then some is_completed
    else if not job.locked_at.valid
    then some is_not_locked
    else if not (str_eq job.locked_by.string worker_id)
    then some (is_locked_by job.locked_by.string)
    else none

-- The tables that are written.
pub record JobStore : Type 0 where
  pub jobs : JobTable
  pub incidents : IncidentTable

-- The element instance of the job has ended: the job is canceled. Nothing is returned if the job has no row.
unfoldable pub cancel_job : ℕ → JobEntity → JobTable → Option JobTable
unfolding Jobs.update
cancel_job now job t =
    Jobs.update (record job { completed_at = valid_timestamp now; state = canceled }) t

-- What of `engine.CompleteJobCmd` decides how a job ends. `retry_at` is the time of the engine, moved by the
-- retry timer.
pub record Ending : Type 0 where
  pub now : ℕ
  pub retry_limit : ℕ
  pub retry_at : ℕ
  pub worker_id : String

-- `cmd.Error` is the job's error, if it is not empty.
unfoldable pub set_error : String → JobEntity → JobEntity
set_error error job = if str_eq error "" then job else record job { error = valid_text error }

unfoldable pub end_state : Ending → JobEntity → WorkState
end_state e job =
    if not job.error.valid
    then done
    else if ltb job.retry_count e.retry_limit
    then caused_retry
    else caused_incident

unfoldable pub ended : Ending → JobEntity → JobEntity
unfolding end_state
ended e job = record job { completed_at = valid_timestamp e.now; state = end_state e job }

unfoldable pub retry_of : Ending → JobEntity → JobEntity
retry_of e job = record no_job {
  partition = job.partition;
  element_id = job.element_id;
  element_instance_id = job.element_instance_id;
  process_id = job.process_id;
  process_instance_id = job.process_instance_id;
  bpmn_element_id = job.bpmn_element_id;
  correlation_key = job.correlation_key;
  created_at = e.now;
  created_by = e.worker_id;
  due_at = e.retry_at;
  retry_count = job.retry_count + 1;
  state = created;
  type = job.type;
}

unfoldable pub incident_of : Ending → JobEntity → IncidentEntity
incident_of e job = record no_incident {
  partition = job.partition;
  element_id = valid_int4 job.element_id;
  element_instance_id = valid_int4 job.element_instance_id;
  job_id = valid_int4 job.id;
  process_id = valid_int4 job.process_id;
  process_instance_id = valid_int4 job.process_instance_id;
  created_at = e.now;
  created_by = e.worker_id;
}

-- The retry or the incident of a job that failed.
unfoldable pub follow_up : Ending → JobEntity → JobStore → JobStore
unfolding Jobs.insert Incidents.insert retry_of incident_of
follow_up e job s =
    if not job.error.valid
    then s
    else if ltb job.retry_count e.retry_limit
    then record s { jobs = (Jobs.insert (retry_of e job) s.jobs).0 }
    else record s { incidents = (Incidents.insert (incident_of e job) s.incidents).0 }

-- Nothing is returned if the job has no row.
unfoldable pub end_job : Ending → JobEntity → JobStore → Option JobStore
unfolding Jobs.update ended follow_up
end_job e job s = elim (Jobs.update (ended e job) s.jobs) [
  | none ↦ none
  | some jobs ↦ some (follow_up e job (record s { jobs = jobs }))
]
