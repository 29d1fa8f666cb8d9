-- ===== src/Incidents/Resolve.antt =====
-- `ResolveIncident` of engine/internal/incident.go.
use go_bpmn.Shared.{ℕ, String, Option, none, some, if◌then◌else◌}
use go_bpmn.Enum.WorkState.{created}
use go_bpmn.Entity.{valid_text, valid_timestamp}
use go_bpmn.Entity.Job.{JobEntity, no_job, IncidentEntity}
use go_bpmn.Entity.Task.{TaskEntity, no_task}
use go_bpmn.Incidents as Incidents
use go_bpmn.Incidents.{IncidentTable}
use go_bpmn.Jobs.Repository as Jobs
use go_bpmn.Jobs.Repository.{JobTable}
use go_bpmn.Tasks.Repository as Tasks
use go_bpmn.Tasks.Repository.{TaskTable}

-- `engine.ResolveIncidentCmd`, with the time of the engine, and that time moved by the retry timer.
pub record ResolveIncidentCmd : Type 0 where
  pub partition : ℕ
  pub id : ℕ
  pub worker_id : String
  pub now : ℕ
  pub due_at : ℕ

-- The tables that are written.
pub record ResolveStore : Type 0 where
  pub incidents : IncidentTable
  pub jobs : JobTable
  pub tasks : TaskTable

-- Why there is no retry.
pub data Refusal : Type 0 where
  incident_not_found incident_is_resolved no_rows : Refusal

unfoldable pub resolved : ResolveIncidentCmd → IncidentEntity → IncidentEntity
resolved cmd i = record i {
  resolved_at = valid_timestamp cmd.now;
  resolved_by = valid_text cmd.worker_id;
}

unfoldable pub retry_job : ResolveIncidentCmd → JobEntity → JobEntity
retry_job cmd job = record no_job {
  partition = job.partition;
  element_id = job.element_id;
  element_instance_id = job.element_instance_id;
  process_id = job.process_id;
  process_instance_id = job.process_instance_id;
  bpmn_element_id = job.bpmn_element_id;
  correlation_key = job.correlation_key;
  created_at = cmd.now;
  created_by = cmd.worker_id;
  due_at = cmd.due_at;
  state = created;
  type = job.type;
}

unfoldable pub retry_task : ResolveIncidentCmd → TaskEntity → TaskEntity
retry_task cmd task = record no_task {
  partition = task.partition;
  element_id = task.element_id;
  element_instance_id = task.element_instance_id;
  process_id = task.process_id;
  process_instance_id = task.process_instance_id;
  bpmn_element_id = task.bpmn_element_id;
  created_at = cmd.now;
  created_by = cmd.worker_id;
  due_at = cmd.due_at;
  serialized_task = task.serialized_task;
  state = created;
  type = task.type;
  instance_task = task.instance_task;
}

unfoldable pub retry_as_job :
    ResolveIncidentCmd → IncidentEntity → ResolveStore → ResolveStore × Option Refusal
unfolding Jobs.select Jobs.insert retry_job
retry_as_job cmd i s = elim (Jobs.select i.partition i.job_id.int32 s.jobs) [
  | none ↦ (s, some no_rows)
  | some job ↦ (record s { jobs = (Jobs.insert (retry_job cmd job) s.jobs).0 }, none)
]

unfoldable pub retry_as_task :
    ResolveIncidentCmd → IncidentEntity → ResolveStore → ResolveStore × Option Refusal
unfolding Tasks.select Tasks.insert retry_task
retry_as_task cmd i s = elim (Tasks.select i.partition i.task_id.int32 s.tasks) [
  | none ↦ (s, some no_rows)
  | some task ↦ (record s { tasks = (Tasks.insert (retry_task cmd task) s.tasks).0 }, none)
]

unfoldable pub retry :
    ResolveIncidentCmd → IncidentEntity → ResolveStore → ResolveStore × Option Refusal
unfolding retry_as_job retry_as_task
retry cmd i s = if i.job_id.valid then retry_as_job cmd i s else retry_as_task cmd i s

unfoldable pub write_resolved :
    ResolveIncidentCmd → IncidentEntity → ResolveStore → ResolveStore × Option Refusal
unfolding Incidents.update resolved retry
write_resolved cmd i s = elim (Incidents.update (resolved cmd i) s.incidents) [
  | none ↦ (s, some no_rows)
  | some incidents ↦ retry cmd i (record s { incidents = incidents })
]

unfoldable pub resolve_found :
    ResolveIncidentCmd → IncidentEntity → ResolveStore → ResolveStore × Option Refusal
unfolding write_resolved
resolve_found cmd i s =
    if i.resolved_at.valid then (s, some incident_is_resolved) else write_resolved cmd i s

-- The tables are left as they are written also if the retry fails.
unfoldable pub resolve_incident : ResolveIncidentCmd → ResolveStore → ResolveStore × Option Refusal
unfolding Incidents.select resolve_found
resolve_incident cmd s = elim (Incidents.select cmd.partition cmd.id s.incidents) [
  | none ↦ (s, some incident_not_found)
  | some i ↦ resolve_found cmd i s
]
