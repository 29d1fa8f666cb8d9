-- ===== src/Entity/Job.antt =====
-- `JobEntity` of engine/internal/job.go, the job that it is shown as (`Job` of engine/model.go), and
-- `IncidentEntity` of engine/internal/incident.go.
use go_bpmn.Shared.{ℕ, String}
use go_bpmn.Enum.JobType.{JobType}
use go_bpmn.Enum.WorkState.{WorkState}
use go_bpmn.Entity.{Int4, Text, Timestamp, no_int4, no_text, no_timestamp}

pub record JobEntity : Type 0 where
  pub partition : ℕ
  pub id : ℕ
  pub element_id : ℕ
  pub element_instance_id : ℕ
  pub process_id : ℕ
  pub process_instance_id : ℕ
  pub bpmn_element_id : String
  pub completed_at : Timestamp
  pub correlation_key : Text
  pub created_at : ℕ
  pub created_by : String
  pub due_at : ℕ
  pub error : Text
  pub locked_at : Timestamp
  pub locked_by : Text
  pub retry_count : ℕ
  pub state : WorkState
  pub type : JobType

-- The zero value.
abbrev pub no_job : JobEntity
no_job = record {
  partition = 0;
  id = 0;
  element_id = 0;
  element_instance_id = 0;
  process_id = 0;
  process_instance_id = 0;
  bpmn_element_id = "";
  completed_at = no_timestamp;
  correlation_key = no_text;
  created_at = 0;
  created_by = "";
  due_at = 0;
  error = no_text;
  locked_at = no_timestamp;
  locked_by = no_text;
  retry_count = 0;
  state = WorkState.unset;
  type = JobType.unset;
}

-- A job as the engine's clients see it: what is not valid is the zero value.
pub record Job : Type 0 where
  pub partition : ℕ
  pub id : ℕ
  pub element_id : ℕ
  pub element_instance_id : ℕ
  pub process_id : ℕ
  pub process_instance_id : ℕ
  pub bpmn_element_id : String
  pub completed_at : ℕ
  pub correlation_key : String
  pub created_at : ℕ
  pub created_by : String
  pub due_at : ℕ
  pub error : String
  pub locked_at : ℕ
  pub locked_by : String
  pub retry_count : ℕ
  pub state : WorkState
  pub type : JobType

-- `JobEntity.Job`.
unfoldable pub job_of : JobEntity → Job
job_of e = record {
  partition = e.partition;
  id = e.id;
  element_id = e.element_id;
  element_instance_id = e.element_instance_id;
  process_id = e.process_id;
  process_instance_id = e.process_instance_id;
  bpmn_element_id = e.bpmn_element_id;
  completed_at = e.completed_at.time;
  correlation_key = e.correlation_key.string;
  created_at = e.created_at;
  created_by = e.created_by;
  due_at = e.due_at;
  error = e.error.string;
  locked_at = e.locked_at.time;
  locked_by = e.locked_by.string;
  retry_count = e.retry_count;
  state = e.state;
  type = e.type;
}

pub record IncidentEntity : Type 0 where
  pub partition : ℕ
  pub id : ℕ
  pub element_id : Int4
  pub element_instance_id : Int4
  pub job_id : Int4
  pub process_id : Int4
  pub process_instance_id : Int4
  pub task_id : Int4
  pub created_at : ℕ
  pub created_by : String
  pub resolved_at : Timestamp
  pub resolved_by : Text

-- The zero value.
abbrev pub no_incident : IncidentEntity
no_incident = record {
  partition = 0;
  id = 0;
  element_id = no_int4;
  element_instance_id = no_int4;
  job_id = no_int4;
  process_id = no_int4;
  process_instance_id = no_int4;
  task_id = no_int4;
  created_at = 0;
  created_by = "";
  resolved_at = no_timestamp;
  resolved_by = no_text;
}
