-- ===== src/Entity/Task.antt =====
-- `TaskEntity` of engine/internal/task.go, with the tasks that it can hold.
use go_bpmn.Shared.{ℕ, String, Option, none}
use go_bpmn.Enum.TaskType.{TaskType}
use go_bpmn.Enum.WorkState.{WorkState}
use go_bpmn.Entity.{Int4, Text, Timestamp, no_int4, no_text, no_timestamp}

-- `engine.Timer`: the time of 0 is the zero time.
pub record Timer : Type 0 where
  pub time : ℕ
  pub time_cycle : String
  pub time_duration : String

-- The implementations of the interface `Task`.
pub data Task : Type 0 where
  continue_execution_task join_parallel_gateway_task : Task
  start_process_instance_task terminate_process_instance_task : Task
  dequeue_process_instance_task : (bpmn_process_id : String) → Task
  trigger_event_task :
      (error_code escalation_code : String) (message_id signal_id : ℕ) (timer : Option Timer) → Task

pub record TaskEntity : Type 0 where
  pub partition : ℕ
  pub id : ℕ
  pub element_id : Int4
  pub element_instance_id : Int4
  pub process_id : Int4
  pub process_instance_id : Int4
  pub bpmn_element_id : Text
  pub completed_at : Timestamp
  pub created_at : ℕ
  pub created_by : String
  pub due_at : ℕ
  pub error : Text
  pub locked_at : Timestamp
  pub locked_by : Text
  pub retry_count : ℕ
  pub serialized_task : Text
  pub state : WorkState
  pub type : TaskType
  pub instance_task : Option Task

-- The zero value.
abbrev pub no_task : TaskEntity
no_task = record {
  partition = 0;
  id = 0;
  element_id = no_int4;
  element_instance_id = no_int4;
  process_id = no_int4;
  process_instance_id = no_int4;
  bpmn_element_id = no_text;
  completed_at = no_timestamp;
  created_at = 0;
  created_by = "";
  due_at = 0;
  error = no_text;
  locked_at = no_timestamp;
  locked_by = no_text;
  retry_count = 0;
  serialized_task = no_text;
  state = WorkState.unset;
  type = TaskType.unset;
  instance_task = none;
}
