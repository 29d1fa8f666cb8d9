-- ===== src/Tests/Codecs.antt =====
-- The codecs of the enumerations of model/element_type.go and engine/model.go at one value.
use go_bpmn.Shared.{◌≡◌, Names, ok}
use go_bpmn.Enum.ElementType
use go_bpmn.Enum.ElementType.{ElementType-codec}
use go_bpmn.Enum.InstanceState
use go_bpmn.Enum.InstanceState.{InstanceState-codec}
use go_bpmn.Enum.JobType
use go_bpmn.Enum.JobType.{JobType-codec}
use go_bpmn.Enum.TaskType
use go_bpmn.Enum.TaskType.{TaskType-codec}
use go_bpmn.Enum.UserTaskState
use go_bpmn.Enum.UserTaskState.{UserTaskState-codec}
use go_bpmn.Enum.WorkState
use go_bpmn.Enum.WorkState.{WorkState-codec}

ElementType-codec_example :
    (ElementType.map_element_type (ElementType.to_string ElementType.parallel_gateway)
      ≡ ElementType.parallel_gateway)
    × Names ElementType.unset ElementType.to_string "PARALLEL_GATEWAY"
        (ElementType.map_element_type "PARALLEL_GATEWAY")
    × (ElementType.unmarshal_json ElementType.unset
          (ElementType.marshal_json ElementType.parallel_gateway)
        ≡ ok ElementType.parallel_gateway)
ElementType-codec_example =
    ElementType-codec ElementType.unset ElementType.parallel_gateway "PARALLEL_GATEWAY"

InstanceState-codec_example :
    (InstanceState.map_instance_state (InstanceState.to_string InstanceState.suspended)
      ≡ InstanceState.suspended)
    × Names InstanceState.unset InstanceState.to_string "SUSPENDED"
        (InstanceState.map_instance_state "SUSPENDED")
    × (InstanceState.unmarshal_json InstanceState.unset
          (InstanceState.marshal_json InstanceState.suspended)
        ≡ ok InstanceState.suspended)
InstanceState-codec_example =
    InstanceState-codec InstanceState.unset InstanceState.suspended "SUSPENDED"

JobType-codec_example :
    (JobType.map_job_type (JobType.to_string JobType.execute) ≡ JobType.execute)
    × Names JobType.unset JobType.to_string "EXECUTE" (JobType.map_job_type "EXECUTE")
    × (JobType.unmarshal_json JobType.unset (JobType.marshal_json JobType.execute)
        ≡ ok JobType.execute)
JobType-codec_example = JobType-codec JobType.unset JobType.execute "EXECUTE"

TaskType-codec_example :
    (TaskType.map_task_type (TaskType.to_string TaskType.trigger_event) ≡ TaskType.trigger_event)
    × Names TaskType.unset TaskType.to_string "TRIGGER_EVENT"
        (TaskType.map_task_type "TRIGGER_EVENT")
    × (TaskType.unmarshal_json TaskType.unset (TaskType.marshal_json TaskType.trigger_event)
        ≡ ok TaskType.trigger_event)
TaskType-codec_example = TaskType-codec TaskType.unset TaskType.trigger_event "TRIGGER_EVENT"

UserTaskState-codec_example :
    (UserTaskState.map_user_task_state (UserTaskState.to_string UserTaskState.started)
      ≡ UserTaskState.started)
    × Names UserTaskState.unset UserTaskState.to_string "STARTED"
        (UserTaskState.map_user_task_state "STARTED")
    × (UserTaskState.unmarshal_json UserTaskState.unset
          (UserTaskState.marshal_json UserTaskState.started)
        ≡ ok UserTaskState.started)
UserTaskState-codec_example =
    UserTaskState-codec UserTaskState.unset UserTaskState.started "STARTED"

WorkState-codec_example :
    (WorkState.map_work_state (WorkState.to_string WorkState.locked) ≡ WorkState.locked)
    × Names WorkState.unset WorkState.to_string "LOCKED" (WorkState.map_work_state "LOCKED")
    × (WorkState.unmarshal_json WorkState.unset (WorkState.marshal_json WorkState.locked)
        ≡ ok WorkState.locked)
WorkState-codec_example = WorkState-codec WorkState.unset WorkState.locked "LOCKED"
