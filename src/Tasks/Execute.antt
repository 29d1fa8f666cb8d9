-- ===== src/Tasks/Execute.antt =====
-- `ExecuteTask` of engine/internal/task.go.
use go_bpmn.Shared.{
  ℕ, ◌+◌, Bool, false, not, String, Option, none, some, ltb, if◌then◌else◌, str_append, Result, ok,
  err, error,
}
use go_bpmn.Enum.WorkState.{WorkState, same, caused_incident, caused_retry, created, done, locked}
use go_bpmn.Enum.TaskType.{to_string}
use go_bpmn.Entity.{valid_int4, valid_text, valid_timestamp}
use go_bpmn.Entity.Task.{Task, TaskEntity, no_task}
use go_bpmn.Entity.Job.{IncidentEntity, no_incident}
use go_bpmn.Incidents
use go_bpmn.Incidents.{IncidentTable}
use go_bpmn.Tasks.Repository as Tasks
use go_bpmn.Tasks.Repository.{TaskTable}

-- The tables that are written where a task ends, and whatever else the store has, which the task itself may write.
pub record TaskStore (Rest : Type 0) : Type 0 where
  pub tasks : TaskTable
  pub incidents : IncidentTable
  pub rest : Rest

-- What the method `Execute` of a task comes to. It may change the entity of the task, and it may write any table: the
-- store that it leaves is part of it. An `engine.Error` rejects the task with a text, and what was written before
-- stays; any other error is returned.
pub data Execution (Rest : Type 0) : Type 0 where
  executed : TaskEntity → TaskStore Rest → Execution Rest
  rejected : (text : String) → TaskEntity → TaskStore Rest → Execution Rest
  failed : (text : String) → Execution Rest

-- The options of the engine and its time. A retry limit that is not positive is 0.
pub record Settings : Type 0 where
  pub now : ℕ
  pub engine_id : String
  pub retry_limit : ℕ

unfoldable pub end_state : Bool → TaskEntity → WorkState
end_state is_retry task =
    if task.error.valid
    then (if is_retry then caused_retry else caused_incident)
    else if same task.state locked
    then done
    else task.state

unfoldable pub ended : Settings → Bool → TaskEntity → TaskEntity
unfolding end_state
ended o is_retry task = record task {
  completed_at = valid_timestamp o.now;
  state = end_state is_retry task;
}

unfoldable pub retry_of : Settings → TaskEntity → TaskEntity
retry_of o task = record no_task {
  partition = task.partition;
  element_id = task.element_id;
  element_instance_id = task.element_instance_id;
  process_id = task.process_id;
  process_instance_id = task.process_instance_id;
  bpmn_element_id = task.bpmn_element_id;
  created_at = o.now;
  created_by = o.engine_id;
  due_at = o.now;
  retry_count = task.retry_count + 1;
  serialized_task = task.serialized_task;
  state = created;
  type = task.type;
  instance_task = task.instance_task;
}

unfoldable pub incident_of : Settings → TaskEntity → IncidentEntity
incident_of o task = record no_incident {
  partition = task.partition;
  element_id = task.element_id;
  element_instance_id = task.element_instance_id;
  process_id = task.process_id;
  process_instance_id = task.process_instance_id;
  task_id = valid_int4 task.id;
  created_at = o.now;
  created_by = o.engine_id;
}

unfoldable pub follow_up :
    {Rest : Type 0} → Settings → Bool → TaskEntity → TaskStore Rest → TaskStore Rest
unfolding Tasks.insert Incidents.insert retry_of incident_of
follow_up o is_retry task s =
    if not task.error.valid
    then s
    else if is_retry
    then record s { tasks = (Tasks.insert (retry_of o task) s.tasks).0 }
    else record s { incidents = (Incidents.insert (incident_of o task) s.incidents).0 }

-- What stands behind the execution. A task without a row is an error.
unfoldable pub end_task :
    {Rest : Type 0} → Settings → Bool → TaskEntity → TaskStore Rest → Result (TaskStore Rest)
unfolding Tasks.update ended follow_up
end_task o is_retry task s = elim (Tasks.update (ended o is_retry task) s.tasks) [
  | none ↦ err (error "failed to update task")
  | some tasks ↦ ok (follow_up o is_retry task (record s { tasks = tasks }))
]

-- The text of an `engine.Error`, made of its type, its title and its detail.
abbrev pub not_mapped : TaskEntity → String
not_mapped task =
    str_append "BUG: failed to map task type: type "
      (str_append (to_string task.type) " is not supported")

-- What follows the execution.
unfoldable pub end_execution :
    {Rest : Type 0} → Settings → Bool → Execution Rest → Result (TaskStore Rest)
unfolding end_task
end_execution o is_retry (executed task s) = end_task o is_retry task s
end_execution o is_retry (rejected text task s) =
    end_task o is_retry (record task { error = valid_text text }) s
end_execution o is_retry (failed text) = err (error text)

-- The task decides about a retry by its count before it is executed. `execute` is the method `Execute` of the
-- interface `Task`, of which each kind of task has its own, as a function of the task's entity and the store.
module _ {Rest : Type 0} (execute : Task → TaskEntity → TaskStore Rest → Execution Rest)
    (o : Settings) where
  unfoldable pub execute_kind : Option Task → TaskEntity → TaskStore Rest → Result (TaskStore Rest)
  unfolding end_execution
  execute_kind none task s = end_execution o false (rejected (not_mapped task) task s)
  execute_kind (some t) task s =
      end_execution o (ltb task.retry_count o.retry_limit) (execute t task s)

  unfoldable pub execute_task : TaskEntity → TaskStore Rest → Result (TaskStore Rest)
  unfolding execute_kind
  execute_task task s = execute_kind task.instance_task task s
