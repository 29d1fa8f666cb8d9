-- ===== src/Execution/Work.antt =====
-- The jobs and tasks that `executionContext.continueExecutions` of engine/internal/execution.go creates
-- for the executions that it has continued: the `switch` over the type of the element.
use go_bpmn.Shared.{
  ℕ, Bool, not, ◌&&◌, ◌||◌, String, Option, none, some, is_zero, Result, ok, err, error,
  if◌then◌else◌, ◌==◌, str_append, str_eq,
}
use go_bpmn.Enum.ElementType.{
  ElementType, to_string, business_rule_task, script_task, send_task, service_task, user_task,
  call_activity, sub_process, event_based_gateway, exclusive_gateway, inclusive_gateway,
  parallel_gateway, error_boundary_event, error_end_event, escalation_boundary_event,
  escalation_end_event, escalation_throw_event, message_boundary_event, message_catch_event,
  signal_boundary_event, signal_catch_event, signal_end_event, signal_throw_event,
  timer_boundary_event, timer_catch_event, message_end_event, message_throw_event,
}
use go_bpmn.Enum.InstanceState.{same, created, started}
use go_bpmn.Enum.JobType.{JobType}
use go_bpmn.Enum.TaskType.{TaskType}
use go_bpmn.Entity.{ElementInstanceEntity, EventDefinitionEntity, Text, valid_text}
use go_bpmn.Entity.Task.{
  Task, Timer, continue_execution_task, join_parallel_gateway_task, trigger_event_task,
}
use go_bpmn.Graph.Node.{Node}

-- What is created for an execution.
pub data Work : Type 0 where
  no_work user_task_work : Work
  job_work : JobType → Work
  task_work : TaskType → Task → Work
  signal_subscription_work : (name : String) → Work

-- The execution waits for work: it is neither a scope with executions, nor has it been served before.
abbrev pub needs_work : ElementInstanceEntity → Bool
needs_work e =
    (same e.state created || same e.state started)
    && is_zero e.execution_count
    && not e.context.valid

abbrev multi_instance_job : ElementInstanceEntity → JobType
multi_instance_job e =
    if same e.state created then JobType.start_multi_instance else JobType.end_multi_instance

-- A task, whose work is done by a job of the type.
abbrev task_job : JobType → ElementInstanceEntity → Work
task_job t e =
    if e.is_multi_instance
    then job_work (multi_instance_job e)
    else if same e.state started
    then job_work t
    else no_work

abbrev user_task_of : ElementInstanceEntity → Work
user_task_of e =
    if e.is_multi_instance
    then job_work (multi_instance_job e)
    else if same e.state started
    then user_task_work
    else no_work

abbrev sub_process_work : Node → ElementInstanceEntity → Work
sub_process_work n e =
    if e.is_multi_instance
    then job_work (multi_instance_job e)
    else if n.is_multi_instance && same e.state started
    then task_work TaskType.continue_execution continue_execution_task
    else no_work

-- A message's name may be known, its correlation key is not.
abbrev message_work : Option EventDefinitionEntity → Work
message_work none = job_work JobType.subscribe_message
message_work (some d) = job_work JobType.set_message_correlation_key

abbrev trigger : Option Timer → Work
trigger timer = task_work TaskType.trigger_event (trigger_event_task "" "" 0 0 timer)

abbrev timer_of : EventDefinitionEntity → Timer
timer_of d = record {
  time = d.time.time;
  time_cycle = d.time_cycle.string;
  time_duration = d.time_duration.string;
}

-- How a time is written is a matter of Go's package `time`.
module _ (show_time : ℕ → String) where
  -- `Timer.String` of engine/model.go.
  abbrev pub show_timer : Timer → String
  show_timer t =
      if not (t.time == 0)
      then show_time t.time
      else if not (str_eq t.time_cycle "")
      then t.time_cycle
      else t.time_duration

  abbrev set_context : String → ElementInstanceEntity → ElementInstanceEntity
  set_context s e = record e { context = valid_text s }

  -- Without an event definition a job asks for it; else it is the context of the execution.
  abbrev defined :
      Option EventDefinitionEntity
      → ElementInstanceEntity
      → JobType
      → (EventDefinitionEntity → Work × String)
      → Work × ElementInstanceEntity
  defined none e t f = (job_work t, e)
  defined (some d) e t f = ((f d).0, set_context (f d).1 e)

  -- The execution's context may be set; `key` is the correlation key of the process instance.
  unfoldable pub work_for :
      ElementType → Text → Node → ElementInstanceEntity → Result (Work × ElementInstanceEntity)
  work_for business_rule_task key n e = ok (task_job JobType.execute e, e)
  work_for script_task key n e = ok (task_job JobType.execute e, e)
  work_for send_task key n e = ok (task_job JobType.execute e, e)
  work_for service_task key n e = ok (task_job JobType.execute e, e)
  work_for user_task key n e = ok (user_task_of e, e)
  work_for call_activity key n e = ok (
    task_job JobType.call_process e,
    if not e.is_multi_instance && same e.state started then record e { context = key } else e,
  )
  work_for sub_process key n e = ok (sub_process_work n e, e)
  work_for event_based_gateway key n e = ok (no_work, e)
  work_for exclusive_gateway key n e = ok (job_work JobType.evaluate_exclusive_gateway, e)
  work_for inclusive_gateway key n e = ok (job_work JobType.evaluate_inclusive_gateway, e)
  work_for parallel_gateway key n e =
      ok (task_work TaskType.join_parallel_gateway join_parallel_gateway_task, e)
  work_for error_boundary_event key n e =
      ok (defined n.event_definition e JobType.set_error_code (λ d. (no_work, d.error_code.string)))
  work_for error_end_event key n e = ok (
      defined n.event_definition e JobType.set_error_code
        (λ d. (trigger none, d.error_code.string)))
  work_for escalation_boundary_event key n e = ok (
      defined n.event_definition e JobType.set_escalation_code
        (λ d. (no_work, d.escalation_code.string)))
  work_for escalation_end_event key n e = ok (
      defined n.event_definition e JobType.set_escalation_code
        (λ d. (trigger none, d.escalation_code.string)))
  work_for escalation_throw_event key n e = ok (
      defined n.event_definition e JobType.set_escalation_code
        (λ d. (trigger none, d.escalation_code.string)))
  work_for message_boundary_event key n e = ok (message_work n.event_definition, e)
  work_for message_catch_event key n e = ok (message_work n.event_definition, e)
  work_for signal_boundary_event key n e = ok (
      defined n.event_definition e JobType.subscribe_signal
        (λ d. (signal_subscription_work d.signal_name.string, d.signal_name.string)))
  work_for signal_catch_event key n e = ok (
      defined n.event_definition e JobType.subscribe_signal
        (λ d. (signal_subscription_work d.signal_name.string, d.signal_name.string)))
  work_for signal_end_event key n e = ok (
      defined n.event_definition e JobType.set_signal_name
        (λ d. (trigger none, d.signal_name.string)))
  work_for signal_throw_event key n e = ok (
      defined n.event_definition e JobType.set_signal_name
        (λ d. (trigger none, d.signal_name.string)))
  work_for timer_boundary_event key n e = ok (
      defined n.event_definition e JobType.set_timer
        (λ d. (trigger (some (timer_of d)), show_timer (timer_of d))))
  work_for timer_catch_event key n e = ok (
      defined n.event_definition e JobType.set_timer
        (λ d. (trigger (some (timer_of d)), show_timer (timer_of d))))
  work_for message_end_event key n e = ok (job_work JobType.execute, e)
  work_for message_throw_event key n e = ok (job_work JobType.execute, e)
  work_for t key n e =
      err (error (str_append "BPMN element type " (str_append (to_string t) " is not supported")))

  unfoldable pub work_of :
      Text → Node → ElementInstanceEntity → Result (Work × ElementInstanceEntity)
  unfolding work_for
  work_of key n e = if needs_work e then work_for e.bpmn_element_type key n e else ok (no_work, e)
