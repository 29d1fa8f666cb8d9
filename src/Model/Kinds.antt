-- ===== src/Model/Kinds.antt =====
-- The kinds of element types: model/element_type.go, and engine/internal/common.go.
use go_bpmn.Shared.{Bool, true, false}
use go_bpmn.Enum.ElementType.{
  ElementType, business_rule_task, call_activity, error_boundary_event, escalation_boundary_event,
  message_boundary_event, signal_boundary_event, timer_boundary_event, message_catch_event,
  signal_catch_event, timer_catch_event, none_start_event, message_start_event, signal_start_event,
  timer_start_event, script_task, send_task, service_task, sub_process, user_task,
}

unfoldable pub is_boundary_event : ElementType → Bool
is_boundary_event error_boundary_event = true
is_boundary_event escalation_boundary_event = true
is_boundary_event message_boundary_event = true
is_boundary_event signal_boundary_event = true
is_boundary_event timer_boundary_event = true
is_boundary_event _ = false

unfoldable pub is_catch_event : ElementType → Bool
is_catch_event message_catch_event = true
is_catch_event signal_catch_event = true
is_catch_event timer_catch_event = true
is_catch_event _ = false

unfoldable pub is_start_event : ElementType → Bool
is_start_event none_start_event = true
is_start_event message_start_event = true
is_start_event signal_start_event = true
is_start_event timer_start_event = true
is_start_event _ = false

-- A task or a scope, to which boundary events can be attached.
unfoldable pub is_task_or_scope : ElementType → Bool
is_task_or_scope business_rule_task = true
is_task_or_scope call_activity = true
is_task_or_scope script_task = true
is_task_or_scope send_task = true
is_task_or_scope service_task = true
is_task_or_scope sub_process = true
is_task_or_scope user_task = true
is_task_or_scope _ = false

unfoldable pub is_timer_event : ElementType → Bool
is_timer_event timer_boundary_event = true
is_timer_event timer_catch_event = true
is_timer_event timer_start_event = true
is_timer_event _ = false
