-- ===== src/Graph/Node.antt =====
-- `graph`, `node`, `nextState` and `nextMultiInstanceState` of engine/internal/graph.go.
use go_bpmn.Shared.{
  ℕ, Bool, true, false, ◌&&◌, ◌||◌, String, Option, none, some, List, is_neg, length, ltb,
  if◌then◌else◌,
}
use go_bpmn.Enum.ElementType.{
  ElementType, error_end_event, escalation_end_event, escalation_throw_event, event_based_gateway,
  exclusive_gateway, inclusive_gateway, message_catch_event, message_end_event, message_throw_event,
  parallel_gateway, signal_catch_event, signal_end_event, signal_throw_event, timer_catch_event,
}
use go_bpmn.Enum.InstanceState.{
  InstanceState, same, unset, completed, created, queued, started, suspended,
}
use go_bpmn.Enum.ElementType.{same as same_type}
use go_bpmn.Model.Element.{Element, Objects}
use go_bpmn.Model.Kinds.{is_boundary_event, is_catch_event, is_task_or_scope}
use go_bpmn.Entity.{ElementInstanceEntity, EventDefinitionEntity}

-- `bpmn_element` and `boundary_events` are addresses of elements.
pub record Node : Type 0 where
  pub id : ℕ
  pub bpmn_element : ℕ
  pub boundary_events : List ℕ
  pub event_definition : Option EventDefinitionEntity
  pub is_multi_instance : Bool

pub record Graph : Type 0 where
  pub model : Objects
  pub nodes : List (String × Node)
  pub process_element : ℕ

-- The execution that has its context set is started, as if its scope were not suspended.
abbrev suspended_event : ElementInstanceEntity → Option InstanceState
suspended_event e = some (if e.context.valid then started else suspended)

-- The `switch` for a suspended scope; `none` where it returns nothing.
unfoldable pub suspended_state : ElementType → ElementInstanceEntity → Option InstanceState
suspended_state error_end_event e = suspended_event e
suspended_state escalation_end_event e = suspended_event e
suspended_state escalation_throw_event e = suspended_event e
suspended_state message_catch_event e = suspended_event e
suspended_state signal_end_event e = suspended_event e
suspended_state signal_catch_event e = suspended_event e
suspended_state signal_throw_event e = suspended_event e
suspended_state timer_catch_event e = suspended_event e
suspended_state _ e = if same e.state unset then some suspended else none

abbrev pub is_none {ℓ} : {A : Type ℓ} → Option A → Bool
is_none none = true
is_none (some _) = false

unfoldable pub task_state : Node → ElementInstanceEntity → InstanceState
task_state n e =
    if n.is_multi_instance
    then (if same e.state created then started else if is_none e.prev then started else created)
    else if same e.state unset
    then created
    else if same e.state suspended
    then created
    else if is_neg e.execution_count
    then created
    else started

-- The last `switch`, on the element type.
unfoldable pub element_state : ElementType → Node → Element → InstanceState
element_state exclusive_gateway n b = if ltb 1 (length b.outgoing) then started else completed
element_state inclusive_gateway n b = if ltb 1 (length b.outgoing) then started else completed
element_state parallel_gateway n b = if ltb 1 (length b.incoming) then started else completed
element_state message_catch_event n b = created
element_state message_end_event n b = started
element_state message_throw_event n b = started
element_state error_end_event n b = if is_none n.event_definition then created else started
element_state escalation_end_event n b = if is_none n.event_definition then created else started
element_state escalation_throw_event n b = if is_none n.event_definition then created else started
element_state signal_catch_event n b = if is_none n.event_definition then created else started
element_state signal_end_event n b = if is_none n.event_definition then created else started
element_state signal_throw_event n b = if is_none n.event_definition then created else started
element_state timer_catch_event n b = if is_none n.event_definition then created else started
element_state _ n b = completed

unfoldable pub active_state : Objects → Node → ElementInstanceEntity → InstanceState
unfolding task_state element_state is_task_or_scope is_boundary_event is_catch_event
active_state o n e =
    if is_task_or_scope e.bpmn_element_type || same_type e.bpmn_element_type event_based_gateway
    then task_state n e
    else if is_boundary_event e.bpmn_element_type
    then created
    else if is_catch_event e.bpmn_element_type && e.prev_element_id.valid
    then created
    else if same e.state created
    then started
    else element_state e.bpmn_element_type n (o.element n.bpmn_element)

abbrev pub or_state : Option InstanceState → InstanceState → InstanceState
or_state none s = s
or_state (some t) s = t

-- The next state of an execution within its scope.
unfoldable pub next_state :
    Objects → Node → ElementInstanceEntity → ElementInstanceEntity → InstanceState
unfolding suspended_state active_state
next_state o n scope e =
    if same scope.state queued
    then queued
    else if same e.state started
    then completed
    else or_state
        (if same scope.state suspended then suspended_state e.bpmn_element_type e else none)
        (active_state o n e)

-- The `switch` on the state of a multi-instance execution.
multi_instance_state : InstanceState → ElementInstanceEntity → ElementInstanceEntity → InstanceState
multi_instance_state unset scope e = if same scope.state suspended then suspended else created
multi_instance_state started scope e = if e.context.valid then started else completed
multi_instance_state _ scope e = created

-- The next state of a multi-instance execution, which is no multi-instance activity.
unfoldable pub next_multi_instance_state :
    ElementInstanceEntity → ElementInstanceEntity → InstanceState
unfolding multi_instance_state
next_multi_instance_state scope e = multi_instance_state e.state scope e
