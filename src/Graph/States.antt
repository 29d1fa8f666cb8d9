-- ===== src/Graph/States.antt =====
-- What `nextState` and `nextMultiInstanceState` can return (engine/internal/graph.go).
use go_bpmn.Shared.{◌≡◌, refl, Bool, true, false, ◌&&◌, ◌||◌, none, arith, if◌then◌else◌}
use go_bpmn.Enum.ElementType.{ElementType, error_end_event, event_based_gateway, exclusive_gateway}
use go_bpmn.Enum.ElementType.{same as same_type}
use go_bpmn.Enum.InstanceState.{InstanceState, same, completed, created, queued, started, suspended}
use go_bpmn.Model.Element.{Element, Objects}
use go_bpmn.Model.Kinds.{is_boundary_event, is_catch_event, is_task_or_scope}
use go_bpmn.Entity.{ElementInstanceEntity}
use go_bpmn.Graph.Node.{
  Node, or_state, suspended_state, task_state, element_state, active_state, next_state,
  next_multi_instance_state,
}

-- A state in which an execution can be after it was continued.
abbrev pub is_progress : InstanceState → Bool
is_progress completed = true
is_progress created = true
is_progress queued = true
is_progress started = true
is_progress suspended = true
is_progress _ = false

element_state-progress :
    (t : ElementType) (n : Node) (b : Element) → is_progress (element_state t n b) ≡ true
unfolding element_state
element_state-progress exclusive_gateway n b = ground arith
element_state-progress _ n b = ground arith

task_state-progress : (n : Node) (e : ElementInstanceEntity) → is_progress (task_state n e) ≡ true
unfolding task_state
task_state-progress n e = ground arith

suspended_state-progress :
    (t : ElementType) (e : ElementInstanceEntity) (s : InstanceState)
    → is_progress s ≡ true
    → is_progress (or_state (suspended_state t e) s) ≡ true
unfolding suspended_state
suspended_state-progress error_end_event e s h = ground arith
suspended_state-progress _ e s h = ground arith

active_state-progress :
    (o : Objects) (n : Node) (e : ElementInstanceEntity) → is_progress (active_state o n e) ≡ true
unfolding active_state
active_state-progress o n e =
    by_kind (is_task_or_scope t || same_type t event_based_gateway) (is_boundary_event t)
      (is_catch_event t && e.prev_element_id.valid) (same e.state created)
  where
    open e use {bpmn_element_type as t}

    last : InstanceState
    last = element_state t n (o.element n.bpmn_element)

    by_kind :
        (task boundary catch waiting : Bool)
        → is_progress (
            if task
            then task_state n e
            else if boundary
            then created
            else if catch
            then created
            else if waiting
            then started
            else last)
          ≡ true
    by_kind true boundary catch waiting = task_state-progress n e
    by_kind false true catch waiting = refl
    by_kind false false true waiting = refl
    by_kind false false false true = refl
    by_kind false false false false = element_state-progress t n (o.element n.bpmn_element)

-- The next state of an execution is none of the zero value, canceled and terminated.
pub next_state-progress :
    (o : Objects) (n : Node) (scope e : ElementInstanceEntity)
    → is_progress (next_state o n scope e) ≡ true
unfolding next_state
next_state-progress o n scope e =
    by_scope (same scope.state queued) (same e.state started) (same scope.state suspended)
  where
    by_scope :
        (held ends suspends : Bool)
        → is_progress (
            if held
            then queued
            else if ends
            then completed
            else or_state
                (if suspends then suspended_state e.bpmn_element_type e else none)
                (active_state o n e))
          ≡ true
    by_scope true ends suspends = refl
    by_scope false true suspends = refl
    by_scope false false true =
        suspended_state-progress e.bpmn_element_type e _ (active_state-progress o n e)
    by_scope false false false = active_state-progress o n e

pub next_multi_instance_state-progress :
    (scope e : ElementInstanceEntity) → is_progress (next_multi_instance_state scope e) ≡ true
unfolding next_multi_instance_state
next_multi_instance_state-progress scope e = ground arith
