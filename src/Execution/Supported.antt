-- ===== src/Execution/Supported.antt =====
-- The types of elements at which executions wait (engine/internal/execution.go,
-- engine/internal/graph.go).
use go_bpmn.Shared.{
  ℕ, ◌≡◌, refl, ◌∙◌, Bool, true, false, ◌||◌, String, Option, none, some, ok, if◌then◌else◌, arith,
  Bool-cases, inl, inr,
}
use go_bpmn.Enum.ElementType.{
  ElementType, business_rule_task, script_task, send_task, service_task, user_task, call_activity,
  sub_process, event_based_gateway, exclusive_gateway, inclusive_gateway, parallel_gateway,
  error_boundary_event, error_end_event, escalation_boundary_event, escalation_end_event,
  escalation_throw_event, message_boundary_event, message_catch_event, signal_boundary_event,
  signal_catch_event, signal_end_event, signal_throw_event, timer_boundary_event, timer_catch_event,
  message_end_event, message_throw_event,
}
use go_bpmn.Enum.ElementType.{same as same_type}
use go_bpmn.Enum.InstanceState.{
  InstanceState, same, unset, completed, created, queued, started, suspended,
}
use go_bpmn.Model.Element.{Element, Objects}
use go_bpmn.Model.Kinds.{is_boundary_event, is_catch_event, is_task_or_scope}
use go_bpmn.Entity.{ElementInstanceEntity, Text}
use go_bpmn.Graph.Node.{Node, or_state, suspended_state, element_state, active_state, next_state}
use go_bpmn.Execution.Work.{Work, no_work, needs_work, work_for, work_of}

-- The types for which there is something to create.
abbrev is_supported : ElementType → Bool
is_supported business_rule_task = true
is_supported script_task = true
is_supported send_task = true
is_supported service_task = true
is_supported user_task = true
is_supported call_activity = true
is_supported sub_process = true
is_supported event_based_gateway = true
is_supported exclusive_gateway = true
is_supported inclusive_gateway = true
is_supported parallel_gateway = true
is_supported error_boundary_event = true
is_supported error_end_event = true
is_supported escalation_boundary_event = true
is_supported escalation_end_event = true
is_supported escalation_throw_event = true
is_supported message_boundary_event = true
is_supported message_catch_event = true
is_supported signal_boundary_event = true
is_supported signal_catch_event = true
is_supported signal_end_event = true
is_supported signal_throw_event = true
is_supported timer_boundary_event = true
is_supported timer_catch_event = true
is_supported message_end_event = true
is_supported message_throw_event = true
is_supported _ = false

module _ (show_time : ℕ → String) (key : Text) where
  work_for_supported :
      (t : ElementType) (n : Node) (e : ElementInstanceEntity)
      → is_supported t ≡ true
      → (r : Work × ElementInstanceEntity) × (work_for show_time t key n e ≡ ok r)
  unfolding work_for
  work_for_supported business_rule_task n e h = (_, refl)
  work_for_supported script_task n e h = (_, refl)
  work_for_supported send_task n e h = (_, refl)
  work_for_supported service_task n e h = (_, refl)
  work_for_supported user_task n e h = (_, refl)
  work_for_supported call_activity n e h = (_, refl)
  work_for_supported sub_process n e h = (_, refl)
  work_for_supported event_based_gateway n e h = (_, refl)
  work_for_supported exclusive_gateway n e h = (_, refl)
  work_for_supported inclusive_gateway n e h = (_, refl)
  work_for_supported parallel_gateway n e h = (_, refl)
  work_for_supported error_boundary_event n e h = (_, refl)
  work_for_supported error_end_event n e h = (_, refl)
  work_for_supported escalation_boundary_event n e h = (_, refl)
  work_for_supported escalation_end_event n e h = (_, refl)
  work_for_supported escalation_throw_event n e h = (_, refl)
  work_for_supported message_boundary_event n e h = (_, refl)
  work_for_supported message_catch_event n e h = (_, refl)
  work_for_supported signal_boundary_event n e h = (_, refl)
  work_for_supported signal_catch_event n e h = (_, refl)
  work_for_supported signal_end_event n e h = (_, refl)
  work_for_supported signal_throw_event n e h = (_, refl)
  work_for_supported timer_boundary_event n e h = (_, refl)
  work_for_supported timer_catch_event n e h = (_, refl)
  work_for_supported message_end_event n e h = (_, refl)
  work_for_supported message_throw_event n e h = (_, refl)
  work_for_supported _ n e h = absurd (cc h)

  -- An execution at an element of another type passes.
  passes :
      (t : ElementType) (n : Node) (b : Element)
      → is_supported t ≡ false
      → (element_state t n b ≡ completed)
        × (is_task_or_scope t ≡ false)
        × (same_type t event_based_gateway ≡ false)
        × (is_boundary_event t ≡ false)
        × (is_catch_event t ≡ false)
  unfolding element_state is_task_or_scope is_boundary_event is_catch_event
  passes business_rule_task n b h = absurd (cc h)
  passes script_task n b h = absurd (cc h)
  passes send_task n b h = absurd (cc h)
  passes service_task n b h = absurd (cc h)
  passes user_task n b h = absurd (cc h)
  passes call_activity n b h = absurd (cc h)
  passes sub_process n b h = absurd (cc h)
  passes event_based_gateway n b h = absurd (cc h)
  passes exclusive_gateway n b h = absurd (cc h)
  passes inclusive_gateway n b h = absurd (cc h)
  passes parallel_gateway n b h = absurd (cc h)
  passes error_boundary_event n b h = absurd (cc h)
  passes error_end_event n b h = absurd (cc h)
  passes escalation_boundary_event n b h = absurd (cc h)
  passes escalation_end_event n b h = absurd (cc h)
  passes escalation_throw_event n b h = absurd (cc h)
  passes message_boundary_event n b h = absurd (cc h)
  passes message_catch_event n b h = absurd (cc h)
  passes signal_boundary_event n b h = absurd (cc h)
  passes signal_catch_event n b h = absurd (cc h)
  passes signal_end_event n b h = absurd (cc h)
  passes signal_throw_event n b h = absurd (cc h)
  passes timer_boundary_event n b h = absurd (cc h)
  passes timer_catch_event n b h = absurd (cc h)
  passes message_end_event n b h = absurd (cc h)
  passes message_throw_event n b h = absurd (cc h)
  passes _ n b h = (refl, refl, refl, refl, refl)

  suspended_state_passing :
      (t : ElementType) (e : ElementInstanceEntity)
      → is_supported t ≡ false
      → suspended_state t e ≡ (if same e.state unset then some suspended else none)
  unfolding suspended_state
  suspended_state_passing error_end_event e h = absurd (cc h)
  suspended_state_passing escalation_end_event e h = absurd (cc h)
  suspended_state_passing escalation_throw_event e h = absurd (cc h)
  suspended_state_passing message_catch_event e h = absurd (cc h)
  suspended_state_passing signal_end_event e h = absurd (cc h)
  suspended_state_passing signal_catch_event e h = absurd (cc h)
  suspended_state_passing signal_throw_event e h = absurd (cc h)
  suspended_state_passing timer_catch_event e h = absurd (cc h)
  suspended_state_passing _ e h = refl

  fresh_state :
      (s : InstanceState)
      → same s unset ≡ true
      → (same s created ≡ false) × (same s started ≡ false)
  fresh_state s h = ground arith

  active_state_passing :
      (o : Objects) (n : Node) (e : ElementInstanceEntity)
      → is_supported e.bpmn_element_type ≡ false
      → same e.state unset ≡ true
      → active_state o n e ≡ completed
  unfolding active_state
  active_state_passing o n e other fresh =
      let (ends, no_task, no_gateway, no_boundary, no_catch) =
        passes e.bpmn_element_type n (o.element n.bpmn_element) other in
      simp (no_task, no_gateway, no_boundary, no_catch, (fresh_state e.state fresh).0, ends)

  -- An execution that passes does not wait.
  next_state_passing :
      (o : Objects) (n : Node) (scope e : ElementInstanceEntity)
      → is_supported e.bpmn_element_type ≡ false
      → same e.state unset ≡ true
      → (same (next_state o n scope e) created || same (next_state o n scope e) started) ≡ false
  unfolding next_state
  next_state_passing o n scope e other fresh =
      by_scope (same scope.state queued) (same scope.state suspended) (same e.state started)
        (suspended_state e.bpmn_element_type e) (active_state o n e) (fresh_state e.state fresh).1
        (suspended_state_passing e.bpmn_element_type e other ∙ rw fresh refl)
        (active_state_passing o n e other fresh)
    where
      waits : InstanceState → Bool
      waits s = same s created || same s started

      by_scope :
          (held suspends ends : Bool) (s : Option InstanceState) (a : InstanceState)
          → ends ≡ false
          → s ≡ some suspended
          → a ≡ completed
          → waits (
              if held
              then queued
              else if ends
              then completed
              else or_state (if suspends then s else none) a)
            ≡ false
      by_scope true suspends ends s a no_end is_suspended is_completed = refl
      by_scope false true ends s a no_end is_suspended is_completed = rw (no_end, is_suspended) refl
      by_scope false false ends s a no_end is_suspended is_completed =
          rw (no_end, is_completed) refl

  -- After a new execution was moved to its next state, what it waits for can be created: the error that an
  -- element type is not supported does not come up, whatever the element is.
  pub work_of-next_state :
      (o : Objects) (n : Node) (scope e : ElementInstanceEntity)
      → same e.state unset ≡ true
      → (r : Work × ElementInstanceEntity) × (work_of show_time key n
            (record e { state = next_state o n scope e })
          ≡ ok r)
  unfolding work_of
  work_of-next_state o n scope e fresh = elim (Bool-cases (needs_work moved)) [
    | inr served ↦ ((no_work, moved), rw (work_of, served) refl)
    | inl waits ↦ elim (Bool-cases (is_supported e.bpmn_element_type)) [
      | inl known ↦
          let (r, eq) = work_for_supported e.bpmn_element_type n moved known in
          (r, rw (work_of, waits) eq)
      | inr other ↦ absurd (ground (arith, waits, next_state_passing o n scope e other fresh))
    ]
  ]
    where
      moved : ElementInstanceEntity
      moved = record e { state = next_state o n scope e }
