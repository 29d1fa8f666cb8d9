-- ===== src/Graph/Continue.antt =====
-- `graph.continueExecution` of engine/internal/graph.go: one execution is moved to its next state. The
-- scope and the execution, which the code mutates, are part of the result, with the new executions;
-- `sp` and `ep` are their addresses.
use go_bpmn.Shared.{
  ℕ, ◌||◌, String, List, [], ◌∷◌, ◌++◌, pos, ◌-ℤ◌, Result, ok, deref, ◌>>=◌, map, length, str_eq,
  if◌then◌else◌, ◌==◌,
}
use go_bpmn.Enum.ElementType.{link_catch_event, link_throw_event, event_based_gateway, sub_process}
use go_bpmn.Enum.ElementType.{same as same_type}
use go_bpmn.Enum.InstanceState.{InstanceState, same, completed, created, started, terminated}
use go_bpmn.Model.Element.{
  EventDefinition, as_intermediate_catch_event, as_intermediate_throw_event,
}
use go_bpmn.Model.Kinds.{is_task_or_scope}
use go_bpmn.Model.Lookup.{children_by_type}
use go_bpmn.Entity.{ElementInstanceEntity}
use go_bpmn.Graph.Node.{Node, Graph, next_state}
use go_bpmn.Graph.Build.{find_node}
use go_bpmn.Graph.Create.{add_count, create_execution, create_execution_at}
use go_bpmn.Graph.Branch.{
  take_outgoing, attach_boundary_events, event_branch, targets, count_pending, neg,
}

pub record Continued : Type 0 where
  pub scope : ElementInstanceEntity
  pub execution : ElementInstanceEntity
  pub next : List ElementInstanceEntity

abbrev pub link_name : EventDefinition → Result String
link_name d = do l ← deref d.link; ok l.name

abbrev pub drop_execution : ElementInstanceEntity → ElementInstanceEntity
drop_execution scope = record scope { execution_count = scope.execution_count -ℤ pos 1 }

-- The loop over the link catch events of the scope, up to the first with the name.
unfoldable pub follow_link :
    Graph
    → ℕ
    → ElementInstanceEntity
    → String
    → List ℕ
    → Result (ElementInstanceEntity × List ElementInstanceEntity)
unfolding create_execution_at
follow_link g sp scope name [] = ok (scope, [])
follow_link g sp scope name (c ∷ cs) = do
  let rest = follow_link g sp scope name cs
  definition ← as_intermediate_catch_event (g.model.element c).model
  catch_name ← link_name definition
  let created_at_catch = do
    r ← create_execution_at g sp scope (g.model.element c).id
    ok (r.0, r.1 ∷ [])
  if str_eq name catch_name then created_at_catch else rest

unfoldable pub throw_link :
    Graph
    → Node
    → ℕ
    → ElementInstanceEntity
    → Result (ElementInstanceEntity × List ElementInstanceEntity)
unfolding follow_link children_by_type find_node
throw_link g n sp scope = do
  scope_node ← find_node g scope.bpmn_element_id
  definition ← as_intermediate_throw_event (g.model.element n.bpmn_element).model
  name ← link_name definition
  follow_link g sp scope name
      (children_by_type g.model (g.model.element scope_node.bpmn_element) link_catch_event)

-- The branch for a completed execution.
unfoldable pub complete_execution :
    Graph → Node → ℕ → ElementInstanceEntity → ℕ → ElementInstanceEntity → Result Continued
unfolding throw_link take_outgoing
complete_execution g n sp scope ep e =
    let scope' = drop_execution scope in
    if same_type e.bpmn_element_type link_throw_event
    then (do r ← throw_link g n sp scope'; ok (record { scope = r.0; execution = e; next = r.1 }))
    else if n.is_multi_instance
    then ok (record { scope = scope'; execution = e; next = [] })
    else (do
      next ← take_outgoing g sp scope' ep e (g.model.element n.bpmn_element)
      ok (record { scope = add_count (pos (length next)) scope'; execution = e; next = next }))

-- The execution waits for its pending events, or is started if there are none.
abbrev pub await_events : ℕ → ElementInstanceEntity → ElementInstanceEntity
await_events pending e =
    if pending == 0
    then record e { state = started }
    else record e { execution_count = neg pending }

unfoldable pub attach_events :
    Graph → Node → ℕ → ElementInstanceEntity → ℕ → ElementInstanceEntity → Continued
unfolding attach_boundary_events count_pending
attach_events g n sp scope ep e = record {
  scope = add_count (pos (length n.boundary_events)) scope;
  execution = await_events (count_pending g (map g.model.element n.boundary_events)) e;
  next = attach_boundary_events g sp scope ep e n.boundary_events;
}

unfoldable pub await_gateway :
    Graph → Node → ℕ → ElementInstanceEntity → ℕ → ElementInstanceEntity → Result Continued
unfolding targets event_branch count_pending
await_gateway g n sp scope ep e = do
  ts ← targets g (g.model.element n.bpmn_element)
  ok (record {
    scope = add_count (pos (length ts)) scope;
    execution = await_events (count_pending g ts) e;
    next = map (event_branch g sp scope ep e) ts;
  })

-- A sub-process that is started has its first execution at its none start event.
unfoldable pub start_scope : Graph → Node → ℕ → Continued → Result Continued
unfolding create_execution
start_scope g n ep c =
    if same c.execution.state started
    then (if same_type c.execution.bpmn_element_type sub_process
        then (if n.is_multi_instance then ok (record c { next = [] }) else (do
          r ← create_execution g ep (record c.execution { state = c.scope.state })
          ok (record c { execution = r.0; next = c.next ++ r.1 ∷ [] })))
        else ok c)
    else ok c

-- The branch for an execution that is not completed.
unfoldable pub start_execution :
    Graph → Node → ℕ → ElementInstanceEntity → ℕ → ElementInstanceEntity → Result Continued
start_execution g n sp scope ep e =
    let unchanged : Continued = record { scope = scope; execution = e; next = [] } in
    if same e.state created
    then (if is_task_or_scope e.bpmn_element_type
        then (if n.is_multi_instance
            then ok unchanged
            else start_scope g n ep (attach_events g n sp scope ep e))
        else if same_type e.bpmn_element_type event_based_gateway
        then (do c ← await_gateway g n sp scope ep e; start_scope g n ep c)
        else start_scope g n ep unchanged)
    else start_scope g n ep unchanged

unfoldable pub enter_state :
    Graph
    → Node
    → ℕ
    → ElementInstanceEntity
    → ℕ
    → ElementInstanceEntity
    → InstanceState
    → Result Continued
enter_state g n sp scope ep e next =
    if same e.state next
    then ok (record { scope = scope; execution = e; next = [] })
    else if same next completed
    then complete_execution g n sp scope ep (record e { state = next })
    else start_execution g n sp scope ep (record e { state = next })

unfoldable pub continue_execution :
    Graph → ℕ → ElementInstanceEntity → ℕ → ElementInstanceEntity → Result Continued
continue_execution g sp scope ep e = do
  n ← find_node g e.bpmn_element_id
  if same e.state completed || same e.state terminated
      then ok (record { scope = drop_execution scope; execution = e; next = [] })
      else enter_state g n sp scope ep e (next_state g.model n scope e)
