-- ===== src/Graph/MultiInstance.antt =====
-- `graph.continueMultiInstanceExecution` of engine/internal/graph.go: a multi-instance execution, which
-- is the scope of its activities, is moved to its next state. `fresh` is the address at which the
-- first of the new executions is allocated.
use go_bpmn.Shared.{
  ℕ, ◌+◌, ◌&&◌, List, [], ◌++◌, pos, Result, ok, deref, ◌>>=◌, map, length, is_pos, is_zero,
  if◌then◌else◌, ◌==◌,
}
use go_bpmn.Enum.InstanceState.{InstanceState, same, completed, created, started, terminated}
use go_bpmn.Model.Lookup.{get_multi_instance}
use go_bpmn.Entity.{ElementInstanceEntity, no_text}
use go_bpmn.Graph.Node.{Node, Graph, next_multi_instance_state}
use go_bpmn.Graph.Build.{find_node}
use go_bpmn.Graph.Create.{add_count, start_multi_instance}
use go_bpmn.Graph.Branch.{take_multi_instance_outgoing, attach_boundary_events, count_pending, neg}
use go_bpmn.Graph.Continue.{Continued, drop_execution}

-- The activities are created if the model states how many; otherwise a job asks for the number.
unfoldable pub start_activities_of :
    Graph
    → Node
    → ElementInstanceEntity
    → ℕ
    → ElementInstanceEntity
    → ℕ
    → List ElementInstanceEntity
    → Result Continued
unfolding get_multi_instance start_multi_instance
start_activities_of g n scope ep e fresh before = do
  characteristic ← get_multi_instance (g.model.element n.bpmn_element)
  m ← deref characteristic
  let start = do
    r ← start_multi_instance g ep e m.loop_cardinality m.is_sequential fresh
    ok (record { scope = scope; execution = r.0; next = before ++ r.1 })
  if is_pos m.loop_cardinality
      then start
      else ok (record { scope = scope; execution = e; next = before })

-- The state stays: activities may be missing, or the end of the multi-instance has to be decided.
unfoldable pub keep_state :
    Graph → Node → ElementInstanceEntity → ℕ → ElementInstanceEntity → ℕ → Result Continued
unfolding start_activities_of
keep_state g n scope ep e fresh =
    if same e.state created && is_zero e.execution_count
    then start_activities_of g n scope ep e fresh []
    else if same e.state started && e.context.valid
    then ok (record { scope = scope; execution = record e { context = no_text }; next = [] })
    else ok (record { scope = scope; execution = e; next = [] })

unfoldable pub create_multi_instance :
    Graph → Node → ℕ → ElementInstanceEntity → ℕ → ElementInstanceEntity → ℕ → Result Continued
unfolding start_activities_of attach_boundary_events count_pending
create_multi_instance g n sp scope ep e fresh =
    let attached = attach_boundary_events g sp scope ep e n.boundary_events in
    let pending = count_pending g (map g.model.element n.boundary_events) in
    let scope' = add_count (pos (length n.boundary_events)) scope in
    if pending == 0
    then start_activities_of g n scope' ep e (fresh + length n.boundary_events) attached
    else ok (record {
      scope = scope';
      execution = record e { execution_count = neg pending };
      next = attached;
    })

unfoldable pub complete_multi_instance :
    Graph → Node → ℕ → ElementInstanceEntity → ElementInstanceEntity → Result Continued
unfolding take_multi_instance_outgoing
complete_multi_instance g n sp scope e = do
  next ← take_multi_instance_outgoing g sp (drop_execution scope) (g.model.element n.bpmn_element)
  ok (record {
    scope = add_count (pos (length next)) (drop_execution scope);
    execution = e;
    next = next;
  })

unfoldable pub enter_multi_instance_state :
    Graph
    → Node
    → ℕ
    → ElementInstanceEntity
    → ℕ
    → ElementInstanceEntity
    → ℕ
    → InstanceState
    → Result Continued
enter_multi_instance_state g n sp scope ep e fresh next =
    if same e.state next
    then keep_state g n scope ep e fresh
    else if same next created
    then create_multi_instance g n sp scope ep (record e { state = next }) fresh
    else if same next completed
    then complete_multi_instance g n sp scope (record e { state = next })
    else ok (record { scope = scope; execution = record e { state = next }; next = [] })

unfoldable pub continue_multi_instance_execution :
    Graph → ℕ → ElementInstanceEntity → ℕ → ElementInstanceEntity → ℕ → Result Continued
continue_multi_instance_execution g sp scope ep e fresh = do
  n ← find_node g e.bpmn_element_id
  if same e.state terminated
      then ok (record { scope = drop_execution scope; execution = e; next = [] })
      else enter_multi_instance_state g n sp scope ep e fresh (next_multi_instance_state scope e)
