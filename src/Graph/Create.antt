-- ===== src/Graph/Create.antt =====
-- Creating executions: `createExecution`, `createExecutionAt`, `createProcessScope` and
-- `startMultiInstance` of engine/internal/graph.go. A function that increments the execution count
-- of its scope returns the scope; `sp` is the address of the scope.
use go_bpmn.Shared.{
  ℕ, zero, suc, Bool, false, not, ◌&&◌, String, Option, none, some, List, [], ◌∷◌, ℤ, pos, negsuc,
  ◌+ℤ◌, Failure, Result, ok, err, error, ◌>>=◌, ◌==◌, if◌then◌else◌, str_append, str_eq, itoa,
}
use go_bpmn.Enum.ElementType.{ElementType, process, sub_process, none_start_event}
use go_bpmn.Enum.InstanceState.{started}
use go_bpmn.Model.Element.{Element}
use go_bpmn.Model.Lookup.{children_by_type}
use go_bpmn.Entity.{ElementInstanceEntity, no_element_instance, ProcessInstanceEntity, valid_text}
use go_bpmn.Graph.Node.{Node, Graph}
use go_bpmn.Graph.Build.{find_node, node_or_zero}

-- The fields that each new execution in a scope has from its scope and its node.
unfoldable pub execution_in : ℕ → ElementInstanceEntity → Node → Element → ElementInstanceEntity
execution_in sp scope n b = record no_element_instance {
  partition = scope.partition;
  element_id = n.id;
  process_id = scope.process_id;
  process_instance_id = scope.process_instance_id;
  bpmn_element_id = b.id;
  bpmn_element_type = b.type;
  parent = some sp;
}

abbrev pub add_count : ℤ → ElementInstanceEntity → ElementInstanceEntity
add_count n e = record e { execution_count = e.execution_count +ℤ n }

none_start_events : Graph → ElementType → Element → List ℕ
unfolding children_by_type
none_start_events g process b = children_by_type g.model b none_start_event
none_start_events g sub_process b = children_by_type g.model b none_start_event
none_start_events g _ b = []

-- The new execution stands at the first none start event of the scope.
unfoldable pub create_execution :
    Graph → ℕ → ElementInstanceEntity → Result (ElementInstanceEntity × ElementInstanceEntity)
unfolding none_start_events find_node node_or_zero execution_in
create_execution g sp scope = do
  n ← find_node g scope.bpmn_element_id
  elim (none_start_events g (g.model.element n.bpmn_element).type
      (g.model.element n.bpmn_element)) [
        | [] ↦ err (
            error
              (str_append "scope " (str_append scope.bpmn_element_id " has no none start event")))
        | b ∷ _ ↦
            let start = g.model.element b in
            ok (add_count (pos 1) scope, execution_in sp scope (node_or_zero g start.id) start)
      ]

-- `node.bpmnElement.Parent != scopeNode.bpmnElement`, negated.
abbrev is_parent : Option ℕ → ℕ → Bool
is_parent none s = false
is_parent (some p) s = p == s

-- Whether the scope has the element: a multi-instance scope has only its own.
abbrev in_scope : Graph → ElementInstanceEntity → Node → Node → String → Bool
in_scope g scope scope_node n id =
    if scope.is_multi_instance
    then str_eq id scope.bpmn_element_id
    else is_parent (g.model.element n.bpmn_element).parent scope_node.bpmn_element

abbrev not_in_scope : ElementInstanceEntity → String → String
not_in_scope scope id =
    str_append (if scope.is_multi_instance then "multi-instance scope " else "scope ")
      (str_append scope.bpmn_element_id (str_append " has no element " id))

unfoldable pub create_execution_at :
    Graph
    → ℕ
    → ElementInstanceEntity
    → String
    → Result (ElementInstanceEntity × ElementInstanceEntity)
unfolding find_node execution_in
create_execution_at g sp scope id = do
  scope_node ← find_node g scope.bpmn_element_id
  n ← find_node g id
  let next = record (execution_in sp scope n (g.model.element n.bpmn_element)) {
    is_multi_instance = n.is_multi_instance && not scope.is_multi_instance;
  }
  if in_scope g scope scope_node n id
      then ok (add_count (pos 1) scope, next)
      else err (error (not_in_scope scope id))

unfoldable pub create_process_scope : Graph → ProcessInstanceEntity → ElementInstanceEntity
unfolding node_or_zero
create_process_scope g i =
    let root = g.model.element g.process_element in
    record no_element_instance {
      partition = i.partition;
      element_id = (node_or_zero g root.id).id;
      process_id = i.process_id;
      process_instance_id = i.id;
      bpmn_element_id = root.id;
      bpmn_element_type = root.type;
      created_at = i.created_at;
      created_by = i.created_by;
      started_at = i.started_at;
      state = i.state;
    }

abbrev pub create_failed : String → String → String
create_failed id text =
    str_append "failed to create execution at " (str_append id (str_append ": " text))

abbrev pub wrap : String → Failure → Failure
wrap id (error text) = error (create_failed id text)
wrap id f = f

abbrev pub with_context {ℓ} : {A : Type ℓ} → String → Result A → Result A
with_context id (ok a) = ok a
with_context id (err f) = err (wrap id f)

-- The loop of `startMultiInstance`: `fresh` is the address at which the next activity is allocated,
-- and `prev` that of the activity before it, in a sequential multi-instance.
unfoldable pub start_activities :
    Graph
    → ℕ
    → ℕ
    → Bool
    → ℕ
    → Option ℕ
    → ElementInstanceEntity
    → Result (ElementInstanceEntity × List ElementInstanceEntity)
unfolding create_execution_at
start_activities g ep zero is_sequential fresh prev e = ok (e, [])
start_activities g ep (suc n) is_sequential fresh prev e = do
  created ← with_context e.bpmn_element_id (create_execution_at g ep e e.bpmn_element_id)
  rest ←
      start_activities g ep n is_sequential (suc fresh) (if is_sequential then some fresh else none)
        created.0
  ok (rest.0, (if is_sequential then record created.1 { prev = prev } else created.1) ∷ rest.1)

unfoldable pub start_cardinality :
    Graph
    → ℕ
    → ℤ
    → Bool
    → ℕ
    → ElementInstanceEntity
    → Result (ElementInstanceEntity × List ElementInstanceEntity)
start_cardinality g ep (pos n) is_sequential fresh e =
    start_activities g ep n is_sequential fresh none e
start_cardinality g ep (negsuc n) is_sequential fresh e = ok (e, [])

-- The multi-instance execution at `ep` is started, and its activities are created, at the addresses
-- from `fresh` on.
unfoldable pub start_multi_instance :
    Graph
    → ℕ
    → ElementInstanceEntity
    → ℤ
    → Bool
    → ℕ
    → Result (ElementInstanceEntity × List ElementInstanceEntity)
start_multi_instance g ep e loop_cardinality is_sequential fresh =
    start_cardinality g ep loop_cardinality is_sequential fresh
      (record e { state = started; context = valid_text (itoa loop_cardinality) })
