-- ===== src/Graph/Build.antt =====
-- Building and reading the nodes of a graph: `newGraph`, `setEventDefinitions`, `node` and
-- `ensureSequenceFlow` of engine/internal/graph.go.
use go_bpmn.Shared.{
  ℕ, false, not, String, none, some, List, [], ◌∷◌, Result, ok, err, error, ◌>>=◌, pos, length,
  ◌==◌, if◌then◌else◌, str_append, lookup, insert, itoa,
}
use go_bpmn.Enum.ElementType.{same, process}
use go_bpmn.Model.Element.{Objects}
use go_bpmn.Model.Kinds.{is_task_or_scope}
use go_bpmn.Model.Lookup.{attached_to, target_by_id}
use go_bpmn.Entity.{ElementEntity, EventDefinitionEntity}
use go_bpmn.Graph.Node.{Node, Graph}

-- `graph.node`.
unfoldable pub find_node : Graph → String → Result Node
find_node g id = elim (lookup id g.nodes) [
  | none ↦ err (
      error (
        str_append "process "
          (str_append (g.model.element g.process_element).id (str_append " has no element " id))))
  | some n ↦ ok n
]

-- `g.nodes[id]`: the zero node for a missing key. Its element is the nil pointer, which no use of
-- this read goes through, and stands as the address 0.
unfoldable pub node_or_zero : Graph → String → Node
node_or_zero g id = elim (lookup id g.nodes) [
  | none ↦ record {
    id = 0;
    bpmn_element = 0;
    boundary_events = [];
    event_definition = none;
    is_multi_instance = false;
  }
  | some n ↦ n
]

-- The entities by BPMN element ID; of two with one ID the later one stays.
unfoldable pub element_map :
    List (String × ElementEntity) → List ElementEntity → List (String × ElementEntity)
element_map m [] = m
element_map m (e ∷ es) = element_map (insert e.bpmn_element_id e m) es

unfoldable pub new_node : Objects → ℕ → ElementEntity → Node
unfolding is_task_or_scope attached_to
new_node o b e = record {
  id = e.id;
  bpmn_element = b;
  boundary_events =
      if is_task_or_scope (o.element b).type then attached_to o (o.element b).id else [];
  event_definition = none;
  is_multi_instance = e.is_multi_instance;
}

unfoldable pub add_nodes :
    Objects
    → List (String × ElementEntity)
    → List (String × Node)
    → List ℕ
    → Result (List (String × Node))
add_nodes o m nodes [] = ok nodes
add_nodes o m nodes (b ∷ bs) = elim (lookup (o.element b).id m) [
  | none ↦ err (error (str_append "BPMN element " (str_append (o.element b).id " has no entity")))
  | some e ↦ add_nodes o m (insert (o.element b).id (new_node o b e) nodes) bs
]

abbrev mismatch : ℕ → ℕ → String
mismatch n m =
    str_append "expected number of BPMN elements and entities to be equal: "
      (str_append (itoa (pos n)) (str_append " != " (itoa (pos m))))

new_graph_of : Objects → List ℕ → List ElementEntity → Result Graph
unfolding add_nodes element_map new_node
new_graph_of o [] elements = err (error "expected BPMN elements not to be empty")
new_graph_of o (root ∷ rest) elements =
    if not (length (root ∷ rest) == length elements)
    then err (error (mismatch (length (root ∷ rest)) (length elements)))
    else if not (same (o.element root).type process)
    then err (error "expected process")
    else (do
      nodes ← add_nodes o (element_map [] elements) [] (root ∷ rest)
      ok (record { model = o; nodes = nodes; process_element = root }))

unfoldable pub new_graph : Objects → List ℕ → List ElementEntity → Result Graph
unfolding new_graph_of
new_graph o bpmn_elements elements = new_graph_of o bpmn_elements elements

set_event_definition : EventDefinitionEntity → List (String × Node) → List (String × Node)
set_event_definition d nodes = elim (lookup d.bpmn_element_id nodes) [
  | none ↦ nodes
  | some n ↦ insert d.bpmn_element_id (record n { event_definition = some d }) nodes
]

enrich : List (String × Node) → List EventDefinitionEntity → List (String × Node)
unfolding set_event_definition
enrich nodes [] = nodes
enrich nodes (d ∷ ds) = enrich (set_event_definition d nodes) ds

-- Enriches the nodes by event definitions.
unfoldable pub set_event_definitions : Graph → List EventDefinitionEntity → Graph
unfolding enrich
set_event_definitions g ds = record g { nodes = enrich g.nodes ds }

-- Fails unless the source has an outgoing sequence flow to the target.
unfoldable pub ensure_sequence_flow : Graph → String → String → Result (Unit {0})
unfolding find_node target_by_id
ensure_sequence_flow g source_id target_id = do
  n ← find_node g source_id
  elim (target_by_id g.model (g.model.element n.bpmn_element) target_id) [
    | none ↦ err (
        error (
          str_append "element "
            (str_append source_id (str_append " has no outgoing sequence flow to " target_id))))
    | some t ↦ ok tt
  ]
