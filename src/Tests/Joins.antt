-- ===== src/Tests/Joins.antt =====
-- The join of a parallel gateway, on three executions that wait at "join".
use go_bpmn.Graph.Nodes.{Finds, new_graph-IsNode}
use go_bpmn.Enum.ElementType.{same, process}
use go_bpmn.Shared.{
  All, length, lookup, insert, traverse, ℕ, ◌≤◌, ◌≡◌, ◌≢◌, refl, true, false, List, [], ◌∷◌, ok,
  arith, count,
}
use go_bpmn.Enum.InstanceState.{started, completed}
use go_bpmn.Entity.{ElementInstanceEntity}
use go_bpmn.Graph.Node.{Node}
use go_bpmn.Graph.Build.{new_graph, find_node}
use go_bpmn.Graph.Join.Counter.{get, increment, decrement}
use go_bpmn.Graph.Join.Loop.{source_ids, all_at, join_parallel_gateway}
use go_bpmn.Graph.Join.Invariant.{senders}
use go_bpmn.Graph.Join.Laws.{Taken}
use go_bpmn.Graph.Join.Gateway.{
  element_of, join_parallel_gateway_sound, join_parallel_gateway_complete,
  join_parallel_gateway-current,
}
use go_bpmn.Tests.Scenario.{objects, entities, graph, at, node_of}

new_graph_test : new_graph objects objects.elements entities ≡ ok graph
unfolding new_graph lookup insert
new_graph_test = refl

-- Two executions that came from "work", and one that came from "review".
abbrev from_work : ElementInstanceEntity
from_work = at 5 3 started

abbrev from_review : ElementInstanceEntity
from_review = at 5 4 started

abbrev rest : List ElementInstanceEntity
rest = from_work ∷ from_review ∷ []

abbrev joined : List ElementInstanceEntity
joined = from_work ∷ record from_review { state = completed } ∷ []

found : find_node graph "join" ≡ ok (node_of 5)
unfolding find_node lookup
found = refl

ids : source_ids graph (element_of graph (node_of 5)) ≡ ok (13 ∷ 14 ∷ [])
unfolding source_ids traverse lookup
ids = refl

joins : join_parallel_gateway graph (from_work ∷ rest) ≡ ok joined
unfolding join_parallel_gateway lookup traverse get increment decrement
joins = refl

some_joined : joined ≢ []
some_joined h = cc (h)

join_parallel_gateway_sound_example :
    (n : Node) × (sources : List ℕ) × (find_node graph "join" ≡ ok n)
    × (source_ids graph (element_of graph n) ≡ ok sources)
    × Taken true (from_work ∷ rest) joined
    × ((a : ℕ) → count a (senders joined) ≡ count a sources)
join_parallel_gateway_sound_example =
    join_parallel_gateway_sound graph from_work rest joined joins some_joined

join_parallel_gateway-current_example :
    (others : List ElementInstanceEntity) × (joined ≡ from_work ∷ others) × Taken false rest others
join_parallel_gateway-current_example =
    join_parallel_gateway-current graph (node_of 5) from_work rest joined (13 ∷ 14 ∷ []) found ids
      (omega arith) joins some_joined

covered : (a : ℕ) → count a (13 ∷ 14 ∷ []) ≤ count a (senders (from_work ∷ rest))
covered a = ground arith

all_here : all_at 15 (from_work ∷ rest) ≡ true
unfolding all_at
all_here = refl

join_parallel_gateway_complete_example :
    (taken : List ElementInstanceEntity) × (join_parallel_gateway graph (from_work ∷ rest)
      ≡ ok taken)
    × (taken ≢ [])
join_parallel_gateway_complete_example =
    join_parallel_gateway_complete graph (node_of 5) from_work rest (13 ∷ 14 ∷ []) found refl refl
      refl all_here ids covered

new_graph-IsNode_example :
    (graph.model ≡ objects)
    × (graph.process_element ≡ 0)
    × (same (objects.element 0).type process ≡ true)
    × (length objects.elements ≡ length entities)
    × All (Finds objects entities graph) objects.elements
new_graph-IsNode_example =
    new_graph-IsNode objects 0 (1 ∷ 2 ∷ 3 ∷ 4 ∷ 5 ∷ 6 ∷ []) entities graph new_graph_test
