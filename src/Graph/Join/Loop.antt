-- ===== src/Graph/Join/Loop.antt =====
-- `graph.joinParallelGateway` of engine/internal/graph.go.
use go_bpmn.Shared.{
  ℕ, pos, Bool, true, false, not, ◌||◌, List, [], ◌∷◌, ◌++◌, Result, ok, err, error, deref, ◌>>=◌,
  traverse, length, ltb, ◌==◌, if◌then◌else◌, str_append, itoa,
}
use go_bpmn.Enum.ElementType.{same, parallel_gateway}
use go_bpmn.Enum.InstanceState.{completed}
use go_bpmn.Model.Element.{Element}
use go_bpmn.Entity.{ElementInstanceEntity}
use go_bpmn.Graph.Node.{Node, Graph}
use go_bpmn.Graph.Build.{find_node, node_or_zero}
use go_bpmn.Graph.Join.Counter.{Counter, get, decrement, count_all}

abbrev pub sent_by : ElementInstanceEntity → ℕ
sent_by e = e.prev_element_id.int32

-- All but the first waiting execution are completed by the join.
abbrev pub join_state : Bool → ElementInstanceEntity → ElementInstanceEntity
join_state true e = e
join_state false e = record e { state = completed }

-- The loop over the waiting executions; `needed` is the number of incoming sequence flows.
unfoldable pub join_loop :
    Bool
    → ℕ
    → Counter
    → List ElementInstanceEntity
    → List ElementInstanceEntity
    → List ElementInstanceEntity
join_loop first needed incoming_ids joined [] = []
join_loop first needed incoming_ids joined (e ∷ es) =
    let skip = join_loop false needed incoming_ids joined es in
    let joined' = joined ++ join_state first e ∷ [] in
    let rest = join_loop false needed (decrement (sent_by e) incoming_ids) joined' es in
    if get (sent_by e) incoming_ids == 0
    then skip
    else if length joined' == needed
    then joined'
    else rest

pub source_id : Graph → ℕ → Result ℕ
unfolding node_or_zero
source_id g f = do s ← deref (g.model.flow f).source; ok (node_or_zero g (g.model.element s).id).id

-- The IDs of the elements that the incoming sequence flows come from.
unfoldable pub source_ids : Graph → Element → Result (List ℕ)
unfolding source_id
source_ids g b = traverse (source_id g) b.incoming

unfoldable pub all_at : ℕ → List ElementInstanceEntity → Bool
all_at id [] = true
all_at id (e ∷ es) = if e.element_id == id then all_at id es else false

unfoldable pub join_at :
    Graph → Node → List ElementInstanceEntity → Result (List ElementInstanceEntity)
unfolding all_at source_ids join_loop count_all
join_at g n waiting =
    let b = g.model.element n.bpmn_element in
    if not (same b.type parallel_gateway) || ltb (length b.incoming) 2
    then err (error (str_append "element " (str_append b.id " is not a joining parallel gateway")))
    else if not (all_at n.id waiting)
    then err
        (error (str_append "expected all waiting executions to have element ID " (itoa (pos n.id))))
    else (do
      ids ← source_ids g b
      ok (join_loop true (length b.incoming) (count_all ids []) [] waiting))

-- Nothing is joined where nothing is returned.
unfoldable pub join_parallel_gateway :
    Graph → List ElementInstanceEntity → Result (List ElementInstanceEntity)
unfolding find_node join_at
join_parallel_gateway g [] = ok []
join_parallel_gateway g (e ∷ es) =
    if ltb (length (e ∷ es)) 2
    then ok []
    else (do n ← find_node g e.bpmn_element_id; join_at g n (e ∷ es))
