-- ===== src/Graph/Branch.antt =====
-- The branches that `continueExecution` and `continueMultiInstanceExecution` start: along outgoing
-- sequence flows, at attached boundary events, and behind an event-based gateway
-- (engine/internal/graph.go).
use go_bpmn.Shared.{
  ℕ, zero, suc, Bool, not, ◌&&◌, ◌||◌, none, some, List, [], ◌∷◌, ℤ, pos, negsuc, Result, ok, deref,
  ◌>>=◌, traverse, map, if◌then◌else◌,
}
use go_bpmn.Enum.ElementType.{same, parallel_gateway, message_boundary_event}
use go_bpmn.Model.Element.{Element}
use go_bpmn.Entity.{ElementInstanceEntity, valid_int4}
use go_bpmn.Graph.Node.{Graph, is_none}
use go_bpmn.Graph.Build.{node_or_zero}
use go_bpmn.Graph.Create.{execution_in}

-- The target of a sequence flow; a flow without one is a read through a nil pointer.
abbrev pub target_of : Graph → ℕ → Result Element
target_of g f = do t ← deref (g.model.flow f).target; ok (g.model.element t)

-- The branch at the target of an outgoing sequence flow. Before a parallel gateway it keeps where it
-- comes from; the number of the element stands in the field in any case.
unfoldable pub outgoing_branch :
    Graph → ℕ → ElementInstanceEntity → ℕ → ElementInstanceEntity → ℕ → Result ElementInstanceEntity
unfolding execution_in node_or_zero
outgoing_branch g sp scope ep e f = do
  t ← target_of g f
  ok (
      let joins = same t.type parallel_gateway in
      record (execution_in sp scope (node_or_zero g t.id) t) {
        prev_element_id = record { int32 = e.element_id; valid = joins };
        is_multi_instance = (node_or_zero g t.id).is_multi_instance && not scope.is_multi_instance;
        prev = if joins then some ep else none;
      })

unfoldable pub take_outgoing :
    Graph
    → ℕ
    → ElementInstanceEntity
    → ℕ
    → ElementInstanceEntity
    → Element
    → Result (List ElementInstanceEntity)
unfolding outgoing_branch
take_outgoing g sp scope ep e b = traverse (outgoing_branch g sp scope ep e) b.outgoing

unfoldable pub multi_instance_branch :
    Graph → ℕ → ElementInstanceEntity → ℕ → Result ElementInstanceEntity
unfolding execution_in node_or_zero
multi_instance_branch g sp scope f = do
  t ← target_of g f
  ok (record (execution_in sp scope (node_or_zero g t.id) t) {
    is_multi_instance = (node_or_zero g t.id).is_multi_instance && not scope.is_multi_instance;
  })

-- The same for a multi-instance execution, whose branches never keep where they come from.
unfoldable pub take_multi_instance_outgoing :
    Graph → ℕ → ElementInstanceEntity → Element → Result (List ElementInstanceEntity)
unfolding multi_instance_branch
take_multi_instance_outgoing g sp scope b = traverse (multi_instance_branch g sp scope) b.outgoing

-- An event that waits for an execution: a boundary event that is attached to it, or a catch event
-- behind an event-based gateway.
unfoldable pub event_branch :
    Graph → ℕ → ElementInstanceEntity → ℕ → ElementInstanceEntity → Element → ElementInstanceEntity
unfolding execution_in node_or_zero
event_branch g sp scope ep e b = record (execution_in sp scope (node_or_zero g b.id) b) {
  prev_element_id = valid_int4 e.element_id;
  prev = some ep;
}

-- The test under which the loops decrement `executionCount`.
unfoldable pub is_pending : Graph → Element → Bool
unfolding node_or_zero
is_pending g b =
    is_none (node_or_zero g b.id).event_definition || same b.type message_boundary_event

-- How often the loop decrements.
unfoldable pub count_pending : Graph → List Element → ℕ
unfolding is_pending
count_pending g [] = 0
count_pending g (b ∷ bs) = let n = count_pending g bs in if is_pending g b then suc n else n

abbrev pub neg : ℕ → ℤ
neg zero = pos 0
neg (suc n) = negsuc n

unfoldable pub attach_boundary_events :
    Graph
    → ℕ
    → ElementInstanceEntity
    → ℕ
    → ElementInstanceEntity
    → List ℕ
    → List ElementInstanceEntity
unfolding event_branch
attach_boundary_events g sp scope ep e boundary_events =
    map (λ b. event_branch g sp scope ep e (g.model.element b)) boundary_events

-- The targets of an event-based gateway.
unfoldable pub targets : Graph → Element → Result (List Element)
targets g b = traverse (target_of g) b.outgoing
