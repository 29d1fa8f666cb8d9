-- ===== src/Tests/Forks.antt =====
-- An inclusive gateway "choose" with a sequence flow to "yes", and a default one to "no".
use go_bpmn.Shared.{◌+ℤ◌, lookup, ℕ, zero, suc, ◌≡◌, refl, true, some, [], ◌∷◌, String, pos, ok}
use go_bpmn.Graph.Create.{create_execution_at}
use go_bpmn.Enum.ElementType.{inclusive_gateway, none_end_event, process}
use go_bpmn.Enum.InstanceState.{completed}
use go_bpmn.Model.Element.{Element, no_model}
use go_bpmn.Model.Element.{process as process_model, inclusive_gateway as gateway_model}
use go_bpmn.Entity.{ElementInstanceEntity, no_element_instance, no_text}
use go_bpmn.Graph.Node.{Graph}
use go_bpmn.Execution.Exclusive.{Evaluated, job_fails}
use go_bpmn.Execution.Inclusive.{evaluate_inclusive_gateway}
use go_bpmn.Execution.Forked.{Forked, evaluate_inclusive_gateway-Forked}
use go_bpmn.Tests.Choices.{element_of, flow_at, node_of, scope, choosing}

abbrev element_at : ℕ → Element
element_at zero = element_of "example" process [] (process_model true)
element_at (suc zero) = element_of "choose" inclusive_gateway (0 ∷ 1 ∷ []) (gateway_model "to no")
element_at (suc (suc zero)) = element_of "yes" none_end_event [] no_model
element_at _ = element_of "no" none_end_event [] no_model

abbrev graph : Graph
graph = record {
  model = record {
    element = element_at;
    flow = flow_at;
    elements = 0 ∷ 1 ∷ 2 ∷ 3 ∷ [];
    attachments = [];
  };
  nodes =
      ("example", node_of 0) ∷ ("choose", node_of 1) ∷ ("yes", node_of 2) ∷ ("no", node_of 3) ∷ [];
  process_element = 0;
}

abbrev forking : ElementInstanceEntity
forking = record choosing { bpmn_element_type = inclusive_gateway }

abbrev end_at : ℕ → String → ElementInstanceEntity
end_at element_id id = record no_element_instance {
  element_id = element_id;
  bpmn_element_id = id;
  bpmn_element_type = none_end_event;
  parent = some 1;
}

abbrev both : Evaluated
both = record {
  job_error = no_text;
  scope = record scope { execution_count = pos 3 };
  execution = record forking { state = completed };
  next = end_at 12 "yes" ∷ end_at 13 "no" ∷ [];
}

forks : evaluate_inclusive_gateway graph 1 scope forking "choose" (some ("yes" ∷ [])) ≡ ok both
unfolding evaluate_inclusive_gateway lookup create_execution_at ◌+ℤ◌
forks = refl

evaluate_inclusive_gateway-Forked_example : Forked graph 1 scope forking (some ("yes" ∷ [])) both
evaluate_inclusive_gateway-Forked_example =
    evaluate_inclusive_gateway-Forked graph 1 scope forking (some ("yes" ∷ [])) both forks refl

-- A target that is decided twice is an error of the job.
twice :
    evaluate_inclusive_gateway graph 1 scope forking "choose" (some ("yes" ∷ "no" ∷ "yes" ∷ []))
    ≡ ok (job_fails graph 1 scope forking "decision contains duplicate BPMN element ID yes")
unfolding evaluate_inclusive_gateway lookup
twice = refl
