-- ===== src/Tests/Choices.antt =====
-- An exclusive gateway "choose" with a sequence flow to "yes", and a default one to "no".
use go_bpmn.Shared.{
  ◌+ℤ◌, lookup, ℕ, zero, suc, ◌+◌, ◌≡◌, refl, false, true, String, some, none, List, [], ◌∷◌, pos,
  ok, ok-injective, subst, inl, inr,
}
use go_bpmn.Graph.Create.{create_execution_at}
use go_bpmn.Enum.ElementType.{ElementType, exclusive_gateway, none_end_event, process}
use go_bpmn.Enum.InstanceState.{started, completed}
use go_bpmn.Model.Element.{Element, ElementModel, SequenceFlow, no_model}
use go_bpmn.Model.Element.{process as process_model, exclusive_gateway as gateway_model}
use go_bpmn.Entity.{ElementInstanceEntity, no_element_instance, no_text}
use go_bpmn.Graph.Node.{Node, Graph}
use go_bpmn.Graph.Build.{find_node}
use go_bpmn.Execution.Exclusive.{Evaluated, evaluate_exclusive_gateway, job_fails}
use go_bpmn.Execution.Chosen.{
  Chosen, LeadsTo, evaluate_exclusive_gateway-Chosen, evaluate_exclusive_gateway_empty,
}

abbrev pub element_of : String → ElementType → List ℕ → ElementModel → Element
element_of id type outgoing model = record {
  id = id;
  name = "";
  type = type;
  parent = some 0;
  children = [];
  incoming = [];
  outgoing = outgoing;
  model = model;
}

abbrev element_at : ℕ → Element
element_at zero = element_of "example" process [] (process_model true)
element_at (suc zero) = element_of "choose" exclusive_gateway (0 ∷ 1 ∷ []) (gateway_model "to no")
element_at (suc (suc zero)) = element_of "yes" none_end_event [] no_model
element_at _ = element_of "no" none_end_event [] no_model

abbrev pub flow_at : ℕ → SequenceFlow
flow_at zero = record { id = "to yes"; source = some 1; target = some 2 }
flow_at _ = record { id = "to no"; source = some 1; target = some 3 }

abbrev pub node_of : ℕ → Node
node_of n = record {
  id = 10 + n;
  bpmn_element = n;
  boundary_events = [];
  event_definition = none;
  is_multi_instance = false;
}

abbrev pub graph : Graph
graph = record {
  model = record {
    element = element_at;
    flow = flow_at;
    elements = 0 ∷ 1 ∷ 2 ∷ 3 ∷ [];
    attachments = [];
  };
  nodes =
      ("example", node_of 0) ∷ ("choose", node_of 1) ∷ ("yes", node_of 2) ∷ ("no", node_of 3) ∷ [];
  process_element = 0;
}

abbrev pub scope : ElementInstanceEntity
scope = record no_element_instance {
  element_id = 10;
  bpmn_element_id = "example";
  bpmn_element_type = process;
  execution_count = pos 1;
  state = started;
}

abbrev pub choosing : ElementInstanceEntity
choosing = record no_element_instance {
  element_id = 11;
  bpmn_element_id = "choose";
  bpmn_element_type = exclusive_gateway;
  state = started;
  parent = some 1;
}

abbrev chosen : Evaluated
chosen = record {
  job_error = no_text;
  scope = record scope { execution_count = pos 2 };
  execution = record choosing { state = completed };
  next =
      record no_element_instance {
        element_id = 12;
        bpmn_element_id = "yes";
        bpmn_element_type = none_end_event;
        parent = some 1;
      }
      ∷ [];
}

chooses : evaluate_exclusive_gateway graph 1 scope choosing "choose" (some "yes") ≡ ok chosen
unfolding evaluate_exclusive_gateway lookup create_execution_at ◌+ℤ◌
chooses = refl

evaluate_exclusive_gateway-Chosen_example : Chosen graph 1 scope choosing (some "yes") chosen
evaluate_exclusive_gateway-Chosen_example =
    evaluate_exclusive_gateway-Chosen graph 1 scope choosing (some "yes") chosen chooses refl

abbrev refused : Evaluated
refused = job_fails graph 1 scope choosing "element choose has no outgoing sequence flow to "

refuses : evaluate_exclusive_gateway graph 1 scope choosing "choose" (some "") ≡ ok refused
unfolding evaluate_exclusive_gateway lookup
refuses = refl

all_named :
    (n : Node)
    → find_node graph "choose" ≡ ok n
    → LeadsTo graph.model (graph.model.element n.bpmn_element).outgoing ""
    → ⊥
unfolding find_node lookup
all_named n found =
    subst (λ k. LeadsTo graph.model (graph.model.element k.bpmn_element).outgoing "" → ⊥)
      (ok-injective found) none_empty
  where
    none_empty : LeadsTo graph.model (0 ∷ 1 ∷ []) "" → ⊥
    none_empty (inl (t, is_t, empty)) = cc (is_t, empty)
    none_empty (inr (inl (t, is_t, empty))) = cc (is_t, empty)
    none_empty (inr (inr none_left)) = none_left

evaluate_exclusive_gateway_empty_example : refused.job_error.valid ≡ true
evaluate_exclusive_gateway_empty_example =
    evaluate_exclusive_gateway_empty graph 1 scope choosing refused all_named refuses
