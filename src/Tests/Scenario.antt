-- ===== src/Tests/Scenario.antt =====
-- A process with a parallel fork and join, and a sequential multi-instance task, for the tests:
-- start → fork → (work, review) → join → end.
use go_bpmn.Shared.{ℕ, zero, suc, ◌+◌, ◌==◌, true, String, none, some, List, [], ◌∷◌, pos}
use go_bpmn.Enum.ElementType.{
  ElementType, none_end_event, none_start_event, parallel_gateway, process, service_task,
}
use go_bpmn.Enum.InstanceState.{InstanceState, created, started}
use go_bpmn.Model.Element.{
  Element, ElementModel, MultiInstance, Objects, SequenceFlow, no_model, task,
}
use go_bpmn.Model.Element.{process as process_model}
use go_bpmn.Entity.{
  ElementEntity, ElementInstanceEntity, no_element_instance, no_text, valid_int4, valid_text,
}
use go_bpmn.Graph.Node.{Node, Graph}

abbrev child : String → ElementType → List ℕ → List ℕ → ElementModel → Element
child id type incoming outgoing model = record {
  id = id;
  name = id;
  type = type;
  parent = some 0;
  children = [];
  incoming = incoming;
  outgoing = outgoing;
  model = model;
}

abbrev in_turn : MultiInstance
in_turn = record { is_sequential = true; loop_cardinality = pos 2 }

-- The entry of a list at a position, or the first value.
abbrev pick {ℓ} : {A : Type ℓ} → A → List A → ℕ → A
pick a [] n = a
pick a (x ∷ xs) zero = x
pick a (x ∷ xs) (suc n) = pick a xs n

abbrev root : Element
root = record {
  id = "example";
  name = "";
  type = process;
  parent = none;
  children = 1 ∷ 2 ∷ 3 ∷ 4 ∷ 5 ∷ 6 ∷ [];
  incoming = [];
  outgoing = [];
  model = process_model true;
}

abbrev pub element_at : ℕ → Element
element_at = pick root (
    root
    ∷ child "start" none_start_event [] (0 ∷ []) no_model
    ∷ child "fork" parallel_gateway (0 ∷ []) (1 ∷ 2 ∷ []) no_model
    ∷ child "work" service_task (1 ∷ []) (3 ∷ []) (task none)
    ∷ child "review" service_task (2 ∷ []) (4 ∷ []) (task (some in_turn))
    ∷ child "join" parallel_gateway (3 ∷ 4 ∷ []) (5 ∷ []) no_model
    ∷ child "end" none_end_event (5 ∷ []) [] no_model
    ∷ [])

abbrev flow_between : String → ℕ → ℕ → SequenceFlow
flow_between id source target = record { id = id; source = some source; target = some target }

abbrev flow_at : ℕ → SequenceFlow
flow_at = pick (flow_between "f0" 1 2) (
    flow_between "f0" 1 2
    ∷ flow_between "f1" 2 3
    ∷ flow_between "f2" 2 4
    ∷ flow_between "f3" 3 5
    ∷ flow_between "f4" 4 5
    ∷ flow_between "f5" 5 6
    ∷ [])

abbrev pub objects : Objects
objects = record {
  element = element_at;
  flow = flow_at;
  elements = 0 ∷ 1 ∷ 2 ∷ 3 ∷ 4 ∷ 5 ∷ 6 ∷ [];
  attachments = [];
}

abbrev entity : ℕ → ElementEntity
entity n = record {
  id = 10 + n;
  process_id = 1;
  bpmn_element_id = (element_at n).id;
  bpmn_element_name = no_text;
  bpmn_element_type = (element_at n).type;
  is_multi_instance = n == 4;
  parent_bpmn_element_id = valid_text "example";
}

abbrev pub entities : List ElementEntity
entities = entity 0 ∷ entity 1 ∷ entity 2 ∷ entity 3 ∷ entity 4 ∷ entity 5 ∷ entity 6 ∷ []

-- The node of an element has 10 more than the address of the element as its ID.
abbrev pub node_of : ℕ → Node
node_of n = record {
  id = 10 + n;
  bpmn_element = n;
  boundary_events = [];
  event_definition = none;
  is_multi_instance = n == 4;
}

abbrev pub graph : Graph
graph = record {
  model = objects;
  nodes =
      ("example", node_of 0)
      ∷ ("start", node_of 1)
      ∷ ("fork", node_of 2)
      ∷ ("work", node_of 3)
      ∷ ("review", node_of 4)
      ∷ ("join", node_of 5)
      ∷ ("end", node_of 6)
      ∷ [];
  process_element = 0;
}

-- The scope of a process instance that has executions.
abbrev pub scope : ElementInstanceEntity
scope = record no_element_instance {
  id = 1;
  element_id = 10;
  bpmn_element_id = "example";
  bpmn_element_type = process;
  execution_count = pos 2;
  state = started;
}

-- An execution at an element, which came there from another.
abbrev pub at : ℕ → ℕ → InstanceState → ElementInstanceEntity
at n from state = record no_element_instance {
  id = 100 + from;
  element_id = 10 + n;
  bpmn_element_id = (element_at n).id;
  bpmn_element_type = (element_at n).type;
  prev_element_id = valid_int4 (10 + from);
  state = state;
  parent = some 1;
}

-- A multi-instance execution, which waits for its activities to be created.
abbrev pub review : ElementInstanceEntity
review = record (at 4 2 created) { is_multi_instance = true }
