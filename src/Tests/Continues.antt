-- ===== src/Tests/Continues.antt =====
-- Continuing an execution at "fork", and the multi-instance execution at "review".
use go_bpmn.Graph.MultiInstance.{
  keep_state, enter_multi_instance_state, continue_multi_instance_execution,
}
use go_bpmn.Graph.Create.{start_activities, start_cardinality, start_multi_instance}
use go_bpmn.Shared.{
  ◌-ℤ◌, ◌+ℤ◌, ℕ, ◌≡◌, refl, true, false, ◌==◌, List, [], ◌∷◌, ok, arith, some, none, pos, lookup,
  traverse, itoa,
}
use go_bpmn.Graph.Continue.{complete_execution, enter_state, Continued, continue_execution}
use go_bpmn.Graph.Build.{find_node}
use go_bpmn.Enum.InstanceState.{InstanceState, completed}
use go_bpmn.Entity.{ElementInstanceEntity, no_int4}
use go_bpmn.Graph.Node.{next_state, next_multi_instance_state}
use go_bpmn.Graph.Counts.Adds.{Accounted}
use go_bpmn.Graph.Counts.Continue.{continue_execution-Accounted}
use go_bpmn.Graph.Counts.Activities.{Activities, start_multi_instance-Activities, started_with}
use go_bpmn.Graph.Counts.MultiInstance.{continue_multi_instance_execution-Accounted}
use go_bpmn.Tests.Scenario.{graph, scope, at, review}

-- An execution at "fork".
abbrev forking : ElementInstanceEntity
forking = record (at 2 1 InstanceState.unset) { prev_element_id = no_int4 }

-- The branch that an element starts in the scope.
abbrev branch : ℕ → ElementInstanceEntity
branch n = record (at n 2 InstanceState.unset) {
  id = 0;
  prev_element_id = record { int32 = 12; valid = false };
  is_multi_instance = n == 4;
}

abbrev forked : Continued
forked = record {
  scope = record scope { execution_count = pos 3 };
  execution = record forking { state = completed };
  next = branch 3 ∷ branch 4 ∷ [];
}

forks : continue_execution graph 1 scope 2 forking ≡ ok forked
unfolding continue_execution lookup traverse find_node enter_state next_state complete_execution
    ◌+ℤ◌ ◌-ℤ◌
forks = refl

continue_execution-Accounted_example : Accounted 1 2 scope forking forked
continue_execution-Accounted_example =
    continue_execution-Accounted graph 1 2 scope forking forked (ground arith) refl forks

-- The activities of "review", the first of which stands at the address 7.
abbrev activity : ElementInstanceEntity
activity = record (at 4 2 InstanceState.unset) {
  id = 0;
  prev_element_id = no_int4;
  parent = some 2;
}

abbrev activities : List ElementInstanceEntity
activities = activity ∷ record activity { prev = some 7 } ∷ []

abbrev reviewing : ElementInstanceEntity
reviewing = record (started_with (pos 2) review) { execution_count = pos 2 }

starts : start_multi_instance graph 2 review (pos 2) true 7 ≡ ok (reviewing, activities)
unfolding start_multi_instance lookup itoa start_cardinality start_activities ◌+ℤ◌
starts = refl

start_multi_instance-Activities_example :
    Activities 2 2 true 7 none (started_with (pos 2) review) reviewing activities
start_multi_instance-Activities_example =
    start_multi_instance-Activities graph 2 review (pos 2) true 7 (reviewing, activities) refl
      starts

abbrev reviewed : Continued
reviewed = record { scope = scope; execution = reviewing; next = activities }

reviews : continue_multi_instance_execution graph 1 scope 2 review 7 ≡ ok reviewed
unfolding continue_multi_instance_execution lookup itoa find_node enter_multi_instance_state
    next_multi_instance_state keep_state start_cardinality start_activities ◌+ℤ◌
reviews = refl

continue_multi_instance_execution-Accounted_example : Accounted 1 2 scope review reviewed
continue_multi_instance_execution-Accounted_example =
    continue_multi_instance_execution-Accounted graph 1 2 7 scope review reviewed (ground arith)
      refl reviews
