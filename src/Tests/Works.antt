-- ===== src/Tests/Works.antt =====
-- What is created for an execution that comes to "work".
use go_bpmn.Execution.Add.{Executions, KeptFor, entries, add_execution, entries-add_execution}
use go_bpmn.Shared.{ℕ, suc, ◌++◌, ◌==◌, if◌then◌else◌, some, none, [], ◌∷◌, ◌≡◌, refl, ok}
use go_bpmn.Enum.InstanceState
use go_bpmn.Enum.JobType
use go_bpmn.Entity.{ElementInstanceEntity, no_text}
use go_bpmn.Graph.Node.{next_state}
use go_bpmn.Execution.Work.{Work, job_work, work_of}
use go_bpmn.Execution.Supported.{work_of-next_state}
use go_bpmn.Tests.Scenario.{objects, scope, at, node_of}

abbrev coming : ElementInstanceEntity
coming = at 3 2 InstanceState.unset

work_of-next_state_example :
    (r : Work × ElementInstanceEntity) × (work_of
        (λ t. "")
        no_text
        (node_of 3)
        (record coming { state = next_state objects (node_of 3) scope coming })
      ≡ ok r)
work_of-next_state_example =
    work_of-next_state (λ t. "") no_text objects (node_of 3) scope coming refl

executes :
    work_of (λ t. "") no_text (node_of 3) (at 3 2 InstanceState.started)
    ≡ ok (job_work JobType.execute, at 3 2 InstanceState.started)
unfolding work_of
executes = refl

-- The execution is handled once, though it was there before.
entries-add_execution_example :
    (kept : Executions) × (add_execution coming (some coming ∷ none ∷ [])
      ≡ kept ++ some coming ∷ [])
    × KeptFor coming (some coming ∷ none ∷ []) kept
    × ((id : ℕ)
        → entries id (add_execution coming (some coming ∷ none ∷ [])) ≡ (
            if coming.id == id
            then (if id == 0 then suc (entries id (some coming ∷ none ∷ [])) else 1)
            else entries id (some coming ∷ none ∷ [])))
entries-add_execution_example = entries-add_execution coming (some coming ∷ none ∷ [])
