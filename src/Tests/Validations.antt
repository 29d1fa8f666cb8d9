-- ===== src/Tests/Validations.antt =====
-- The validation of the example process, which finds no cause.
use go_bpmn.Validate.Elements.{check_flows, check_type}
use go_bpmn.Shared.{◌≡◌, refl, [], ◌∷◌, ok}
use go_bpmn.Validate.Pointer.{element_pointer}
use go_bpmn.Validate.Process.{validate_process}
use go_bpmn.Validate.Theorem.{IsValidProcess, validate_process_sound}
use go_bpmn.Tests.Scenario.{objects}

no_cause_found : validate_process objects (0 ∷ 1 ∷ 2 ∷ 3 ∷ 4 ∷ 5 ∷ 6 ∷ []) ≡ ok []
unfolding validate_process check_type check_flows
no_cause_found = refl

validate_process_sound_example : IsValidProcess objects 0 (1 ∷ 2 ∷ 3 ∷ 4 ∷ 5 ∷ 6 ∷ [])
validate_process_sound_example =
    validate_process_sound objects 0 (1 ∷ 2 ∷ 3 ∷ 4 ∷ 5 ∷ 6 ∷ []) no_cause_found

pointer_of_work : element_pointer objects 3 ≡ "/example/work"
unfolding element_pointer
pointer_of_work = refl
