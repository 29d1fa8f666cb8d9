-- ===== src/Validate/Process.antt =====
-- `validateProcess` of engine/internal/graph.go.
use go_bpmn.Shared.{
  ℕ, Bool, not, String, List, [], ◌∷◌, ◌++◌, Result, ok, err, error, ◌>>=◌, length, ltb, str_append,
}
use go_bpmn.Enum.ElementType.{none_start_event, link_catch_event, link_throw_event}
use go_bpmn.Model.Element.{Objects, as_process}
use go_bpmn.Model.Lookup.{children_by_type, with_type}
use go_bpmn.Validate.Pointer.{element_pointer}
use go_bpmn.Validate.Elements.{ErrorCause, cause_if, check_element}
use go_bpmn.Validate.Links.{check_catches, check_throws}

module _ (o : Objects) where
  open o use {element}

  abbrev pub process_cause : ℕ → String → ErrorCause
  process_cause b what = record {
    pointer = element_pointer o b;
    type = "process";
    detail = str_append "process " (str_append (element b).id what);
  }

  unfoldable pub check_process : ℕ → Bool → List ErrorCause
  unfolding children_by_type element_pointer
  check_process b is_executable =
      cause_if o (not is_executable) (process_cause b " is not executable")
      ++ cause_if o (ltb 1 (length (children_by_type o (element b) none_start_event)))
          (process_cause b " has multiple none start events")

  unfoldable pub check_elements : List ℕ → Result (List ErrorCause)
  unfolding check_element
  check_elements [] = ok []
  check_elements (b ∷ bs) = do here ← check_element o b; rest ← check_elements bs; ok (here ++ rest)

  unfoldable pub check_links : List ℕ → Result (List ErrorCause)
  unfolding with_type check_catches check_throws
  check_links bs = do
    catches ← check_catches o (with_type o link_catch_event bs) []
    throws ← check_throws o (with_type o link_throw_event bs) catches.0
    ok (catches.1 ++ throws)

  -- The causes; the first element has to be the process.
  unfoldable pub validate_process : List ℕ → Result (List ErrorCause)
  unfolding check_process check_elements check_links
  validate_process [] = err (error "expected BPMN elements not to be empty")
  validate_process (b ∷ bs) = elim (as_process (element b).model) [
    | err e ↦ err (error "expected process")
    | ok is_executable ↦ (do
      elements ← check_elements (b ∷ bs)
      links ← check_links (b ∷ bs)
      ok (check_process b is_executable ++ elements ++ links))
  ]
