-- ===== src/Validate/Theorem.antt =====
-- `validateProcess` as a whole (engine/internal/graph.go).
use go_bpmn.Shared.{
  ℕ, ◌≤◌, ◌≡◌, ap, ◌∙◌, Bool, true, false, not, List, [], ◌∷◌, ok, >>=-eq-ok, ok-injective,
  Result-cases, All, append_empty, length, ltb, arith, inl, inr,
}
use go_bpmn.Enum.ElementType.{none_start_event, link_catch_event, link_throw_event}
use go_bpmn.Model.Element.{Objects, as_process}
use go_bpmn.Model.Lookup.{children_by_type, with_type}
use go_bpmn.Validate.Elements.{cause_if}
use go_bpmn.Validate.Links.{check_catches, check_throws}
use go_bpmn.Validate.Process.{
  process_cause, check_process, check_elements, check_links, validate_process,
}
use go_bpmn.Validate.LinksSound.{IsAnswered, throws_sound}
use go_bpmn.Validate.Sound.{IsValid, no_cause, elements-IsValid}

module _ (o : Objects) where
  open o use {element}

  -- A process against which there is no cause.
  pub record IsValidProcess (b : ℕ) (bs : List ℕ) : Type 0 where
    pub executable : as_process (element b).model ≡ ok true
    pub one_start : length (children_by_type o (element b) none_start_event) ≤ 1
    pub elements : All (IsValid o) (b ∷ bs)
    pub links :
        All
          (IsAnswered o (with_type o link_catch_event (b ∷ bs)))
          (with_type o link_throw_event (b ∷ bs))

  links_valid :
      (bs : List ℕ)
      → check_links o bs ≡ ok []
      → All (IsAnswered o (with_type o link_catch_event bs)) (with_type o link_throw_event bs)
  unfolding check_links
  links_valid bs h =
      let (catches, is_catches, h₁) =
        >>=-eq-ok (check_catches o (with_type o link_catch_event bs) []) _ h in
      let (throws, is_throws, done) =
        >>=-eq-ok (check_throws o (with_type o link_throw_event bs) catches.0) _ h₁ in
      let (no_catch, no_throw) = append_empty catches.1 throws (ok-injective done) in
      throws_sound o (with_type o link_catch_event bs) (with_type o link_throw_event bs) catches
        is_catches no_catch (is_throws ∙ ap ok no_throw)

  process_valid :
      (b : ℕ) (is_executable : Bool)
      → check_process o b is_executable ≡ []
      → (is_executable ≡ true) × (length (children_by_type o (element b) none_start_event) ≤ 1)
  unfolding check_process
  process_valid b is_executable h =
      let several = ltb 1 (length (children_by_type o (element b) none_start_event)) in
      let (runs, starts) =
        append_empty (cause_if o (not is_executable) (process_cause o b " is not executable"))
          (cause_if o several (process_cause o b " has multiple none start events")) h in
      (
        is_set is_executable (no_cause o (not is_executable) _ runs),
        at_most_one _ (no_cause o several _ starts),
      )
    where
      is_set : (t : Bool) → not t ≡ false → t ≡ true
      is_set t eq = ground arith

      at_most_one : (n : ℕ) → ltb 1 n ≡ false → n ≤ 1
      at_most_one n eq = ground arith

-- Where validating a process finds no cause, the process is executable and has at most one none start
-- event; each element has an ID, and is as its type asks for: an event-based gateway leads to catch events,
-- and to at least two, the default of an exclusive or inclusive gateway is one of its outgoing sequence
-- flows, an inclusive gateway has at most one incoming sequence flow, and a sub-process starts with exactly
-- one none start event and no other start event; each boundary event is attached, and each incoming and outgoing
-- sequence flow has a source and a target; and to each link throw event, a link catch event of the process
-- answers that has the same name, which is not empty, and the same scope.
pub validate_process_sound :
    (o : Objects) (b : ℕ) (bs : List ℕ)
    → validate_process o (b ∷ bs) ≡ ok []
    → IsValidProcess o b bs
unfolding validate_process
validate_process_sound o b bs h = elim (Result-cases (as_process (o.element b).model)) [
  | inr (e, wrong) ↦ absurd (cc (rw (validate_process, wrong) at h))
  | inl (is_executable, right) ↦
      let (elements, is_elements, h₁) =
        >>=-eq-ok (check_elements o (b ∷ bs)) _ (rw (validate_process, right) at h) in
      let (links, is_links, done) = >>=-eq-ok (check_links o (b ∷ bs)) _ h₁ in
      let (e₁, no_link) = append_empty _ links (ok-injective done) in
      let (no_process, no_element) = append_empty (check_process o b is_executable) elements e₁ in
      let (runs, starts) = process_valid o b is_executable no_process in
      record {
        executable = right ∙ ap ok runs;
        one_start = starts;
        elements = elements-IsValid o (b ∷ bs) (is_elements ∙ ap ok no_element);
        links = links_valid o (b ∷ bs) (is_links ∙ ap ok no_link);
      }
]
