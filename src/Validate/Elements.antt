-- ===== src/Validate/Elements.antt =====
-- The checks of `validateProcess` for each single element (engine/internal/graph.go).
use go_bpmn.Shared.{
  ℕ, Bool, true, false, not, ◌&&◌, String, Option, none, some, List, [], ◌∷◌, ◌++◌, Result, ok,
  deref, ◌>>=◌, length, ltb, ◌==◌, if◌then◌else◌, str_append, str_eq,
}
use go_bpmn.Enum.ElementType.{
  ElementType, same, to_string, event_based_gateway, exclusive_gateway, inclusive_gateway,
  sub_process, none_start_event,
}
use go_bpmn.Model.Element.{
  Objects, SequenceFlow, as_boundary_event, as_exclusive_gateway, as_inclusive_gateway,
  as_sub_process,
}
use go_bpmn.Model.Kinds.{is_boundary_event, is_catch_event, is_start_event}
use go_bpmn.Model.Lookup.{children_by_type, outgoing_by_id}
use go_bpmn.Validate.Pointer.{element_pointer}

-- `engine.ErrorCause`.
pub record ErrorCause : Type 0 where
  pub pointer : String
  pub type : String
  pub detail : String

abbrev text : List String → String
text [] = ""
text (s ∷ ss) = str_append s (text ss)

module _ (o : Objects) where
  open o use {element, flow}

  abbrev pub element_cause : ℕ → String → ErrorCause
  element_cause b detail = record {
    pointer = element_pointer o b;
    type = "element";
    detail = detail;
  }

  -- A cause, if the test holds.
  abbrev pub cause_if : Bool → ErrorCause → List ErrorCause
  cause_if true c = c ∷ []
  cause_if false c = []

  abbrev pub check_id : ℕ → List ErrorCause
  check_id b =
      cause_if (str_eq (element b).id "") (
        element_cause b
          (text ("element of type " ∷ to_string (element b).type ∷ " has no ID" ∷ [])))

  -- The loop over the outgoing sequence flows of an event-based gateway.
  abbrev pub check_targets : String → List ℕ → List ErrorCause
  check_targets id [] = []
  check_targets id (f ∷ fs) =
      let rest = check_targets id fs in
      elim (flow f).target [
        | none ↦ rest
        | some t ↦
            cause_if (not (is_catch_event (element t).type)) (
              element_cause t (
                text (
                  "event-based gateway "
                  ∷ id
                  ∷ " cannot be followed by "
                  ∷ to_string (element t).type
                  ∷ [])))
            ++ rest
      ]

  abbrev pub check_event_based_gateway : ℕ → List ErrorCause
  check_event_based_gateway b =
      cause_if (ltb (length (element b).outgoing) 2) (
        element_cause b (
          text (
            "event-based gateway "
            ∷ (element b).id
            ∷ " must have at least 2 outgoing sequence flows"
            ∷ [])))
      ++ check_targets (element b).id (element b).outgoing

  abbrev pub is_source : ℕ → Option ℕ → Bool
  is_source b none = false
  is_source b (some f) = elim (flow f).source [ none ↦ false | some s ↦ s == b ]

  abbrev pub check_default : ℕ → String → String → List ErrorCause
  check_default b kind default =
      cause_if (not (str_eq default "") && not (is_source b (outgoing_by_id o (element b) default)))
        (element_cause b
          (text (kind ∷ (element b).id ∷ " has no default sequence flow " ∷ default ∷ [])))

  abbrev pub check_exclusive_gateway : ℕ → Result (List ErrorCause)
  check_exclusive_gateway b = do
    default ← as_exclusive_gateway (element b).model
    ok (check_default b "exclusive gateway " default)

  abbrev pub check_inclusive_gateway : ℕ → Result (List ErrorCause)
  check_inclusive_gateway b = do
    default ← as_inclusive_gateway (element b).model
    ok (
        check_default b "inclusive gateway " default
        ++ cause_if (ltb 1 (length (element b).incoming)) (
            element_cause b (
              text (
                "element "
                ∷ (element b).id
                ∷ " is not supported: joining inclusive gateway"
                ∷ []))))

  abbrev pub check_children : String → List ℕ → List ErrorCause
  check_children id [] = []
  check_children id (c ∷ cs) =
      cause_if (is_start_event (element c).type && not (same (element c).type none_start_event)) (
        element_cause c (
          text (
            "sub-process "
            ∷ id
            ∷ " cannot be started by "
            ∷ to_string (element c).type
            ∷ ": not a none start event"
            ∷ [])))
      ++ check_children id cs

  abbrev pub check_sub_process : ℕ → Result (List ErrorCause)
  check_sub_process b = do
    s ← as_sub_process (element b).model
    ok (
        if s.1
        then element_cause b
            (text ("element " ∷ (element b).id ∷ " is not supported: event sub-process" ∷ []))
          ∷ []
        else check_children (element b).id (element b).children
          ++ cause_if (not (length (children_by_type o (element b) none_start_event) == 1)) (
              element_cause b (
                text (
                  "sub-process " ∷ (element b).id ∷ " has no or multiple none start events" ∷ []))))

  -- The `switch` on the type of the element.
  unfoldable pub check_type : ElementType → ℕ → Result (List ErrorCause)
  unfolding is_catch_event is_start_event children_by_type outgoing_by_id element_pointer to_string
  check_type event_based_gateway b = ok (check_event_based_gateway b)
  check_type exclusive_gateway b = check_exclusive_gateway b
  check_type inclusive_gateway b = check_inclusive_gateway b
  check_type sub_process b = check_sub_process b
  check_type _ b = ok []

  abbrev pub check_attached : ℕ → Result (List ErrorCause)
  check_attached b = do
    attached_to ← as_boundary_event (element b).model
    ok (elim attached_to [
      | none ↦
          element_cause b (text ("boundary event " ∷ (element b).id ∷ " is not attached" ∷ [])) ∷ []
      | some a ↦ []
    ])

  -- The pointer of a sequence flow is below that of the element's parent.
  abbrev pub flow_cause : ℕ → ℕ → String → Result (List ErrorCause)
  flow_cause b f what = do
    p ← deref (element b).parent
    ok (
        record {
          pointer = text (element_pointer o p ∷ "/" ∷ (flow f).id ∷ []);
          type = "sequence_flow";
          detail = text ("sequence flow " ∷ (flow f).id ∷ what ∷ []);
        }
        ∷ [])

  -- The loop over the incoming or the outgoing sequence flows, with what it looks at.
  unfoldable pub check_flows :
      (SequenceFlow → Option ℕ) → ℕ → String → List ℕ → Result (List ErrorCause)
  unfolding element_pointer
  check_flows end b what [] = ok []
  check_flows end b what (f ∷ fs) = do
    here ← elim (end (flow f)) [ none ↦ flow_cause b f what | some a ↦ ok [] ]
    rest ← check_flows end b what fs
    ok (here ++ rest)

  unfoldable pub check_element : ℕ → Result (List ErrorCause)
  unfolding is_boundary_event to_string element_pointer
  check_element b = do
    of_type ← check_type (element b).type b
    attached ← if is_boundary_event (element b).type then check_attached b else ok []
    incoming ← check_flows (λ f. f.source) b " has no source element" (element b).incoming
    outgoing ← check_flows (λ f. f.target) b " has no target element" (element b).outgoing
    ok (check_id b ++ of_type ++ attached ++ incoming ++ outgoing)
