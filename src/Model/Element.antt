-- ===== src/Model/Element.antt =====
-- model/element.go, and the `Model` of model/model.go. Elements and sequence flows point to one
-- another in cycles, so a pointer is the address of an object, and `Objects` says what stands at each
-- address; a pointer that may be nil is an `Option`.
use go_bpmn.Shared.{ℕ, Bool, String, Option, List, ℤ, Result, ok, err, type_assertion}
use go_bpmn.Enum.ElementType.{ElementType}

pub record SequenceFlow : Type 0 where
  pub id : String
  pub source : Option ℕ
  pub target : Option ℕ

pub record BpmnError : Type 0 where
  pub id : String
  pub name : String
  pub code : String

pub record Escalation : Type 0 where
  pub id : String
  pub name : String
  pub code : String

pub record Link : Type 0 where
  pub name : String

pub record Message : Type 0 where
  pub id : String
  pub name : String

pub record Signal : Type 0 where
  pub id : String
  pub name : String

pub record EventDefinition : Type 0 where
  pub id : String
  pub bpmn_error : Option BpmnError
  pub escalation : Option Escalation
  pub link : Option Link
  pub message : Option Message
  pub signal : Option Signal

-- The multi-instance characteristic of a task, sub-process or call activity.
pub record MultiInstance : Type 0 where
  pub is_sequential : Bool
  pub loop_cardinality : ℤ

-- What the field `Model` of an element holds, with the fields of each element specific model.
pub data ElementModel : Type 0 where
  no_model : ElementModel
  boundary_event : Option ℕ → Bool → EventDefinition → ElementModel
  call_activity : String → Option MultiInstance → ElementModel
  end_event : EventDefinition → ElementModel
  exclusive_gateway : String → ElementModel
  inclusive_gateway : String → ElementModel
  intermediate_catch_event : EventDefinition → ElementModel
  intermediate_throw_event : EventDefinition → ElementModel
  process : Bool → ElementModel
  start_event : EventDefinition → ElementModel
  sub_process : Option MultiInstance → Bool → ElementModel
  task : Option MultiInstance → ElementModel

-- The type assertions on that field.
abbrev pub as_boundary_event : ElementModel → Result (Option ℕ)
as_boundary_event (boundary_event attached_to cancel_activity definition) = ok attached_to
as_boundary_event _ = err type_assertion

abbrev pub as_call_activity : ElementModel → Result (Option MultiInstance)
as_call_activity (call_activity called_element multi_instance) = ok multi_instance
as_call_activity _ = err type_assertion

abbrev pub as_exclusive_gateway : ElementModel → Result String
as_exclusive_gateway (exclusive_gateway default) = ok default
as_exclusive_gateway _ = err type_assertion

abbrev pub as_inclusive_gateway : ElementModel → Result String
as_inclusive_gateway (inclusive_gateway default) = ok default
as_inclusive_gateway _ = err type_assertion

abbrev pub as_intermediate_catch_event : ElementModel → Result EventDefinition
as_intermediate_catch_event (intermediate_catch_event definition) = ok definition
as_intermediate_catch_event _ = err type_assertion

abbrev pub as_intermediate_throw_event : ElementModel → Result EventDefinition
as_intermediate_throw_event (intermediate_throw_event definition) = ok definition
as_intermediate_throw_event _ = err type_assertion

abbrev pub as_process : ElementModel → Result Bool
as_process (process is_executable) = ok is_executable
as_process _ = err type_assertion

abbrev pub as_sub_process : ElementModel → Result (Option MultiInstance × Bool)
as_sub_process (sub_process multi_instance triggered_by_event) =
    ok (multi_instance, triggered_by_event)
as_sub_process _ = err type_assertion

abbrev pub as_task : ElementModel → Result (Option MultiInstance)
as_task (task multi_instance) = ok multi_instance
as_task _ = err type_assertion

pub record Element : Type 0 where
  pub id : String
  pub name : String
  pub type : ElementType
  pub parent : Option ℕ
  pub children : List ℕ
  pub incoming : List ℕ
  pub outgoing : List ℕ
  pub model : ElementModel

pub record Attachment : Type 0 where
  pub id : String
  pub element : ℕ

-- What stands at each address, and the lists of a `Model`.
pub record Objects : Type 0 where
  pub element : ℕ → Element
  pub flow : ℕ → SequenceFlow
  pub elements : List ℕ
  pub attachments : List Attachment
