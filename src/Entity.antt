-- ===== src/Entity.antt =====
-- The entities that the engine stores (engine/internal), and the nullable values of pgtype that their
-- fields hold. A time is a number, and 0 is the zero time. The pointers `parent` and `prev` of an
-- element instance are addresses of element instances.
pub mod Task
pub mod Job
use go_bpmn.Shared.{ℕ, Bool, true, false, String, Option, none, ℤ, pos}
use go_bpmn.Enum.ElementType.{ElementType}
use go_bpmn.Enum.InstanceState.{InstanceState}

-- pgtype.Int4: the number stands there also if it is not valid.
pub record Int4 : Type 0 where
  pub int32 : ℕ
  pub valid : Bool

pub record Text : Type 0 where
  pub string : String
  pub valid : Bool

-- pgtype.Date and pgtype.Timestamp.
pub record Timestamp : Type 0 where
  pub time : ℕ
  pub valid : Bool

abbrev pub no_int4 : Int4
no_int4 = record { int32 = 0; valid = false }

abbrev pub valid_int4 : ℕ → Int4
valid_int4 n = record { int32 = n; valid = true }

abbrev pub no_text : Text
no_text = record { string = ""; valid = false }

abbrev pub valid_text : String → Text
valid_text s = record { string = s; valid = true }

abbrev pub no_timestamp : Timestamp
no_timestamp = record { time = 0; valid = false }

abbrev pub valid_timestamp : ℕ → Timestamp
valid_timestamp t = record { time = t; valid = true }

pub record ElementEntity : Type 0 where
  pub id : ℕ
  pub process_id : ℕ
  pub bpmn_element_id : String
  pub bpmn_element_name : Text
  pub bpmn_element_type : ElementType
  pub is_multi_instance : Bool
  pub parent_bpmn_element_id : Text

pub record EventDefinitionEntity : Type 0 where
  pub element_id : ℕ
  pub process_id : ℕ
  pub bpmn_element_id : String
  pub bpmn_element_type : ElementType
  pub bpmn_process_id : String
  pub error_code : Text
  pub escalation_code : Text
  pub is_suspended : Bool
  pub message_name : Text
  pub signal_name : Text
  pub time : Timestamp
  pub time_cycle : Text
  pub time_duration : Text
  pub version : String

pub record ElementInstanceEntity : Type 0 where
  pub partition : ℕ
  pub id : ℕ
  pub parent_id : Int4
  pub prev_element_id : Int4
  pub prev_id : Int4
  pub element_id : ℕ
  pub process_id : ℕ
  pub process_instance_id : ℕ
  pub bpmn_element_id : String
  pub bpmn_element_type : ElementType
  pub context : Text
  pub created_at : ℕ
  pub created_by : String
  pub ended_at : Timestamp
  pub execution_count : ℤ
  pub is_multi_instance : Bool
  pub started_at : Timestamp
  pub state : InstanceState
  pub parent : Option ℕ
  pub prev : Option ℕ

-- The zero value.
abbrev pub no_element_instance : ElementInstanceEntity
no_element_instance = record {
  partition = 0;
  id = 0;
  parent_id = no_int4;
  prev_element_id = no_int4;
  prev_id = no_int4;
  element_id = 0;
  process_id = 0;
  process_instance_id = 0;
  bpmn_element_id = "";
  bpmn_element_type = ElementType.unset;
  context = no_text;
  created_at = 0;
  created_by = "";
  ended_at = no_timestamp;
  execution_count = pos 0;
  is_multi_instance = false;
  started_at = no_timestamp;
  state = InstanceState.unset;
  parent = none;
  prev = none;
}

pub record ProcessInstanceEntity : Type 0 where
  pub partition : ℕ
  pub id : ℕ
  pub parent_id : Int4
  pub root_id : Int4
  pub message_id : Int4
  pub process_id : ℕ
  pub bpmn_process_id : String
  pub correlation_key : Text
  pub created_at : ℕ
  pub created_by : String
  pub ended_at : Timestamp
  pub started_at : Timestamp
  pub state : InstanceState
  pub tags : Text
  pub version : String
