-- ===== src/Enum/JobType.antt =====
-- `JobType` (engine/model.go): its values, their names, and their JSON form.
use Prim.Native.String.{◌++◌ as str_append, len, slice}
use go_bpmn.Shared.{
  ℕ, ◌==◌, ◌-◌, ◌≡◌, refl, Bool, true, false, String, Result, ok, err, error, ltb, str_eq,
  if◌then◌else◌, Names, case-Names, inl,
}

-- `unset` is the zero value, which no constant names.
pub data JobType : Type 0 where
  unset call_process end_multi_instance evaluate_exclusive_gateway : JobType
  evaluate_inclusive_gateway execute pass_variables set_error_code : JobType
  set_escalation_code set_message_correlation_key set_signal_name : JobType
  set_timer start_multi_instance subscribe_message subscribe_signal : JobType

abbrev pub is_unset : JobType → Bool
is_unset unset = true
is_unset _ = false

-- The number that the value is in Go.
abbrev pub code : JobType → ℕ
code unset = 0
code call_process = 1
code end_multi_instance = 2
code evaluate_exclusive_gateway = 3
code evaluate_inclusive_gateway = 4
code execute = 5
code pass_variables = 6
code set_error_code = 7
code set_escalation_code = 8
code set_message_correlation_key = 9
code set_signal_name = 10
code set_timer = 11
code start_multi_instance = 12
code subscribe_message = 13
code subscribe_signal = 14

abbrev pub same : JobType → JobType → Bool
same v w = code v == code w

unfoldable pub map_job_type : String → JobType
map_job_type s =
    if str_eq s "CALL_PROCESS"
    then call_process
    else if str_eq s "END_MULTI_INSTANCE"
    then end_multi_instance
    else if str_eq s "EVALUATE_EXCLUSIVE_GATEWAY"
    then evaluate_exclusive_gateway
    else if str_eq s "EVALUATE_INCLUSIVE_GATEWAY"
    then evaluate_inclusive_gateway
    else if str_eq s "EXECUTE"
    then execute
    else if str_eq s "PASS_VARIABLES"
    then pass_variables
    else if str_eq s "SET_ERROR_CODE"
    then set_error_code
    else if str_eq s "SET_ESCALATION_CODE"
    then set_escalation_code
    else if str_eq s "SET_MESSAGE_CORRELATION_KEY"
    then set_message_correlation_key
    else if str_eq s "SET_SIGNAL_NAME"
    then set_signal_name
    else if str_eq s "SET_TIMER"
    then set_timer
    else if str_eq s "START_MULTI_INSTANCE"
    then start_multi_instance
    else if str_eq s "SUBSCRIBE_MESSAGE"
    then subscribe_message
    else if str_eq s "SUBSCRIBE_SIGNAL"
    then subscribe_signal
    else unset

unfoldable pub to_string : JobType → String
to_string unset = ""
to_string call_process = "CALL_PROCESS"
to_string end_multi_instance = "END_MULTI_INSTANCE"
to_string evaluate_exclusive_gateway = "EVALUATE_EXCLUSIVE_GATEWAY"
to_string evaluate_inclusive_gateway = "EVALUATE_INCLUSIVE_GATEWAY"
to_string execute = "EXECUTE"
to_string pass_variables = "PASS_VARIABLES"
to_string set_error_code = "SET_ERROR_CODE"
to_string set_escalation_code = "SET_ESCALATION_CODE"
to_string set_message_correlation_key = "SET_MESSAGE_CORRELATION_KEY"
to_string set_signal_name = "SET_SIGNAL_NAME"
to_string set_timer = "SET_TIMER"
to_string start_multi_instance = "START_MULTI_INSTANCE"
to_string subscribe_message = "SUBSCRIBE_MESSAGE"
to_string subscribe_signal = "SUBSCRIBE_SIGNAL"

-- `%q` adds the quotes, and has nothing to escape in these names.
unfoldable pub marshal_json : JobType → String
unfolding to_string
marshal_json v = str_append "\"" (str_append (to_string v) "\"")

abbrev check_set : JobType → String → Result JobType
check_set v s = if is_unset v then err (error (str_append "invalid job type " s)) else ok v

-- The receiver holds `old`; a value that is returned is the one that it holds afterwards.
unfoldable pub unmarshal_json : JobType → String → Result JobType
unfolding map_job_type
unmarshal_json old s =
    if str_eq s "null"
    then ok old
    else if ltb 2 (len s)
    then (let t = slice s 1 (len s - 1) in check_set (map_job_type t) t)
    else check_set old s

-- Each value is read back from its name.
pub map_job_type-to_string : (v : JobType) → map_job_type (to_string v) ≡ v
unfolding map_job_type to_string
map_job_type-to_string unset = refl
map_job_type-to_string _ = refl

-- A text is mapped to the zero value, or to a value of which it is the name.
pub to_string-map_job_type : (s : String) → Names unset to_string s (map_job_type s)
unfolding map_job_type to_string
to_string-map_job_type s = case-Names unset to_string s "CALL_PROCESS" call_process _ refl (
    case-Names unset to_string s "END_MULTI_INSTANCE" end_multi_instance _ refl (
      case-Names unset to_string s "EVALUATE_EXCLUSIVE_GATEWAY" evaluate_exclusive_gateway _ refl (
        case-Names unset to_string s "EVALUATE_INCLUSIVE_GATEWAY" evaluate_inclusive_gateway _ refl
          (case-Names unset to_string s "EXECUTE" execute _ refl (
            case-Names unset to_string s "PASS_VARIABLES" pass_variables _ refl (
              case-Names unset to_string s "SET_ERROR_CODE" set_error_code _ refl (
                case-Names unset to_string s "SET_ESCALATION_CODE" set_escalation_code _ refl (
                  case-Names unset to_string s "SET_MESSAGE_CORRELATION_KEY"
                    set_message_correlation_key _ refl
                    (case-Names unset to_string s "SET_SIGNAL_NAME" set_signal_name _ refl (
                      case-Names unset to_string s "SET_TIMER" set_timer _ refl (
                        case-Names unset to_string s "START_MULTI_INSTANCE" start_multi_instance _
                          refl
                          (case-Names unset to_string s "SUBSCRIBE_MESSAGE" subscribe_message _ refl
                            (case-Names unset to_string s "SUBSCRIBE_SIGNAL" subscribe_signal _ refl
                              (inl refl))))))))))))))

-- What the receiver holds after decoding the JSON form of a value: that value, if it is set. The
-- empty name of the zero value leaves the receiver alone, and is refused if that is not set.
pub unmarshal_json-marshal_json :
    (old v : JobType)
    → unmarshal_json old (marshal_json v) ≡ (if is_unset v then check_set old "\"\"" else ok v)
unfolding unmarshal_json marshal_json
unmarshal_json-marshal_json old unset = refl
unmarshal_json-marshal_json old _ = refl

-- Each value is read back from its name; each text is mapped to the zero value or to a value of which
-- it is the name; and decoding the JSON form of a value gives that value, unless it is the zero
-- value, where the receiver keeps what it held and an unset receiver is an error.
pub JobType-codec :
    (old v : JobType) (s : String)
    → (map_job_type (to_string v) ≡ v)
      × Names unset to_string s (map_job_type s)
      × (unmarshal_json old (marshal_json v) ≡ (
          if is_unset v
          then (if is_unset old then err (error "invalid job type \"\"") else ok old)
          else ok v))
JobType-codec old v s =
    (map_job_type-to_string v, to_string-map_job_type s, unmarshal_json-marshal_json old v)
