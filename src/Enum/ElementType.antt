-- ===== src/Enum/ElementType.antt =====
-- `ElementType` (model/element_type.go): its values, their names, and their JSON form.
use Prim.Native.String.{◌++◌ as str_append, len, slice}
use go_bpmn.Shared.{
  ℕ, ◌==◌, ◌-◌, ◌≡◌, refl, Bool, true, false, String, Result, ok, err, error, ltb, str_eq,
  if◌then◌else◌, Names, case-Names, inl,
}

-- `unset` is the zero value, which no constant names.
pub data ElementType : Type 0 where
  unset business_rule_task call_activity error_boundary_event : ElementType
  error_end_event escalation_boundary_event escalation_end_event : ElementType
  escalation_throw_event event_based_gateway exclusive_gateway : ElementType
  inclusive_gateway link_catch_event link_throw_event manual_task : ElementType
  message_boundary_event message_catch_event message_end_event : ElementType
  message_start_event message_throw_event none_end_event : ElementType
  none_start_event none_throw_event parallel_gateway process script_task : ElementType
  send_task service_task signal_boundary_event signal_catch_event : ElementType
  signal_end_event signal_start_event signal_throw_event sub_process : ElementType
  task timer_boundary_event timer_catch_event timer_start_event : ElementType
  user_task : ElementType

abbrev pub is_unset : ElementType → Bool
is_unset unset = true
is_unset _ = false

-- The number that the value is in Go.
abbrev pub code : ElementType → ℕ
code unset = 0
code business_rule_task = 1
code call_activity = 2
code error_boundary_event = 3
code error_end_event = 4
code escalation_boundary_event = 5
code escalation_end_event = 6
code escalation_throw_event = 7
code event_based_gateway = 8
code exclusive_gateway = 9
code inclusive_gateway = 10
code link_catch_event = 11
code link_throw_event = 12
code manual_task = 13
code message_boundary_event = 14
code message_catch_event = 15
code message_end_event = 16
code message_start_event = 17
code message_throw_event = 18
code none_end_event = 19
code none_start_event = 20
code none_throw_event = 21
code parallel_gateway = 22
code process = 23
code script_task = 24
code send_task = 25
code service_task = 26
code signal_boundary_event = 27
code signal_catch_event = 28
code signal_end_event = 29
code signal_start_event = 30
code signal_throw_event = 31
code sub_process = 32
code task = 33
code timer_boundary_event = 34
code timer_catch_event = 35
code timer_start_event = 36
code user_task = 37

abbrev pub same : ElementType → ElementType → Bool
same v w = code v == code w

unfoldable pub map_element_type : String → ElementType
map_element_type s =
    if str_eq s "BUSINESS_RULE_TASK"
    then business_rule_task
    else if str_eq s "CALL_ACTIVITY"
    then call_activity
    else if str_eq s "ERROR_BOUNDARY_EVENT"
    then error_boundary_event
    else if str_eq s "ERROR_END_EVENT"
    then error_end_event
    else if str_eq s "ESCALATION_BOUNDARY_EVENT"
    then escalation_boundary_event
    else if str_eq s "ESCALATION_END_EVENT"
    then escalation_end_event
    else if str_eq s "ESCALATION_THROW_EVENT"
    then escalation_throw_event
    else if str_eq s "EVENT_BASED_GATEWAY"
    then event_based_gateway
    else if str_eq s "EXCLUSIVE_GATEWAY"
    then exclusive_gateway
    else if str_eq s "INCLUSIVE_GATEWAY"
    then inclusive_gateway
    else if str_eq s "LINK_CATCH_EVENT"
    then link_catch_event
    else if str_eq s "LINK_THROW_EVENT"
    then link_throw_event
    else if str_eq s "MANUAL_TASK"
    then manual_task
    else if str_eq s "MESSAGE_BOUNDARY_EVENT"
    then message_boundary_event
    else if str_eq s "MESSAGE_CATCH_EVENT"
    then message_catch_event
    else if str_eq s "MESSAGE_END_EVENT"
    then message_end_event
    else if str_eq s "MESSAGE_START_EVENT"
    then message_start_event
    else if str_eq s "MESSAGE_THROW_EVENT"
    then message_throw_event
    else if str_eq s "NONE_END_EVENT"
    then none_end_event
    else if str_eq s "NONE_START_EVENT"
    then none_start_event
    else if str_eq s "NONE_THROW_EVENT"
    then none_throw_event
    else if str_eq s "PARALLEL_GATEWAY"
    then parallel_gateway
    else if str_eq s "PROCESS"
    then process
    else if str_eq s "SCRIPT_TASK"
    then script_task
    else if str_eq s "SEND_TASK"
    then send_task
    else if str_eq s "SERVICE_TASK"
    then service_task
    else if str_eq s "SIGNAL_BOUNDARY_EVENT"
    then signal_boundary_event
    else if str_eq s "SIGNAL_CATCH_EVENT"
    then signal_catch_event
    else if str_eq s "SIGNAL_END_EVENT"
    then signal_end_event
    else if str_eq s "SIGNAL_START_EVENT"
    then signal_start_event
    else if str_eq s "SIGNAL_THROW_EVENT"
    then signal_throw_event
    else if str_eq s "SUB_PROCESS"
    then sub_process
    else if str_eq s "TASK"
    then task
    else if str_eq s "TIMER_BOUNDARY_EVENT"
    then timer_boundary_event
    else if str_eq s "TIMER_CATCH_EVENT"
    then timer_catch_event
    else if str_eq s "TIMER_START_EVENT"
    then timer_start_event
    else if str_eq s "USER_TASK"
    then user_task
    else unset

unfoldable pub to_string : ElementType → String
to_string unset = ""
to_string business_rule_task = "BUSINESS_RULE_TASK"
to_string call_activity = "CALL_ACTIVITY"
to_string error_boundary_event = "ERROR_BOUNDARY_EVENT"
to_string error_end_event = "ERROR_END_EVENT"
to_string escalation_boundary_event = "ESCALATION_BOUNDARY_EVENT"
to_string escalation_end_event = "ESCALATION_END_EVENT"
to_string escalation_throw_event = "ESCALATION_THROW_EVENT"
to_string event_based_gateway = "EVENT_BASED_GATEWAY"
to_string exclusive_gateway = "EXCLUSIVE_GATEWAY"
to_string inclusive_gateway = "INCLUSIVE_GATEWAY"
to_string link_catch_event = "LINK_CATCH_EVENT"
to_string link_throw_event = "LINK_THROW_EVENT"
to_string manual_task = "MANUAL_TASK"
to_string message_boundary_event = "MESSAGE_BOUNDARY_EVENT"
to_string message_catch_event = "MESSAGE_CATCH_EVENT"
to_string message_end_event = "MESSAGE_END_EVENT"
to_string message_start_event = "MESSAGE_START_EVENT"
to_string message_throw_event = "MESSAGE_THROW_EVENT"
to_string none_end_event = "NONE_END_EVENT"
to_string none_start_event = "NONE_START_EVENT"
to_string none_throw_event = "NONE_THROW_EVENT"
to_string parallel_gateway = "PARALLEL_GATEWAY"
to_string process = "PROCESS"
to_string script_task = "SCRIPT_TASK"
to_string send_task = "SEND_TASK"
to_string service_task = "SERVICE_TASK"
to_string signal_boundary_event = "SIGNAL_BOUNDARY_EVENT"
to_string signal_catch_event = "SIGNAL_CATCH_EVENT"
to_string signal_end_event = "SIGNAL_END_EVENT"
to_string signal_start_event = "SIGNAL_START_EVENT"
to_string signal_throw_event = "SIGNAL_THROW_EVENT"
to_string sub_process = "SUB_PROCESS"
to_string task = "TASK"
to_string timer_boundary_event = "TIMER_BOUNDARY_EVENT"
to_string timer_catch_event = "TIMER_CATCH_EVENT"
to_string timer_start_event = "TIMER_START_EVENT"
to_string user_task = "USER_TASK"

-- `%q` adds the quotes, and has nothing to escape in these names.
unfoldable pub marshal_json : ElementType → String
unfolding to_string
marshal_json v = str_append "\"" (str_append (to_string v) "\"")

abbrev check_set : ElementType → String → Result ElementType
check_set v s = if is_unset v then err (error (str_append "invalid element type " s)) else ok v

-- The receiver holds `old`; a value that is returned is the one that it holds afterwards.
unfoldable pub unmarshal_json : ElementType → String → Result ElementType
unfolding map_element_type
unmarshal_json old s =
    if str_eq s "null"
    then ok old
    else if ltb 2 (len s)
    then (let t = slice s 1 (len s - 1) in check_set (map_element_type t) t)
    else check_set old s

-- Each value is read back from its name.
pub map_element_type-to_string : (v : ElementType) → map_element_type (to_string v) ≡ v
unfolding map_element_type to_string
map_element_type-to_string unset = refl
map_element_type-to_string _ = refl

-- A text is mapped to the zero value, or to a value of which it is the name.
pub to_string-map_element_type : (s : String) → Names unset to_string s (map_element_type s)
unfolding map_element_type to_string
to_string-map_element_type s =
    case-Names unset to_string s "BUSINESS_RULE_TASK" business_rule_task _ refl (
      case-Names unset to_string s "CALL_ACTIVITY" call_activity _ refl (
        case-Names unset to_string s "ERROR_BOUNDARY_EVENT" error_boundary_event _ refl (
          case-Names unset to_string s "ERROR_END_EVENT" error_end_event _ refl (
            case-Names unset to_string s "ESCALATION_BOUNDARY_EVENT" escalation_boundary_event _
              refl
              (case-Names unset to_string s "ESCALATION_END_EVENT" escalation_end_event _ refl (
                case-Names unset to_string s "ESCALATION_THROW_EVENT" escalation_throw_event _ refl
                  (case-Names unset to_string s "EVENT_BASED_GATEWAY" event_based_gateway _ refl (
                    case-Names unset to_string s "EXCLUSIVE_GATEWAY" exclusive_gateway _ refl (
                      case-Names unset to_string s "INCLUSIVE_GATEWAY" inclusive_gateway _ refl (
                        case-Names unset to_string s "LINK_CATCH_EVENT" link_catch_event _ refl (
                          case-Names unset to_string s "LINK_THROW_EVENT" link_throw_event _ refl (
                            case-Names unset to_string s "MANUAL_TASK" manual_task _ refl (
                              case-Names unset to_string s "MESSAGE_BOUNDARY_EVENT"
                                message_boundary_event _ refl
                                (case-Names unset to_string s "MESSAGE_CATCH_EVENT"
                                  message_catch_event _ refl
                                  (case-Names unset to_string s "MESSAGE_END_EVENT"
                                    message_end_event _ refl
                                    (case-Names unset to_string s "MESSAGE_START_EVENT"
                                      message_start_event _ refl
                                      (case-Names unset to_string s "MESSAGE_THROW_EVENT"
                                        message_throw_event _ refl
                                        (case-Names unset to_string s "NONE_END_EVENT"
                                          none_end_event _ refl
                                          (case-Names unset to_string s "NONE_START_EVENT"
                                            none_start_event _ refl
                                            (case-Names unset to_string s "NONE_THROW_EVENT"
                                              none_throw_event _ refl
                                              (case-Names unset to_string s "PARALLEL_GATEWAY"
                                                parallel_gateway _ refl
                                                (case-Names unset to_string s "PROCESS" process _
                                                  refl
                                                  (case-Names unset to_string s "SCRIPT_TASK"
                                                    script_task _ refl
                                                    (case-Names unset to_string s "SEND_TASK"
                                                      send_task _ refl
                                                      (case-Names unset to_string s "SERVICE_TASK"
                                                        service_task _ refl
                                                        (case-Names unset to_string s
                                                          "SIGNAL_BOUNDARY_EVENT"
                                                          signal_boundary_event _ refl
                                                          (case-Names unset to_string s
                                                            "SIGNAL_CATCH_EVENT" signal_catch_event
                                                            _ refl
                                                            (case-Names unset to_string s
                                                            "SIGNAL_END_EVENT" signal_end_event _
                                                            refl
                                                            (case-Names unset to_string s
                                                            "SIGNAL_START_EVENT" signal_start_event
                                                            _ refl
                                                            (case-Names unset to_string s
                                                            "SIGNAL_THROW_EVENT" signal_throw_event
                                                            _ refl
                                                            (case-Names unset to_string s
                                                            "SUB_PROCESS" sub_process _ refl
                                                            (case-Names unset to_string s "TASK"
                                                            task _ refl
                                                            (case-Names unset to_string s
                                                            "TIMER_BOUNDARY_EVENT"
                                                            timer_boundary_event _ refl
                                                            (case-Names unset to_string s
                                                            "TIMER_CATCH_EVENT" timer_catch_event _
                                                            refl
                                                            (case-Names unset to_string s
                                                            "TIMER_START_EVENT" timer_start_event _
                                                            refl
                                                            (case-Names unset to_string s
                                                            "USER_TASK" user_task _ refl
                                                            (inl
                                                            refl)))))))))))))))))))))))))))))))))))))

-- What the receiver holds after decoding the JSON form of a value: that value, if it is set. The
-- empty name of the zero value leaves the receiver alone, and is refused if that is not set.
pub unmarshal_json-marshal_json :
    (old v : ElementType)
    → unmarshal_json old (marshal_json v) ≡ (if is_unset v then check_set old "\"\"" else ok v)
unfolding unmarshal_json marshal_json
unmarshal_json-marshal_json old unset = refl
unmarshal_json-marshal_json old _ = refl

-- Each value is read back from its name; each text is mapped to the zero value or to a value of which
-- it is the name; and decoding the JSON form of a value gives that value, unless it is the zero
-- value, where the receiver keeps what it held and an unset receiver is an error.
pub ElementType-codec :
    (old v : ElementType) (s : String)
    → (map_element_type (to_string v) ≡ v)
      × Names unset to_string s (map_element_type s)
      × (unmarshal_json old (marshal_json v) ≡ (
          if is_unset v
          then (if is_unset old then err (error "invalid element type \"\"") else ok old)
          else ok v))
ElementType-codec old v s =
    (map_element_type-to_string v, to_string-map_element_type s, unmarshal_json-marshal_json old v)
