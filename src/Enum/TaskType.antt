-- ===== src/Enum/TaskType.antt =====
-- `TaskType` (engine/model.go): its values, their names, and their JSON form.
use Prim.Native.String.{◌++◌ as str_append, len, slice}
use go_bpmn.Shared.{
  ℕ, ◌==◌, ◌-◌, ◌≡◌, refl, Bool, true, false, String, Result, ok, err, error, ltb, str_eq,
  if◌then◌else◌, Names, case-Names, inl,
}

-- `unset` is the zero value, which no constant names.
pub data TaskType : Type 0 where
  unset continue_execution dequeue_process_instance : TaskType
  join_parallel_gateway start_process_instance : TaskType
  terminate_process_instance trigger_event create_partition : TaskType
  detach_partition drop_partition purge_messages purge_signals : TaskType

abbrev pub is_unset : TaskType → Bool
is_unset unset = true
is_unset _ = false

-- The number that the value is in Go.
abbrev pub code : TaskType → ℕ
code unset = 0
code continue_execution = 1
code dequeue_process_instance = 2
code join_parallel_gateway = 3
code start_process_instance = 4
code terminate_process_instance = 5
code trigger_event = 6
code create_partition = 7
code detach_partition = 8
code drop_partition = 9
code purge_messages = 10
code purge_signals = 11

abbrev pub same : TaskType → TaskType → Bool
same v w = code v == code w

unfoldable pub map_task_type : String → TaskType
map_task_type s =
    if str_eq s "CONTINUE_EXECUTION"
    then continue_execution
    else if str_eq s "DEQUEUE_PROCESS_INSTANCE"
    then dequeue_process_instance
    else if str_eq s "JOIN_PARALLEL_GATEWAY"
    then join_parallel_gateway
    else if str_eq s "TERMINATE_PROCESS_INSTANCE"
    then terminate_process_instance
    else if str_eq s "START_PROCESS_INSTANCE"
    then start_process_instance
    else if str_eq s "TRIGGER_EVENT"
    then trigger_event
    else if str_eq s "CREATE_PARTITION"
    then create_partition
    else if str_eq s "DETACH_PARTITION"
    then detach_partition
    else if str_eq s "DROP_PARTITION"
    then drop_partition
    else if str_eq s "PURGE_MESSAGES"
    then purge_messages
    else if str_eq s "PURGE_SIGNALS"
    then purge_signals
    else unset

unfoldable pub to_string : TaskType → String
to_string unset = ""
to_string continue_execution = "CONTINUE_EXECUTION"
to_string dequeue_process_instance = "DEQUEUE_PROCESS_INSTANCE"
to_string join_parallel_gateway = "JOIN_PARALLEL_GATEWAY"
to_string terminate_process_instance = "TERMINATE_PROCESS_INSTANCE"
to_string start_process_instance = "START_PROCESS_INSTANCE"
to_string trigger_event = "TRIGGER_EVENT"
to_string create_partition = "CREATE_PARTITION"
to_string detach_partition = "DETACH_PARTITION"
to_string drop_partition = "DROP_PARTITION"
to_string purge_messages = "PURGE_MESSAGES"
to_string purge_signals = "PURGE_SIGNALS"

-- `%q` adds the quotes, and has nothing to escape in these names.
unfoldable pub marshal_json : TaskType → String
unfolding to_string
marshal_json v = str_append "\"" (str_append (to_string v) "\"")

abbrev check_set : TaskType → String → Result TaskType
check_set v s = if is_unset v then err (error (str_append "invalid task type " s)) else ok v

-- The receiver holds `old`; a value that is returned is the one that it holds afterwards.
unfoldable pub unmarshal_json : TaskType → String → Result TaskType
unfolding map_task_type
unmarshal_json old s =
    if str_eq s "null"
    then ok old
    else if ltb 2 (len s)
    then (let t = slice s 1 (len s - 1) in check_set (map_task_type t) t)
    else check_set old s

-- Each value is read back from its name.
pub map_task_type-to_string : (v : TaskType) → map_task_type (to_string v) ≡ v
unfolding map_task_type to_string
map_task_type-to_string unset = refl
map_task_type-to_string _ = refl

-- A text is mapped to the zero value, or to a value of which it is the name.
pub to_string-map_task_type : (s : String) → Names unset to_string s (map_task_type s)
unfolding map_task_type to_string
to_string-map_task_type s =
    case-Names unset to_string s "CONTINUE_EXECUTION" continue_execution _ refl (
      case-Names unset to_string s "DEQUEUE_PROCESS_INSTANCE" dequeue_process_instance _ refl (
        case-Names unset to_string s "JOIN_PARALLEL_GATEWAY" join_parallel_gateway _ refl (
          case-Names unset to_string s "TERMINATE_PROCESS_INSTANCE" terminate_process_instance _
            refl
            (case-Names unset to_string s "START_PROCESS_INSTANCE" start_process_instance _ refl (
              case-Names unset to_string s "TRIGGER_EVENT" trigger_event _ refl (
                case-Names unset to_string s "CREATE_PARTITION" create_partition _ refl (
                  case-Names unset to_string s "DETACH_PARTITION" detach_partition _ refl (
                    case-Names unset to_string s "DROP_PARTITION" drop_partition _ refl (
                      case-Names unset to_string s "PURGE_MESSAGES" purge_messages _ refl (
                        case-Names unset to_string s "PURGE_SIGNALS" purge_signals _ refl
                          (inl refl)))))))))))

-- What the receiver holds after decoding the JSON form of a value: that value, if it is set. The
-- empty name of the zero value leaves the receiver alone, and is refused if that is not set.
pub unmarshal_json-marshal_json :
    (old v : TaskType)
    → unmarshal_json old (marshal_json v) ≡ (if is_unset v then check_set old "\"\"" else ok v)
unfolding unmarshal_json marshal_json
unmarshal_json-marshal_json old unset = refl
unmarshal_json-marshal_json old _ = refl

-- Each value is read back from its name; each text is mapped to the zero value or to a value of which
-- it is the name; and decoding the JSON form of a value gives that value, unless it is the zero
-- value, where the receiver keeps what it held and an unset receiver is an error.
pub TaskType-codec :
    (old v : TaskType) (s : String)
    → (map_task_type (to_string v) ≡ v)
      × Names unset to_string s (map_task_type s)
      × (unmarshal_json old (marshal_json v) ≡ (
          if is_unset v
          then (if is_unset old then err (error "invalid task type \"\"") else ok old)
          else ok v))
TaskType-codec old v s =
    (map_task_type-to_string v, to_string-map_task_type s, unmarshal_json-marshal_json old v)
