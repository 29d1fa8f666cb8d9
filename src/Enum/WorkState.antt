-- ===== src/Enum/WorkState.antt =====
-- `WorkState` (engine/model.go): its values, their names, and their JSON form.
use Prim.Native.String.{◌++◌ as str_append, len, slice}
use go_bpmn.Shared.{
  ℕ, ◌==◌, ◌-◌, ◌≡◌, refl, Bool, true, false, String, Result, ok, err, error, ltb, str_eq,
  if◌then◌else◌, Names, case-Names, inl,
}

-- `unset` is the zero value, which no constant names.
pub data WorkState : Type 0 where
  unset canceled caused_incident caused_retry created done due locked : WorkState

abbrev pub is_unset : WorkState → Bool
is_unset unset = true
is_unset _ = false

-- The number that the value is in Go.
abbrev pub code : WorkState → ℕ
code unset = 0
code canceled = 1
code caused_incident = 2
code caused_retry = 3
code created = 4
code done = 5
code due = 6
code locked = 7

abbrev pub same : WorkState → WorkState → Bool
same v w = code v == code w

unfoldable pub map_work_state : String → WorkState
map_work_state s =
    if str_eq s "CANCELED"
    then canceled
    else if str_eq s "CAUSED_INCIDENT"
    then caused_incident
    else if str_eq s "CAUSED_RETRY"
    then caused_retry
    else if str_eq s "CREATED"
    then created
    else if str_eq s "DONE"
    then done
    else if str_eq s "DUE"
    then due
    else if str_eq s "LOCKED"
    then locked
    else unset

unfoldable pub to_string : WorkState → String
to_string unset = ""
to_string canceled = "CANCELED"
to_string caused_incident = "CAUSED_INCIDENT"
to_string caused_retry = "CAUSED_RETRY"
to_string created = "CREATED"
to_string done = "DONE"
to_string due = "DUE"
to_string locked = "LOCKED"

-- `%q` adds the quotes, and has nothing to escape in these names.
unfoldable pub marshal_json : WorkState → String
unfolding to_string
marshal_json v = str_append "\"" (str_append (to_string v) "\"")

abbrev check_set : WorkState → String → Result WorkState
check_set v s = if is_unset v then err (error (str_append "invalid work state " s)) else ok v

-- The receiver holds `old`; a value that is returned is the one that it holds afterwards.
unfoldable pub unmarshal_json : WorkState → String → Result WorkState
unfolding map_work_state
unmarshal_json old s =
    if str_eq s "null"
    then ok old
    else if ltb 2 (len s)
    then (let t = slice s 1 (len s - 1) in check_set (map_work_state t) t)
    else check_set old s

-- Each value is read back from its name.
pub map_work_state-to_string : (v : WorkState) → map_work_state (to_string v) ≡ v
unfolding map_work_state to_string
map_work_state-to_string unset = refl
map_work_state-to_string _ = refl

-- A text is mapped to the zero value, or to a value of which it is the name.
pub to_string-map_work_state : (s : String) → Names unset to_string s (map_work_state s)
unfolding map_work_state to_string
to_string-map_work_state s = case-Names unset to_string s "CANCELED" canceled _ refl (
    case-Names unset to_string s "CAUSED_INCIDENT" caused_incident _ refl (
      case-Names unset to_string s "CAUSED_RETRY" caused_retry _ refl (
        case-Names unset to_string s "CREATED" created _ refl (
          case-Names unset to_string s "DONE" done _ refl (
            case-Names unset to_string s "DUE" due _ refl
              (case-Names unset to_string s "LOCKED" locked _ refl (inl refl)))))))

-- What the receiver holds after decoding the JSON form of a value: that value, if it is set. The
-- empty name of the zero value leaves the receiver alone, and is refused if that is not set.
pub unmarshal_json-marshal_json :
    (old v : WorkState)
    → unmarshal_json old (marshal_json v) ≡ (if is_unset v then check_set old "\"\"" else ok v)
unfolding unmarshal_json marshal_json
unmarshal_json-marshal_json old unset = refl
unmarshal_json-marshal_json old _ = refl

-- Each value is read back from its name; each text is mapped to the zero value or to a value of which
-- it is the name; and decoding the JSON form of a value gives that value, unless it is the zero
-- value, where the receiver keeps what it held and an unset receiver is an error.
pub WorkState-codec :
    (old v : WorkState) (s : String)
    → (map_work_state (to_string v) ≡ v)
      × Names unset to_string s (map_work_state s)
      × (unmarshal_json old (marshal_json v) ≡ (
          if is_unset v
          then (if is_unset old then err (error "invalid work state \"\"") else ok old)
          else ok v))
WorkState-codec old v s =
    (map_work_state-to_string v, to_string-map_work_state s, unmarshal_json-marshal_json old v)
