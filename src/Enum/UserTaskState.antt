-- ===== src/Enum/UserTaskState.antt =====
-- `UserTaskState` (engine/model.go): its values, their names, and their JSON form.
use Prim.Native.String.{◌++◌ as str_append, len, slice}
use go_bpmn.Shared.{
  ℕ, ◌==◌, ◌-◌, ◌≡◌, refl, Bool, true, false, String, Result, ok, err, error, ltb, str_eq,
  if◌then◌else◌, Names, case-Names, inl,
}

-- `unset` is the zero value, which no constant names.
pub data UserTaskState : Type 0 where
  unset canceled completed started terminated : UserTaskState

abbrev pub is_unset : UserTaskState → Bool
is_unset unset = true
is_unset _ = false

-- The number that the value is in Go.
abbrev pub code : UserTaskState → ℕ
code unset = 0
code canceled = 1
code completed = 2
code started = 3
code terminated = 4

abbrev pub same : UserTaskState → UserTaskState → Bool
same v w = code v == code w

unfoldable pub map_user_task_state : String → UserTaskState
map_user_task_state s =
    if str_eq s "CANCELED"
    then canceled
    else if str_eq s "COMPLETED"
    then completed
    else if str_eq s "STARTED"
    then started
    else if str_eq s "TERMINATED"
    then terminated
    else unset

unfoldable pub to_string : UserTaskState → String
to_string unset = ""
to_string canceled = "CANCELED"
to_string completed = "COMPLETED"
to_string started = "STARTED"
to_string terminated = "TERMINATED"

-- `%q` adds the quotes, and has nothing to escape in these names.
unfoldable pub marshal_json : UserTaskState → String
unfolding to_string
marshal_json v = str_append "\"" (str_append (to_string v) "\"")

abbrev check_set : UserTaskState → String → Result UserTaskState
check_set v s = if is_unset v then err (error (str_append "invalid user task state " s)) else ok v

-- The receiver holds `old`; a value that is returned is the one that it holds afterwards.
unfoldable pub unmarshal_json : UserTaskState → String → Result UserTaskState
unfolding map_user_task_state
unmarshal_json old s =
    if str_eq s "null"
    then ok old
    else if ltb 2 (len s)
    then (let t = slice s 1 (len s - 1) in check_set (map_user_task_state t) t)
    else check_set old s

-- Each value is read back from its name.
pub map_user_task_state-to_string : (v : UserTaskState) → map_user_task_state (to_string v) ≡ v
unfolding map_user_task_state to_string
map_user_task_state-to_string unset = refl
map_user_task_state-to_string _ = refl

-- A text is mapped to the zero value, or to a value of which it is the name.
pub to_string-map_user_task_state : (s : String) → Names unset to_string s (map_user_task_state s)
unfolding map_user_task_state to_string
to_string-map_user_task_state s = case-Names unset to_string s "CANCELED" canceled _ refl (
    case-Names unset to_string s "COMPLETED" completed _ refl (
      case-Names unset to_string s "STARTED" started _ refl
        (case-Names unset to_string s "TERMINATED" terminated _ refl (inl refl))))

-- What the receiver holds after decoding the JSON form of a value: that value, if it is set. The
-- empty name of the zero value leaves the receiver alone, and is refused if that is not set.
pub unmarshal_json-marshal_json :
    (old v : UserTaskState)
    → unmarshal_json old (marshal_json v) ≡ (if is_unset v then check_set old "\"\"" else ok v)
unfolding unmarshal_json marshal_json
unmarshal_json-marshal_json old unset = refl
unmarshal_json-marshal_json old _ = refl

-- Each value is read back from its name; each text is mapped to the zero value or to a value of which
-- it is the name; and decoding the JSON form of a value gives that value, unless it is the zero
-- value, where the receiver keeps what it held and an unset receiver is an error.
pub UserTaskState-codec :
    (old v : UserTaskState) (s : String)
    → (map_user_task_state (to_string v) ≡ v)
      × Names unset to_string s (map_user_task_state s)
      × (unmarshal_json old (marshal_json v) ≡ (
          if is_unset v
          then (if is_unset old then err (error "invalid user task state \"\"") else ok old)
          else ok v))
UserTaskState-codec old v s = (
  map_user_task_state-to_string v,
  to_string-map_user_task_state s,
  unmarshal_json-marshal_json old v,
)
