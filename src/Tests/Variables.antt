-- ===== src/Tests/Variables.antt =====
-- A process instance with a variable "b", of which "a" is set, twice, and "b" deleted.
use go_bpmn.Shared.{
  sym, All, suc, zero, ◌≡◌, refl, arith, false, true, String, Option, none, some, [], ◌∷◌, ok, pos,
  negsuc, inr, str_append,
}
use go_bpmn.Enum.InstanceState.{started}
use go_bpmn.Entity.{ProcessInstanceEntity, Int4, no_text}
use go_bpmn.Store.Rows.{Partitions}
use go_bpmn.Store.Partitions.{rows_at}
use go_bpmn.Variables.Repository.{VariableEntity, VariableTable, upsert}
use go_bpmn.Variables.Set.{Data, Seal, SetProcessVariablesCmd, set_process_variables}
use go_bpmn.Variables.Contents.{IsKeyed, contents}
use go_bpmn.Variables.Get.{Unseal, get_process_variables}
use go_bpmn.Variables.Placed.{IsPlaced, named}
use go_bpmn.Variables.Read.{reply, get_process_variables-set}
use go_bpmn.Variables.Assigned.{Assigned, InPlace, set_process_variables-Assigned}

abbrev no_id : Int4
no_id = record { int32 = 0; valid = false }

abbrev instance_1 : ProcessInstanceEntity
instance_1 = record {
  partition = 1;
  id = 1;
  parent_id = no_id;
  root_id = no_id;
  message_id = no_id;
  process_id = 7;
  bpmn_process_id = "example";
  correlation_key = no_text;
  created_at = 3;
  created_by = "engine";
  ended_at = record { time = 0; valid = false };
  started_at = record { time = 3; valid = true };
  state = started;
  tags = no_text;
  version = "1";
}

abbrev instances : Partitions ProcessInstanceEntity
instances zero = []
instances (suc zero) = instance_1 ∷ []
instances (suc (suc n)) = []

abbrev variable_of : String → String → VariableEntity
variable_of name value = record {
  partition = 1;
  id = pos 1;
  element_id = no_id;
  element_instance_id = no_id;
  process_id = 7;
  process_instance_id = 1;
  created_at = 4;
  created_by = "w";
  encoding = "json";
  is_encrypted = false;
  name = name;
  updated_at = 4;
  updated_by = "w";
  value = value;
}

abbrev before : VariableTable
before = (1, variable_of "b" "true" ∷ []) ∷ []

abbrev plain : String → Option Data
plain value = some (record { encoding = "json"; is_encrypted = false; value = value })

abbrev secret : String → Option Data
secret value = some (record { encoding = "json"; is_encrypted = true; value = value })

abbrev cmd : SetProcessVariablesCmd
cmd = record {
  partition = 1;
  process_instance_id = 1;
  variables =
      record { name = "a"; content = secret "1" }
      ∷ record { name = "b"; content = none }
      ∷ record { name = "a"; content = plain "2" }
      ∷ [];
  worker_id = "w";
}

-- A seal that writes the key in front.
abbrev seal : Seal
seal key nonce value = ok (str_append key value)

abbrev after : VariableTable
after =
    (
      1,
      record (variable_of "b" "") { id = negsuc 0 }
          ∷ record (variable_of "a" "k1") { id = pos 2; is_encrypted = true }
          ∷ [],
    )
    ∷ []

sets : set_process_variables seal ("k" ∷ []) 4 cmd instances before ≡ inr after
unfolding set_process_variables
sets = refl

before_IsKeyed : IsKeyed (rows_at 1 before)
unfolding rows_at contents
before_IsKeyed k = ground arith

before_IsPlaced : All IsPlaced (rows_at 1 before)
unfolding rows_at
before_IsPlaced = (refl, tt)

in_place : InPlace instances
in_place zero = tt
in_place (suc zero) = ((refl, omega arith, omega arith), tt)
in_place (suc (suc n)) = tt

set_process_variables-Assigned_example : Assigned seal ("k" ∷ []) cmd before after
set_process_variables-Assigned_example =
    set_process_variables-Assigned seal ("k" ∷ []) 4 cmd instances before after in_place
      before_IsKeyed sets

-- A seal that shows the value.
abbrev glass : Seal
glass key nonce value = ok value

abbrev unseal : Unseal
unseal = record { decode = λ sealed. ok sealed; open_with = λ key text. ok text }

abbrev seen : VariableTable
seen =
    (
      1,
      record (variable_of "b" "") { id = negsuc 0 }
          ∷ record (variable_of "a" "1") { id = pos 2; is_encrypted = true }
          ∷ [],
    )
    ∷ []

sets_in_glass : set_process_variables glass ("k" ∷ []) 4 cmd instances before ≡ inr seen
unfolding set_process_variables
sets_in_glass = refl

get_process_variables-set_example :
    get_process_variables unseal ("k" ∷ []) (named 1 1 "a") instances seen
    ≡ inr (reply "a" (secret "1"))
get_process_variables-set_example =
    get_process_variables-set glass unseal ("k" ∷ []) 4 cmd instances before seen "a" (secret "1")
      (λ key nonce value sealed h. (sealed, refl, sym h)) in_place before_IsKeyed before_IsPlaced
      sets_in_glass refl

-- A variable that is written over loses its ID.
overwritten :
    upsert (record (variable_of "b" "false") { id = pos 0 }) before
    ≡ (1, record (variable_of "b" "false") { id = pos 0 } ∷ []) ∷ []
unfolding upsert
overwritten = refl
