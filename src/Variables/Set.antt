-- ===== src/Variables/Set.antt =====
-- `SetProcessVariables` of engine/internal/variable.go, with the encryption of engine/encryption.go.
use go_bpmn.Shared.{
  ℕ, suc, Bool, false, not, ◌||◌, String, Option, none, some, List, [], ◌∷◌, ◌++◌, pos, Failure,
  error, nil_dereference, type_assertion, Result, ok, err, inl, inr, ◌⊎◌, ◌>>=◌, ◌==◌, str_append,
  str_eq, if◌then◌else◌,
}
use go_bpmn.Entity.{ProcessInstanceEntity}
use go_bpmn.Store.Rows.{Partitions, find_row}
use go_bpmn.Variables.Repository.{VariableEntity, VariableTable, upsert, delete}

-- `engine.Data`.
pub record Data : Type 0 where
  pub encoding : String
  pub is_encrypted : Bool
  pub value : String

-- `engine.ProcessVariable`; without data the variable is deleted. Each has data of its own.
pub record ProcessVariable : Type 0 where
  pub name : String
  pub content : Option Data

-- `engine.SetProcessVariablesCmd`.
pub record SetProcessVariablesCmd : Type 0 where
  pub partition : ℕ
  pub process_instance_id : ℕ
  pub variables : List ProcessVariable
  pub worker_id : String

-- Why variables are not set.
pub data Refusal : Type 0 where
  not_found is_ended : Refusal
  failed : Failure → Refusal

-- Seals a value with a key and a random nonce, which each call has of its own: the packages `crypto/aes`,
-- `crypto/cipher`, `crypto/rand` and `encoding/base64` of Go.
abbrev pub Seal : Type 0
Seal = String → ℕ → String → Result String

-- `Encryption.Encrypt`, with the keys that are configured.
unfoldable pub encrypt : Seal → List String → ℕ → String → Result String
encrypt seal [] nonce value = err (error "no encryption keys configured")
encrypt seal (key ∷ keys) nonce value = seal key nonce value

unfoldable pub encrypt_data : Seal → List String → ℕ → Data → Result Data
unfolding encrypt
encrypt_data seal keys nonce d =
    if not d.is_encrypted
    then ok d
    else do value ← encrypt seal keys nonce d.value; ok (record d { value = value })

-- An error gets a text in front; a panic goes on.
abbrev pub explain {ℓ} : {A : Type ℓ} → String → Result A → Result A
explain text (ok a) = ok a
explain text (err (error s)) = err (error (str_append text s))
explain text (err nil_dereference) = err nil_dereference
explain text (err type_assertion) = err type_assertion

unfoldable pub contains_process_variable : List VariableEntity → String → Bool
contains_process_variable [] name = false
contains_process_variable (e ∷ es) name =
    let rest = contains_process_variable es name in str_eq e.name name || rest

module _ (seal : Seal) (keys : List String) (time : ℕ) (i : ProcessInstanceEntity) where
  -- The fields that a deletion needs.
  unfoldable pub deletion : String → VariableEntity
  deletion name = record {
    partition = i.partition;
    id = pos 0;
    element_id = record { int32 = 0; valid = false };
    element_instance_id = record { int32 = 0; valid = false };
    process_id = 0;
    process_instance_id = i.id;
    created_at = 0;
    created_by = "";
    encoding = "";
    is_encrypted = false;
    name = name;
    updated_at = 0;
    updated_by = "";
    value = "";
  }

  unfoldable pub assignment : String → String → Data → VariableEntity
  unfolding deletion
  assignment worker_id name d = record (deletion name) {
    process_id = i.process_id;
    created_at = time;
    created_by = worker_id;
    encoding = d.encoding;
    is_encrypted = d.is_encrypted;
    updated_at = time;
    updated_by = worker_id;
    value = d.value;
  }

  -- The entity for a variable; `n` is the number of the call that encrypts.
  unfoldable pub entity_of : String → ℕ → String → Option Data → Result VariableEntity
  unfolding deletion assignment encrypt_data
  entity_of worker_id n name none = ok (deletion name)
  entity_of worker_id n name (some d) =
      explain (str_append "failed to encrypt process variable " (str_append name ": "))
        (encrypt_data seal keys n d)
      >>= λ sealed. ok (assignment worker_id name sealed)

  -- The loop, with the entities so far.
  unfoldable pub map_variables :
      String → ℕ → List VariableEntity → List ProcessVariable → Result (List VariableEntity)
  unfolding contains_process_variable entity_of
  map_variables worker_id n es [] = ok es
  map_variables worker_id n es (v ∷ vs) =
      if contains_process_variable es v.name
      then map_variables worker_id (suc n) es vs
      else entity_of worker_id n v.name v.content >>= λ e.
          map_variables worker_id (suc n) (es ++ e ∷ []) vs

-- An entity without a process is one to delete.
unfoldable pub write_variable : VariableEntity → VariableTable → VariableTable
unfolding delete upsert
write_variable e t = if not (e.process_id == 0) then upsert e t else delete e t

unfoldable pub write_variables : List VariableEntity → VariableTable → VariableTable
unfolding write_variable
write_variables [] t = t
write_variables (e ∷ es) t = write_variables es (write_variable e t)

abbrev pub instance_id : ProcessInstanceEntity → ℕ
instance_id i = i.id

abbrev pub write_mapped : VariableTable → Result (List VariableEntity) → Refusal ⊎ VariableTable
write_mapped t (ok es) = inr (write_variables es t)
write_mapped t (err e) = inl (failed e)

unfoldable pub set_found :
    Seal
    → List String
    → ℕ
    → SetProcessVariablesCmd
    → ProcessInstanceEntity
    → VariableTable
    → Refusal ⊎ VariableTable
unfolding map_variables write_variables
set_found seal keys time cmd i t =
    if i.ended_at.valid
    then inl is_ended
    else write_mapped t (map_variables seal keys time i cmd.worker_id 0 [] cmd.variables)

unfoldable pub set_process_variables :
    Seal
    → List String
    → ℕ
    → SetProcessVariablesCmd
    → Partitions ProcessInstanceEntity
    → VariableTable
    → Refusal ⊎ VariableTable
unfolding find_row set_found
set_process_variables seal keys time cmd instances t =
    elim (find_row instance_id cmd.process_instance_id (instances cmd.partition)) [
      | none ↦ inl not_found
      | some i ↦ set_found seal keys time cmd i t
    ]
