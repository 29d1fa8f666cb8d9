-- ===== src/Variables/Get.antt =====
-- `GetProcessVariables` of engine/internal/variable.go, with the decryption of engine/encryption.go.
use Prim.Native.Nat.{Ordering}
use Prim.Native.String.{compare}
use go_bpmn.Shared.{
  Bool, true, false, not, ◌⊎◌, inl, inr, String, none, some, List, [], ◌∷◌, error, nil_dereference,
  type_assertion, Failure, Result, ok, err, ◌>>=◌, traverse, if◌then◌else◌,
}
use go_bpmn.Entity.{ProcessInstanceEntity}
use go_bpmn.Store.Rows.{Partitions, find_row}
use go_bpmn.Variables.Repository.{
  VariableEntity, VariableTable, GetProcessVariablesCmd, select_by_process_instance,
}
use go_bpmn.Variables.Set.{Data, ProcessVariable, Refusal, not_found, failed, explain, instance_id}
use go_bpmn.Variables.Contents.{content_of}

-- The packages of Go that `Seal` stands for, on the way back.
pub record Unseal : Type 0 where
  pub decode : String → Result String
  pub open_with : (key : String) → String → Result String

-- An error leaves the loop to the next key, a panic does not.
abbrev pub or_next : Result String → (Failure → Result String) → Result String
or_next (ok value) next = ok value
or_next (err (error s)) next = next (error s)
or_next (err nil_dereference) next = err nil_dereference
or_next (err type_assertion) next = err type_assertion

-- The loop of `Encryption.Decrypt`, with the error so far.
unfoldable pub try_keys : Unseal → List String → Failure → String → Result String
try_keys u [] e text = err e
try_keys u (key ∷ keys) e text = or_next (u.open_with key text) (λ e'. try_keys u keys e' text)

unfoldable pub decrypt : Unseal → List String → String → Result String
unfolding try_keys
decrypt u [] value = err (error "no encryption keys configured")
decrypt u (key ∷ keys) value =
    explain "failed to decode encrypted value: " (u.decode value) >>= λ text.
    try_keys u (key ∷ keys) (error "") text

unfoldable pub decrypt_data : Unseal → List String → Data → Result Data
unfolding decrypt
decrypt_data u keys d =
    if not d.is_encrypted
    then ok d
    else do value ← decrypt u keys d.value; ok (record d { value = value })

abbrev pub is_greater : Ordering → Bool
is_greater Ordering.lt = false
is_greater Ordering.eq = false
is_greater Ordering.gt = true

-- `slices.SortFunc` by name; the variables of a process instance have different names.
unfoldable pub put_in : VariableEntity → List VariableEntity → List VariableEntity
put_in x [] = x ∷ []
put_in x (y ∷ ys) =
    let rest = put_in x ys in if is_greater (compare x.name y.name) then y ∷ rest else x ∷ y ∷ ys

unfoldable pub sort_by_name : List VariableEntity → List VariableEntity
unfolding put_in
sort_by_name [] = []
sort_by_name (x ∷ xs) = put_in x (sort_by_name xs)

unfoldable pub read_variable : Unseal → List String → VariableEntity → Result ProcessVariable
unfolding decrypt_data
read_variable u keys e =
    explain "failed to decrypt process variable: " (decrypt_data u keys (content_of e)) >>= λ d.
    ok (record { name = e.name; content = some d })

abbrev pub as_reply : Result (List ProcessVariable) → Refusal ⊎ List ProcessVariable
as_reply (ok vs) = inr vs
as_reply (err e) = inl (failed e)

unfoldable pub get_process_variables :
    Unseal
    → List String
    → GetProcessVariablesCmd
    → Partitions ProcessInstanceEntity
    → VariableTable
    → Refusal ⊎ List ProcessVariable
unfolding find_row select_by_process_instance sort_by_name read_variable traverse
get_process_variables u keys cmd instances t =
    elim (find_row instance_id cmd.process_instance_id (instances cmd.partition)) [
      | none ↦ inl not_found
      | some i ↦
          as_reply
            (traverse (read_variable u keys) (sort_by_name (select_by_process_instance cmd t)))
    ]
