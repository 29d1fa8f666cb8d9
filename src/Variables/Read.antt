-- ===== src/Variables/Read.antt =====
-- What `GetProcessVariables` returns of what `SetProcessVariables` has set (engine/internal/variable.go).
use go_bpmn.Shared.{
  ℕ, suc, ◌≡◌, refl, ap, subst, ◌∙◌, String, Option, none, some, some-injective, List, [], ◌∷◌, map,
  All, arith, str_eq, eq_iff, ok, >>=-eq-ok, ok-injective, traverse, if◌then◌else◌, Bool-cases,
  Option-cases, inl, inr,
}
use go_bpmn.Entity.{ProcessInstanceEntity}
use go_bpmn.Store.Rows.{Partitions, find_row, find_row-id}
use go_bpmn.Store.Partitions.{rows_at}
use go_bpmn.Variables.Repository.{VariableEntity, VariableTable, select_by_process_instance}
use go_bpmn.Variables.Set.{
  Data, ProcessVariable, Seal, SetProcessVariablesCmd, encrypt, encrypt_data, instance_id,
  set_process_variables,
}
use go_bpmn.Variables.Get.{
  Unseal, try_keys, decrypt, decrypt_data, put_in, sort_by_name, read_variable, as_reply,
  get_process_variables,
}
use go_bpmn.Variables.Contents.{content_of, IsKeyed}
use go_bpmn.Variables.Mapped.{Assigns, Gives}
use go_bpmn.Variables.Placed.{IsPlaced, named, selected-contents}
use go_bpmn.Variables.Assigned.{InPlace, found-All, set_process_variables-Assigned}

-- What was sealed with a key is opened with it.
abbrev pub Opens : Seal → Unseal → Type 0
Opens seal u =
    (key : String) (nonce : ℕ) (value sealed : String)
    → seal key nonce value ≡ ok sealed
    → (text : String) × (u.decode sealed ≡ ok text) × (u.open_with key text ≡ ok value)

-- The data that the first variable of the name has.
abbrev pub first_content : List ProcessVariable → String → Option (Option Data)
first_content [] name = none
first_content (v ∷ vs) name =
    let rest = first_content vs name in if str_eq v.name name then some v.content else rest

abbrev pub reply : String → Option Data → List ProcessVariable
reply name none = []
reply name (some d) = record { name = name; content = some d } ∷ []

Assigns-Gives :
    (seal : Seal) (keys : List String) (n : ℕ) (vs : List ProcessVariable) (name : String)
    (before after : List Data) (content : Option Data)
    → Assigns seal keys n vs name before after
    → first_content vs name ≡ some content
    → (m : ℕ) × Gives seal keys m content after
Assigns-Gives seal keys n [] name before after content a h = absurd (cc h)
Assigns-Gives seal keys n (v ∷ vs) name before after content (inl (same_name, gives)) h = (
  n,
  subst (λ c. Gives seal keys n c after)
      (some-injective (rw ((eq_iff v.name name).1 same_name) at h)) gives,
)
Assigns-Gives seal keys n (v ∷ vs) name before after content (inr (other, rest)) h =
    elim (Bool-cases (str_eq v.name name)) [
      | inl hit ↦ absurd (other ((eq_iff v.name name).0 hit))
      | inr miss ↦ Assigns-Gives seal keys (suc n) vs name before after content rest (rw miss at h)
    ]

decrypt-encrypt :
    (seal : Seal) (u : Unseal) (keys : List String) (nonce : ℕ) (value sealed : String)
    → Opens seal u
    → encrypt seal keys nonce value ≡ ok sealed
    → decrypt u keys sealed ≡ ok value
unfolding encrypt decrypt try_keys
decrypt-encrypt seal u [] nonce value sealed opens h = absurd (cc h)
decrypt-encrypt seal u (key ∷ keys) nonce value sealed opens h =
    let (text, decoded, opened) = opens key nonce value sealed h in rw (decoded, opened) refl

decrypt_data-encrypt_data :
    (seal : Seal) (u : Unseal) (keys : List String) (nonce : ℕ) (d sealed : Data)
    → Opens seal u
    → encrypt_data seal keys nonce d ≡ ok sealed
    → decrypt_data u keys sealed ≡ ok d
unfolding encrypt_data decrypt_data
decrypt_data-encrypt_data seal u keys nonce d sealed opens h = elim (Bool-cases d.is_encrypted) [
  | inr plain ↦
      subst (λ s. decrypt_data u keys s ≡ ok d) (ok-injective (rw (encrypt_data, plain) at h))
        (rw (decrypt_data, plain) refl)
  | inl secret ↦
      let (value, is_value, made) =
        >>=-eq-ok (encrypt seal keys nonce d.value) _ (rw (encrypt_data, secret) at h) in
      subst (λ s. decrypt_data u keys s ≡ ok d) (ok-injective made)
        (rw (secret, decrypt-encrypt seal u keys nonce d.value value opens is_value) refl)
]

read_variable-Gives :
    (u : Unseal) (keys : List String) (name : String) (e : VariableEntity) (d : Data)
    → e.name ≡ name
    → decrypt_data u keys (content_of e) ≡ ok d
    → read_variable u keys e ≡ ok (record { name = name; content = some d })
unfolding read_variable
read_variable-Gives u keys name e d is_name opened = rw (opened, is_name) refl

-- The rows of a name are read as what they were set to.
read_rows :
    (seal : Seal) (u : Unseal) (keys : List String) (m : ℕ) (name : String)
    (rows : List VariableEntity) (after : List Data) (content : Option Data)
    → Opens seal u
    → All (λ e. e.name ≡ name) rows
    → map content_of rows ≡ after
    → Gives seal keys m content after
    → traverse (read_variable u keys) (sort_by_name rows) ≡ ok (reply name content)
unfolding traverse sort_by_name put_in
read_rows seal u keys m name [] after none opens a same_rows gives = refl
read_rows seal u keys m name (e ∷ es) after none opens a same_rows gives =
    absurd (cc (same_rows ∙ gives))
read_rows seal u keys m name [] after (some d) opens a same_rows (sealed, is_sealed, gives) =
    absurd (cc (same_rows ∙ gives))
read_rows seal u keys m name (e ∷ []) after (some d) opens a same_rows (sealed, is_sealed, gives) =
    let same_content : content_of e ≡ sealed = head_eq (content_of e) sealed (same_rows ∙ gives) in
    rw
      (read_variable-Gives u keys name e d a.0 (
        ap (decrypt_data u keys) same_content
        ∙ decrypt_data-encrypt_data seal u keys m d sealed opens is_sealed))
      refl
  where
    head_eq : (x y : Data) → x ∷ [] ≡ y ∷ [] → x ≡ y
    head_eq x y eq = cc (eq)
read_rows seal u keys m name (e ∷ f ∷ es) after (some d) opens a same_rows
      (sealed, is_sealed, gives) =
    absurd (cc (same_rows ∙ gives))

-- What is set is read: where a command to set variables has succeeded, asking the process instance for one of its
-- names returns the data that the first variable of the command with that name has, unencrypted, and nothing if
-- it has no data; the premises are that what was sealed with a key is opened with it, that the process instance is
-- stored where it belongs, and that in the partition no variable stands twice and the rows that element instances
-- have are those with the ID of one.
pub get_process_variables-set :
    (seal : Seal) (unseal : Unseal) (keys : List String) (time : ℕ) (cmd : SetProcessVariablesCmd)
    (instances : Partitions ProcessInstanceEntity) (t u : VariableTable) (name : String)
    (content : Option Data)
    → Opens seal unseal
    → InPlace instances
    → IsKeyed (rows_at cmd.partition t)
    → All IsPlaced (rows_at cmd.partition t)
    → set_process_variables seal keys time cmd instances t ≡ inr u
    → first_content cmd.variables name ≡ some content
    → get_process_variables unseal keys
        (named cmd.partition cmd.process_instance_id name)
        instances
        u
      ≡ inr (reply name content)
unfolding get_process_variables set_process_variables
get_process_variables-set seal unseal keys time cmd instances t u name content opens in_place keyed
      placed h first =
    elim (Option-cases (find_row instance_id cmd.process_instance_id (instances cmd.partition))) [
      | inl missing ↦ absurd (cc (rw (set_process_variables, missing) at h))
      | inr (i, found) ↦
          let (at_partition, pos_i, p) =
            found-All _ cmd.process_instance_id (instances cmd.partition) i (in_place cmd.partition)
              found in
          let is_id =
            find_row-id instance_id cmd.process_instance_id (instances cmd.partition) found in
          let set =
            set_process_variables-Assigned seal keys time cmd instances t u in_place keyed h in
          let (m, gives) =
            Assigns-Gives seal keys 0 cmd.variables name _ _ content (set.assigns name) first in
          let (same_rows, names) =
            selected-contents cmd.partition cmd.process_instance_id name u
              (omega (arith, pos_i, is_id)) (set.placed placed) in
          rw (get_process_variables, found)
            (ap as_reply (
              read_rows seal unseal keys m name
                (select_by_process_instance (named cmd.partition cmd.process_instance_id name) u) _
                content opens names same_rows gives))
    ]
