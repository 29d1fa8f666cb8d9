-- ===== src/Variables/Assigned.antt =====
-- What the variables of a process instance are after they were set (engine/internal/variable.go).
use go_bpmn.Shared.{
  not, ◌==◌, ==_iff, ℕ, ◌<◌, ◌≡◌, ◌≢◌, ◌⊎◌, ap, sym, subst, ◌∙◌, false, String, some,
  some-injective, List, [], ◌∷◌, All, arith, ◌==◌, ok, Result-cases, Bool-cases, Option-cases, inl,
  inr,
}
use go_bpmn.Entity.{ProcessInstanceEntity}
use go_bpmn.Store.Rows.{Partitions, find_row, find_row-id}
use go_bpmn.Store.Partitions.{rows_at}
use go_bpmn.Variables.Repository.{VariableEntity, VariableTable}
use go_bpmn.Variables.Set.{
  Refusal, Seal, SetProcessVariablesCmd, map_variables, write_variables, instance_id, set_found,
  set_process_variables,
}
use go_bpmn.Variables.Contents.{Key, contents, IsKeyed, same_key, key_of}
use go_bpmn.Variables.Written.{Belongs, write_variables-effects, effects}
use go_bpmn.Variables.Placed.{IsPlaced, write_variables-All}
use go_bpmn.Variables.Mapped.{Assigns, Made, process_key, effects_other, map_variables-Maps}

-- The variables after a command: those of the process instance that it names are assigned, and no others change.
pub record Assigned (seal : Seal) (keys : List String) (cmd : SetProcessVariablesCmd)
    (t u : VariableTable) : Type 0 where
  pub keyed : IsKeyed (rows_at cmd.partition u)
  pub placed : All IsPlaced (rows_at cmd.partition t) → All IsPlaced (rows_at cmd.partition u)
  pub assigns :
      (name : String)
      → Assigns seal keys 0 cmd.variables name
          (contents (process_key cmd.process_instance_id name) (rows_at cmd.partition t))
          (contents (process_key cmd.process_instance_id name) (rows_at cmd.partition u))
  pub others :
      (k : Key)
      → (k.process_instance_id ≢ cmd.process_instance_id) ⊎ (k.element_instance_id ≢ 0)
      → contents k (rows_at cmd.partition u) ≡ contents k (rows_at cmd.partition t)
  pub elsewhere : (q : ℕ) → q ≢ cmd.partition → rows_at q u ≡ rows_at q t

-- The rows of process instances that the command finds are in the partition they are looked up in.
abbrev pub InPlace : Partitions ProcessInstanceEntity → Type 0
InPlace instances =
    (partition : ℕ)
    → All
        (λ (i : ProcessInstanceEntity). (i.partition ≡ partition) × (0 < i.id) × (0 < i.process_id))
        (instances partition)

pub found-All :
    (P : ProcessInstanceEntity → Type 0) (id : ℕ) (rows : List ProcessInstanceEntity)
    (i : ProcessInstanceEntity)
    → All P rows
    → find_row instance_id id rows ≡ some i
    → P i
unfolding find_row
found-All P id [] i a h = absurd (cc h)
found-All P id (r ∷ rs) i a h = elim (Bool-cases (r.id == id)) [
  | inl hit ↦ subst P (some-injective (rw (find_row, hit) at h)) a.0
  | inr miss ↦ found-All P id rs i a.1 (rw (find_row, miss) at h)
]

other_keys :
    (i : ProcessInstanceEntity) (k : Key) (xs : List VariableEntity)
    → All (Made i) xs
    → (k.process_instance_id ≢ i.id) ⊎ (k.element_instance_id ≢ 0)
    → All (λ x. same_key k (key_of x) ≡ false) xs
unfolding same_key
other_keys i k [] a o = tt
other_keys i k (x ∷ xs) a o =
    let belongs = a.0.belongs in
    (ground (arith, belongs.of_instance, a.0.no_element, o), other_keys i k xs a.1 o)

Made-Belongs :
    (i : ProcessInstanceEntity) (xs : List VariableEntity) {p n : ℕ}
    → i.partition ≡ p
    → i.id ≡ n
    → All (Made i) xs
    → All (Belongs p n) xs
Made-Belongs i [] at_partition is_id a = tt
Made-Belongs i (x ∷ xs) at_partition is_id a =
    let b = a.0.belongs in
    (
      record {
        live = b.live;
        at_partition = b.at_partition ∙ at_partition;
        of_instance = b.of_instance ∙ is_id;
      },
      Made-Belongs i xs at_partition is_id a.1,
    )

Made-Placed :
    (i : ProcessInstanceEntity) (xs : List VariableEntity) {p : ℕ}
    → i.partition ≡ p
    → All (Made i) xs
    → All (λ (x : VariableEntity). (x.partition ≡ p) × IsPlaced x) xs
Made-Placed i [] at_partition a = tt
Made-Placed i (x ∷ xs) at_partition a = (
  (
    a.0.belongs.at_partition ∙ at_partition,
    a.0.not_valid ∙ sym (ap not ((==_iff x.element_instance_id.int32 0).1 a.0.no_element)),
  ),
  Made-Placed i xs at_partition a.1,
)

found-Assigned :
    (seal : Seal) (keys : List String) (time : ℕ) (cmd : SetProcessVariablesCmd)
    (i : ProcessInstanceEntity) (t u : VariableTable)
    → i.partition ≡ cmd.partition
    → i.id ≡ cmd.process_instance_id
    → 0 < i.id
    → 0 < i.process_id
    → IsKeyed (rows_at cmd.partition t)
    → set_found seal keys time cmd i t ≡ inr u
    → Assigned seal keys cmd t u
unfolding set_found
found-Assigned seal keys time cmd i t u at_partition is_id pos_i p keyed h =
    elim (Bool-cases i.ended_at.valid) [
      | inl ended ↦ absurd (cc (rw (set_found, ended) at h))
      | inr active ↦
          elim (Result-cases (map_variables seal keys time i cmd.worker_id 0 [] cmd.variables)) [
            | inr (e, refused) ↦ absurd (cc (rw (set_found, active, refused) at h))
            | inl (xs, mapped) ↦
                let written : ◌≡◌ {A = Refusal ⊎ VariableTable} (inr (write_variables xs t))
                    (inr u) =
                  rw (set_found, active, mapped) at h in
                subst (Assigned seal keys cmd t) (same_table written) (from_entities xs mapped)
          ]
    ]
  where
    same_table : {v w : VariableTable} → ◌≡◌ {A = Refusal ⊎ VariableTable} (inr v) (inr w) → v ≡ w
    same_table e = cc (e)

    from_entities :
        (xs : List VariableEntity)
        → map_variables seal keys time i cmd.worker_id 0 [] cmd.variables ≡ ok xs
        → Assigned seal keys cmd t (write_variables xs t)
    from_entities xs mapped =
        let (made, maps) =
          map_variables-Maps seal keys time i cmd.worker_id 0 [] cmd.variables xs p tt mapped in
        let (kept, here, elsewhere) =
          write_variables-effects cmd.partition cmd.process_instance_id xs t
            (omega (arith, pos_i, is_id)) (Made-Belongs i xs at_partition is_id made) keyed in
        record {
          keyed = kept;
          placed = write_variables-All cmd.partition xs t (Made-Placed i xs at_partition made);
          assigns = λ name.
              let k = process_key cmd.process_instance_id name in
              let before = contents k (rows_at cmd.partition t) in
              elim (maps name before) [
                | inl (none_yet, _) ↦ absurd (cc (none_yet))
                | inr (_, assigned) ↦
                    subst (Assigns seal keys 0 cmd.variables name before)
                      (ap (λ n. effects (process_key n name) xs before) is_id ∙ sym (here k))
                      assigned
              ];
          others = λ k o.
              here k
              ∙ effects_other k xs (contents k (rows_at cmd.partition t)) (
                  other_keys i k xs made (elim o [
                    | inl other ↦ inl (λ e. other (e ∙ is_id))
                    | inr element ↦ inr element
                  ]));
          elsewhere = elsewhere;
        }

-- Variables that are set are set: if the process instance is stored where it belongs, and no variable of the partition
-- stands there twice, then a command that succeeds leaves under each name what the first of its variables with
-- the name says, encrypted if it asks for that, or nothing if it has no data, and under a name that it does not have
-- what was there before; the variables of elements, of other process instances and in other partitions stay as they
-- are, no variable stands twice, and the rows that element instances have are still those with the ID of one.
pub set_process_variables-Assigned :
    (seal : Seal) (keys : List String) (time : ℕ) (cmd : SetProcessVariablesCmd)
    (instances : Partitions ProcessInstanceEntity) (t u : VariableTable)
    → InPlace instances
    → IsKeyed (rows_at cmd.partition t)
    → set_process_variables seal keys time cmd instances t ≡ inr u
    → Assigned seal keys cmd t u
unfolding set_process_variables
set_process_variables-Assigned seal keys time cmd instances t u in_place keyed h =
    elim (Option-cases (find_row instance_id cmd.process_instance_id (instances cmd.partition))) [
      | inl missing ↦ absurd (cc (rw (set_process_variables, missing) at h))
      | inr (i, found) ↦
          let (at_partition, pos_i, p) =
            found-All _ cmd.process_instance_id (instances cmd.partition) i (in_place cmd.partition)
              found in
          found-Assigned seal keys time cmd i t u at_partition
            (find_row-id instance_id cmd.process_instance_id (instances cmd.partition) found) pos_i
            p keyed (rw (set_process_variables, found) at h)
    ]
