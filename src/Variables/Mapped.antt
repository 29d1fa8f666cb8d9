-- ===== src/Variables/Mapped.antt =====
-- The entities for the variables of a command (`mapProcessVariables` of engine/internal/variable.go).
use go_bpmn.Shared.{
  ℕ, suc, ◌<◌, ◌≡◌, ◌≢◌, ◌⊎◌, refl, ap, sym, subst, ◌∙◌, true, false, ◌||◌, String, Option, none,
  some, List, [], ◌∷◌, ◌++◌, All, All-append, arith, ==_iff, str_eq, eq_iff, error, nil_dereference,
  type_assertion, Result, ok, err, >>=-eq-ok, ok-injective, Bool-cases, inl, inr,
}
use go_bpmn.Entity.{ProcessInstanceEntity}
use go_bpmn.Variables.Repository.{VariableEntity}
use go_bpmn.Variables.Set.{
  Data, ProcessVariable, Seal, encrypt_data, explain, contains_process_variable, deletion,
  assignment, entity_of, map_variables,
}
use go_bpmn.Variables.Contents.{Key, key_of, same_key}
use go_bpmn.Variables.Changes.{changed}
use go_bpmn.Variables.Written.{Belongs, brought, effects}

-- The key of a variable of a process instance.
abbrev pub process_key : ℕ → String → Key
process_key i name = record { process_instance_id = i; element_instance_id = 0; name = name }

-- Entities with other keys have no effect.
pub effects_other :
    (k : Key) (xs : List VariableEntity) (before : List Data)
    → All (λ x. same_key k (key_of x) ≡ false) xs
    → effects k xs before ≡ before
effects_other k [] before a = refl
effects_other k (x ∷ xs) before a = rw a.0 (effects_other k xs before a.1)

effects-append :
    (k : Key) (xs : List VariableEntity) (x : VariableEntity) (before : List Data)
    → effects k (xs ++ x ∷ []) before ≡ changed k (key_of x) (brought x) (effects k xs before)
effects-append k [] x before = refl
effects-append k (y ∷ ys) x before = effects-append k ys x (changed k (key_of y) (brought y) before)

contains-append :
    (es : List VariableEntity) (e : VariableEntity) (name : String)
    → contains_process_variable (es ++ e ∷ []) name
      ≡ (contains_process_variable es name || str_eq e.name name)
unfolding contains_process_variable
contains-append [] e name = ground arith
contains-append (x ∷ xs) e name = ground (arith, contains-append xs e name)

-- An entity for a variable of the process instance.
pub record Made (i : ProcessInstanceEntity) (x : VariableEntity) : Type 0 where
  pub belongs : Belongs i.partition i.id x
  pub no_element : x.element_instance_id.int32 ≡ 0
  pub not_valid : x.element_instance_id.valid ≡ false

Made-same_key :
    (i : ProcessInstanceEntity) (x : VariableEntity) (name : String)
    → Made i x
    → same_key (process_key i.id name) (key_of x) ≡ str_eq x.name name
unfolding same_key
Made-same_key i x name m =
    rw
      (
        (==_iff x.process_instance_id i.id).1 m.belongs.of_instance,
        (==_iff x.element_instance_id.int32 0).1 m.no_element,
      )
      refl

not_contained :
    (i : ProcessInstanceEntity) (es : List VariableEntity) (name : String)
    → All (Made i) es
    → contains_process_variable es name ≡ false
    → All (λ x. same_key (process_key i.id name) (key_of x) ≡ false) es
unfolding contains_process_variable
not_contained i [] name a h = tt
not_contained i (e ∷ es) name a h = (
  Made-same_key i e name a.0 ∙ ground (arith, h),
  not_contained i es name a.1 (ground (arith, h)),
)

explain-eq-ok :
    {A : Type 0} (text : String) (m : Result A) {a : A} → explain text m ≡ ok a → m ≡ ok a
explain-eq-ok text (ok a) h = h
explain-eq-ok text (err (error s)) h = absurd (cc h)
explain-eq-ok text (err nil_dereference) h = absurd (cc h)
explain-eq-ok text (err type_assertion) h = absurd (cc h)

module _ (seal : Seal) (keys : List String) where
  -- What a variable with the given data holds afterwards.
  abbrev pub Gives : ℕ → Option Data → List Data → Type 0
  Gives n none after = after ≡ []
  Gives n (some d) after =
      (sealed : Data) × (encrypt_data seal keys n d ≡ ok sealed) × (after ≡ sealed ∷ [])

  -- The first variable of the name decides; without one, nothing changes.
  abbrev pub Assigns : ℕ → List ProcessVariable → String → List Data → List Data → Type 0
  Assigns n [] name before after = after ≡ before
  Assigns n (v ∷ vs) name before after =
      ((v.name ≡ name) × Gives n v.content after)
      ⊎ ((v.name ≢ name) × Assigns (suc n) vs name before after)

  module _ (time : ℕ) (i : ProcessInstanceEntity) (worker_id : String) where
    deletion-Made : (name : String) → Made i (deletion seal keys time i name)
    unfolding deletion
    deletion-Made name = record {
      belongs = record { live = refl; at_partition = refl; of_instance = refl };
      no_element = refl;
      not_valid = refl;
    }

    assignment-Made :
        (name : String) (d : Data) → Made i (assignment seal keys time i worker_id name d)
    unfolding assignment
    assignment-Made name d = record {
      belongs = record { live = refl; at_partition = refl; of_instance = refl };
      no_element = refl;
      not_valid = refl;
    }

    brought-assignment :
        (name : String) (d : Data)
        → 0 < i.process_id
        → brought (assignment seal keys time i worker_id name d) ≡ d ∷ []
    unfolding assignment
    brought-assignment name d p = ground (arith, p)

    entity_of-Made :
        (n : ℕ) (name : String) (content : Option Data) (e : VariableEntity)
        → 0 < i.process_id
        → entity_of seal keys time i worker_id n name content ≡ ok e
        → Made i e × (e.name ≡ name) × Gives n content (brought e)
    unfolding entity_of deletion assignment
    entity_of-Made n name none e p h =
        subst (λ x. Made i x × (x.name ≡ name) × (brought x ≡ [])) (ok-injective h)
          (deletion-Made name, refl, refl)
    entity_of-Made n name (some d) e p h =
        let (sealed, is_sealed, made) = >>=-eq-ok (explain _ (encrypt_data seal keys n d)) _ h in
        subst (λ x. Made i x × (x.name ≡ name) × Gives n (some d) (brought x)) (ok-injective made)
          (
            assignment-Made name sealed,
            refl,
            (
              sealed,
              explain-eq-ok _ (encrypt_data seal keys n d) is_sealed,
              brought-assignment name sealed p,
            ),
          )

    -- What the entities do to the contents for a name, where some entities are there already.
    abbrev Maps :
        ℕ → List VariableEntity → List ProcessVariable → List VariableEntity → String → Type 0
    Maps n es vs xs name =
        (before : List Data)
        → ((contains_process_variable es name ≡ true)
            × (effects (process_key i.id name) xs before
                ≡ effects (process_key i.id name) es before))
          ⊎ ((contains_process_variable es name ≡ false)
              × Assigns n vs name before (effects (process_key i.id name) xs before))

    Maps-skip :
        (n : ℕ) (es : List VariableEntity) (v : ProcessVariable) (vs : List ProcessVariable)
        (xs : List VariableEntity) (name : String)
        → contains_process_variable es v.name ≡ true
        → Maps (suc n) es vs xs name
        → Maps n es (v ∷ vs) xs name
    Maps-skip n es v vs xs name known m before = elim (m before) [
      | inl old ↦ inl old
      | inr (new, assigned) ↦
          inr (
            new,
            inr (λ e. absurd (cc (ap (contains_process_variable es) e, known, new)), assigned),
          )
    ]

    Maps-add :
        (n : ℕ) (es : List VariableEntity) (e : VariableEntity) (v : ProcessVariable)
        (vs : List ProcessVariable) (xs : List VariableEntity) (name : String)
        → All (Made i) es
        → Made i e
        → e.name ≡ v.name
        → Gives n v.content (brought e)
        → contains_process_variable es v.name ≡ false
        → Maps (suc n) (es ++ e ∷ []) vs xs name
        → Maps n es (v ∷ vs) xs name
    Maps-add n es e v vs xs name all_made made named gives new m before =
        let k = process_key i.id name in
        let has = contains-append es e name in
        let agree = Made-same_key i e name made in
        let append = effects-append k es e before in
        elim (m before) [
          | inl (known, old) ↦ elim (Bool-cases (contains_process_variable es name)) [
            | inl before_it ↦
                let other = other_name before_it (Bool-cases (str_eq e.name name)) in
                inl (before_it, old ∙ append ∙ rw (agree ∙ other) refl)
            | inr not_before ↦
                let this_one : str_eq e.name name ≡ true = ground (arith, has, known, not_before) in
                inr (
                  not_before,
                  inl (
                    sym named ∙ (eq_iff e.name name).0 this_one,
                    subst (Gives n v.content) (sym (old ∙ append ∙ rw (agree ∙ this_one) refl))
                        gives,
                  ),
                )
          ]
          | inr (unknown, assigned) ↦
              let other : str_eq e.name name ≡ false = ground (arith, has, unknown) in
              inr (
                ground (arith, has, unknown),
                inr (
                  λ same_name. absurd (cc ((eq_iff e.name name).1 (named ∙ same_name), other)),
                  assigned,
                ),
              )
        ]
      where
        other_name :
            contains_process_variable es name ≡ true
            → (str_eq e.name name ≡ true) ⊎ (str_eq e.name name ≡ false)
            → str_eq e.name name ≡ false
        other_name before_it (inr other) = other
        other_name before_it (inl this_one) = absurd (
            cc (
              ap (contains_process_variable es) (sym named ∙ (eq_iff e.name name).0 this_one),
              new,
              before_it,
            ))

    -- The entities belong to the process instance, and assign what the variables say.
    pub map_variables-Maps :
        (n : ℕ) (es : List VariableEntity) (vs : List ProcessVariable) (xs : List VariableEntity)
        → 0 < i.process_id
        → All (Made i) es
        → map_variables seal keys time i worker_id n es vs ≡ ok xs
        → All (Made i) xs × ((name : String) → Maps n es vs xs name)
    unfolding map_variables
    map_variables-Maps n es [] xs p a h =
        subst (λ ys. All (Made i) ys × ((name : String) → Maps n es [] ys name)) (ok-injective h)
          (a, at_end)
      where
        at_end : (name : String) → Maps n es [] es name
        at_end name before = elim (Bool-cases (contains_process_variable es name)) [
          | inl known ↦ inl (known, refl)
          | inr new ↦
              inr (
                new,
                effects_other (process_key i.id name) es before (not_contained i es name a new),
              )
        ]
    map_variables-Maps n es (v ∷ vs) xs p a h =
        elim (Bool-cases (contains_process_variable es v.name)) [
          | inl known ↦
              let (made, maps) =
                map_variables-Maps (suc n) es vs xs p a (rw (map_variables, known) at h) in
              (made, λ name. Maps-skip n es v vs xs name known (maps name))
          | inr new ↦
              let (e, is_e, rest) =
                >>=-eq-ok (entity_of seal keys time i worker_id n v.name v.content) _
                  (rw (map_variables, new) at h) in
              let (made_e, named, gives) = entity_of-Made n v.name v.content e p is_e in
              let (made, maps) =
                map_variables-Maps (suc n) (es ++ e ∷ []) vs xs p
                  (All-append (Made i) es (e ∷ []) a (made_e, tt)) rest in
              (made, λ name. Maps-add n es e v vs xs name a made_e named gives new (maps name))
        ]
