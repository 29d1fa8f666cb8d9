-- ===== src/Variables/Contents.antt =====
-- What the rows of a partition hold, by process instance, element instance and name (engine/mem/variable.go).
use go_bpmn.Shared.{
  ℕ, ◌≤◌, ◌≡◌, refl, ap, Bool, true, false, not, ◌&&◌, String, List, [], ◌∷◌, length, arith, ◌==◌,
  ==_iff, str_eq, eq_iff, if◌then◌else◌, Bool-cases, inl, inr,
}
use go_bpmn.Variables.Repository.{VariableEntity, is_deleted}
use go_bpmn.Variables.Set.{Data}

pub record Key : Type 0 where
  pub process_instance_id : ℕ
  pub element_instance_id : ℕ
  pub name : String

abbrev pub key_of : VariableEntity → Key
key_of e = record {
  process_instance_id = e.process_instance_id;
  element_instance_id = e.element_instance_id.int32;
  name = e.name;
}

unfoldable pub same_key : Key → Key → Bool
same_key k j =
    j.process_instance_id == k.process_instance_id
    && j.element_instance_id == k.element_instance_id
    && str_eq j.name k.name

abbrev pub content_of : VariableEntity → Data
content_of e = record { encoding = e.encoding; is_encrypted = e.is_encrypted; value = e.value }

abbrev pub counts_for : Key → VariableEntity → Bool
counts_for k e = not (is_deleted e) && same_key k (key_of e)

-- The contents of the rows with the key that are not deleted.
unfoldable pub contents : Key → List VariableEntity → List Data
contents k [] = []
contents k (e ∷ es) =
    let rest = contents k es in if counts_for k e then content_of e ∷ rest else rest

-- No two rows that are not deleted have the same key.
abbrev pub IsKeyed : List VariableEntity → Type 0
IsKeyed rows = (k : Key) → length (contents k rows) ≤ 1

pub same_key-eq : (k j : Key) → same_key k j ≡ true → j ≡ k
unfolding same_key
same_key-eq k j h =
    let (h₁, name) =
      both
        (j.process_instance_id == k.process_instance_id
          && j.element_instance_id == k.element_instance_id)
        (str_eq j.name k.name) h in
    let (instance_id, element) =
      both (j.process_instance_id == k.process_instance_id)
        (j.element_instance_id == k.element_instance_id) h₁ in
    cc (
      (==_iff j.process_instance_id k.process_instance_id).0 instance_id,
      (==_iff j.element_instance_id k.element_instance_id).0 element,
      (eq_iff j.name k.name).0 name,
    )
  where
    both : (a b : Bool) → (a && b) ≡ true → (a ≡ true) × (b ≡ true)
    both a b e = (ground (arith, e), ground (arith, e))

pub contents-hit :
    (k : Key) (e : VariableEntity) (es : List VariableEntity)
    → counts_for k e ≡ true
    → contents k (e ∷ es) ≡ content_of e ∷ contents k es
unfolding contents
contents-hit k e es h = rw h refl

pub contents-miss :
    (k : Key) (e : VariableEntity) (es : List VariableEntity)
    → counts_for k e ≡ false
    → contents k (e ∷ es) ≡ contents k es
unfolding contents
contents-miss k e es h = rw h refl

-- The rows behind the first have the property too.
pub tail-IsKeyed : (e : VariableEntity) (es : List VariableEntity) → IsKeyed (e ∷ es) → IsKeyed es
tail-IsKeyed e es h k = elim (Bool-cases (counts_for k e)) [
  | inl hit ↦ omega (arith, ap (length {A = Data}) (contents-hit k e es hit), h k)
  | inr miss ↦ omega (arith, ap (length {A = Data}) (contents-miss k e es miss), h k)
]

-- Behind a row with the key there is none.
pub alone :
    (k : Key) (e : VariableEntity) (es : List VariableEntity)
    → IsKeyed (e ∷ es)
    → counts_for k e ≡ true
    → contents k es ≡ []
alone k e es h hit =
    none_left (contents k es) (omega (arith, ap (length {A = Data}) (contents-hit k e es hit), h k))
  where
    none_left : (ds : List Data) → length ds ≤ 0 → ds ≡ []
    none_left [] l = refl
    none_left (d ∷ ds) l = absurd (omega (arith, l))
