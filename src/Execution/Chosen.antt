-- ===== src/Execution/Chosen.antt =====
-- The branch that an exclusive gateway takes (engine/internal/element_instance.go).
use go_bpmn.Shared.{
  ℕ, ◌≡◌, refl, ap, sym, subst, ◌∙◌, true, false, ◌&&◌, ◌⊎◌, String, Option, none, some, List, [],
  ◌∷◌, error, nil_dereference, type_assertion, Result, ok, err, deref, >>=-eq-ok, ok-injective,
  str_eq, eq_iff, Bool-cases, Option-cases, inl, inr,
}
use go_bpmn.Enum.ElementType.{same, exclusive_gateway}
use go_bpmn.Model.Element.{Element, Objects, as_exclusive_gateway}
use go_bpmn.Model.Lookup.{is_target, outgoing_by_id, target_by_id, find_target, flow_by_id}
use go_bpmn.Entity.{ElementInstanceEntity}
use go_bpmn.Graph.Node.{Node, Graph}
use go_bpmn.Graph.Build.{find_node, ensure_sequence_flow}
use go_bpmn.Graph.Create.{create_execution_at}
use go_bpmn.Execution.Exclusive.{
  Evaluated, on_error, done, take_target, default_target, is_undecided, decide, evaluate_at,
  evaluate_exclusive_gateway,
}

pub on_error-eq-ok :
    {A B : Type 0} (m : Result A) (failed : String → B) (f : A → Result B) {b : B}
    → on_error m failed f ≡ ok b
    → ((a : A) × (m ≡ ok a) × (f a ≡ ok b)) ⊎ ((s : String) × (b ≡ failed s))
on_error-eq-ok (ok a) failed f h = inl (a, refl, h)
on_error-eq-ok (err (error s)) failed f h = inr (s, sym (ok-injective h))
on_error-eq-ok (err nil_dereference) failed f h = absurd (cc h)
on_error-eq-ok (err type_assertion) failed f h = absurd (cc h)

-- The element has an outgoing sequence flow to an element with the ID.
abbrev pub LeadsTo : Objects → List ℕ → String → Type 0
LeadsTo o [] id = ⊥
LeadsTo o (f ∷ fs) id =
    ((t : ℕ) × ((o.flow f).target ≡ some t) × ((o.element t).id ≡ id)) ⊎ LeadsTo o fs id

find_target-LeadsTo :
    (o : Objects) (id : String) (fs : List ℕ) (t : ℕ)
    → find_target o id fs ≡ some t
    → LeadsTo o fs id
unfolding find_target
find_target-LeadsTo o id [] t h = cc h
find_target-LeadsTo o id (f ∷ fs) t h = elim (Bool-cases (is_target o id (o.flow f).target)) [
  | inr miss ↦ inr (find_target-LeadsTo o id fs t (rw (find_target, miss) at h))
  | inl hit ↦ elim (Option-cases (o.flow f).target) [
    | inl open_end ↦ absurd (cc (rw open_end at hit))
    | inr (a, is_a) ↦ inl (a, is_a, (eq_iff (o.element a).id id).0 (rw is_a at hit))
  ]
]

flow_by_id-LeadsTo :
    (o : Objects) (id : String) (fs : List ℕ) (f t : ℕ)
    → flow_by_id o id fs ≡ some f
    → (o.flow f).target ≡ some t
    → LeadsTo o fs (o.element t).id
unfolding flow_by_id
flow_by_id-LeadsTo o id [] f t h to = cc h
flow_by_id-LeadsTo o id (k ∷ ks) f t h to = elim (Bool-cases (str_eq (o.flow k).id id)) [
  | inr miss ↦ inr (flow_by_id-LeadsTo o id ks f t (rw (flow_by_id, miss) at h) to)
  | inl hit ↦
      let is_f : some k ≡ some f = rw (flow_by_id, hit) at h in
      inl (t, ap (λ x. (o.flow x).target) (same_flow k f is_f) ∙ to, refl)
]
  where
    same_flow : (a b : ℕ) → some a ≡ some b → a ≡ b
    same_flow a b eq = cc (eq)

-- What an evaluation without a job error has done.
pub record Chosen (g : Graph) (sp : ℕ) (scope e : ElementInstanceEntity) (decision : Option String)
    (r : Evaluated) : Type 0 where
  pub node : Node
  pub target : String
  pub new : ElementInstanceEntity
  pub is_node : find_node g e.bpmn_element_id ≡ ok node
  pub leads : LeadsTo g.model (g.model.element node.bpmn_element).outgoing target
  pub decided :
      (decision ≡ some target)
      ⊎ ((decision ≡ none)
          × (default : String) × (as_exclusive_gateway (g.model.element node.bpmn_element).model
              ≡ ok default)
          × (default_target g sp scope e (g.model.element node.bpmn_element) default ≡ ok target))
  pub created : create_execution_at g sp scope target ≡ ok (r.scope, new)
  pub execution : r.execution ≡ done g sp scope e
  pub next : r.next ≡ new ∷ []

module _ (g : Graph) (sp : ℕ) (scope e : ElementInstanceEntity) where
  taken :
      (id : String) (r : Evaluated)
      → take_target g sp scope e id ≡ ok r
      → r.job_error.valid ≡ false
      → (x : ElementInstanceEntity) × (create_execution_at g sp scope id ≡ ok (r.scope, x))
        × (r.execution ≡ done g sp scope e)
        × (r.next ≡ x ∷ [])
  unfolding take_target
  taken id r h fine = elim (on_error-eq-ok (create_execution_at g sp scope id) _ _ h) [
    | inr (s, failed) ↦ absurd (cc (failed, fine))
    | inl (c, created, eq) ↦
        let is_r = ok-injective eq in
        (
          c.1,
          created ∙ ap (λ y. ok (y.scope, c.1)) is_r,
          ap (λ y. y.execution) (sym is_r),
          ap (λ y. y.next) (sym is_r),
        )
  ]

  pub default_leads :
      (b : Element) (default target : String)
      → default_target g sp scope e b default ≡ ok target
      → LeadsTo g.model b.outgoing target
  unfolding default_target outgoing_by_id
  default_leads b default target h =
      let (f, is_f, h₁) = >>=-eq-ok (deref (outgoing_by_id g.model b default)) _ h in
      let (t, is_t, done') = >>=-eq-ok (deref (g.model.flow f).target) _ h₁ in
      subst (LeadsTo g.model b.outgoing) (ok-injective done') (
        flow_by_id-LeadsTo g.model default b.outgoing f t (deref_some _ f is_f)
          (deref_some _ t is_t))
    where
      deref_some : (o : Option ℕ) (a : ℕ) → deref o ≡ ok a → o ≡ some a
      deref_some none a eq = absurd (cc eq)
      deref_some (some x) a eq = ap some (ok-injective eq)

  pub ensured :
      (n : Node) (id target : String)
      → find_node g id ≡ ok n
      → ensure_sequence_flow g id target ≡ ok tt
      → LeadsTo g.model (g.model.element n.bpmn_element).outgoing target
  unfolding ensure_sequence_flow target_by_id
  ensured n id target found h =
      let (k, is_k, h₁) = >>=-eq-ok (find_node g id) _ h in
      elim (Option-cases (target_by_id g.model (g.model.element k.bpmn_element) target)) [
        | inl missing ↦ absurd (cc (rw (target_by_id, missing) at h₁))
        | inr (t, is_t) ↦
            subst (λ x. LeadsTo g.model (g.model.element x.bpmn_element).outgoing target)
              (ok-injective (sym is_k ∙ found))
              (find_target-LeadsTo g.model target (g.model.element k.bpmn_element).outgoing t is_t)
      ]

  decide-Chosen :
      (n : Node) (default : String) (d : Option String) (r : Evaluated)
      → find_node g e.bpmn_element_id ≡ ok n
      → as_exclusive_gateway (g.model.element n.bpmn_element).model ≡ ok default
      → decide g sp scope e e.bpmn_element_id (g.model.element n.bpmn_element) default d ≡ ok r
      → r.job_error.valid ≡ false
      → Chosen g sp scope e d r
  unfolding decide
  decide-Chosen n default none r found is_default h fine =
      let b = g.model.element n.bpmn_element in
      let (target, is_target, h₁) = >>=-eq-ok (default_target g sp scope e b default) _ h in
      let (x, created, execution, next) = taken target r h₁ fine in
      record {
        node = n;
        target = target;
        new = x;
        is_node = found;
        leads = default_leads b default target is_target;
        decided = inr (refl, default, is_default, is_target);
        created = created;
        execution = execution;
        next = next;
      }
  decide-Chosen n default (some target) r found is_default h fine =
      elim (on_error-eq-ok (ensure_sequence_flow g e.bpmn_element_id target) _ _ h) [
        | inr (s, failed) ↦ absurd (cc (failed, fine))
        | inl (u, sure, h₁) ↦
            let (x, created, execution, next) = taken target r h₁ fine in
            record {
              node = n;
              target = target;
              new = x;
              is_node = found;
              leads = ensured n e.bpmn_element_id target found sure;
              decided = inl refl;
              created = created;
              execution = execution;
              next = next;
            }
      ]

  evaluate_at-Chosen :
      (n : Node) (d : Option String) (r : Evaluated)
      → find_node g e.bpmn_element_id ≡ ok n
      → evaluate_at g sp scope e e.bpmn_element_id n d ≡ ok r
      → r.job_error.valid ≡ false
      → Chosen g sp scope e d r
  unfolding evaluate_at
  evaluate_at-Chosen n d r found h fine =
      let (default, is_default, h₁) =
        >>=-eq-ok (as_exclusive_gateway (g.model.element n.bpmn_element).model) _ h in
      elim (Bool-cases (is_undecided g sp scope e d && str_eq default "")) [
        | inl open_choice ↦ absurd (cc (rw open_choice at h₁, fine))
        | inr choice ↦ decide-Chosen n default d r found is_default (rw choice at h₁) fine
      ]

-- Where an exclusive gateway is evaluated, for a job of the same element, without a job error, the execution
-- is completed and exactly one execution is created, in its scope, at an element to which an outgoing sequence
-- flow of the gateway leads; that is the decided element, or, where the job was completed with no decision given,
-- the target of the gateway's default sequence flow.
pub evaluate_exclusive_gateway-Chosen :
    (g : Graph) (sp : ℕ) (scope e : ElementInstanceEntity) (decision : Option String)
    (r : Evaluated)
    → evaluate_exclusive_gateway g sp scope e e.bpmn_element_id decision ≡ ok r
    → r.job_error.valid ≡ false
    → Chosen g sp scope e decision r
unfolding evaluate_exclusive_gateway
evaluate_exclusive_gateway-Chosen g sp scope e decision r h fine =
    elim (Bool-cases (same e.bpmn_element_type exclusive_gateway)) [
      | inr other ↦ absurd (cc (rw (evaluate_exclusive_gateway, other) at h, fine))
      | inl gateway ↦
          elim (on_error-eq-ok (find_node g e.bpmn_element_id) _ _
            (rw (evaluate_exclusive_gateway, gateway) at h)) [
              | inr (s, failed) ↦ absurd (cc (failed, fine))
              | inl (n, found, eq) ↦ evaluate_at-Chosen g sp scope e n decision r found eq fine
            ]
    ]

-- An empty decision of a completed job is an error of the job whenever the evaluation comes to an end and no
-- outgoing sequence flow of the gateway leads to an element without an ID, whether the gateway has a default
-- sequence flow or not.
pub evaluate_exclusive_gateway_empty :
    (g : Graph) (sp : ℕ) (scope e : ElementInstanceEntity) (r : Evaluated)
    → ((n : Node)
        → find_node g e.bpmn_element_id ≡ ok n
        → LeadsTo g.model (g.model.element n.bpmn_element).outgoing ""
        → ⊥)
    → evaluate_exclusive_gateway g sp scope e e.bpmn_element_id (some "") ≡ ok r
    → r.job_error.valid ≡ true
evaluate_exclusive_gateway_empty g sp scope e r named h = elim (Bool-cases r.job_error.valid) [
  | inl invalid ↦ invalid
  | inr fine ↦
      let c = evaluate_exclusive_gateway-Chosen g sp scope e (some "") r h fine in
      absurd (elim c.decided [
        | inl chosen ↦ named c.node c.is_node (
            subst (LeadsTo g.model (g.model.element c.node.bpmn_element).outgoing)
              (same_text c.target "" (sym chosen)) c.leads)
        | inr missing ↦ absurd (cc (missing.0))
      ])
]
  where
    same_text : (s t : String) → some s ≡ some t → s ≡ t
    same_text s t eq = cc (eq)
