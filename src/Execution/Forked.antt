-- ===== src/Execution/Forked.antt =====
-- The branches that an inclusive gateway takes (engine/internal/element_instance.go).
use go_bpmn.Shared.{
  ℕ, ◌<◌, ◌≡◌, refl, ap, sym, false, ◌&&◌, String, Option, List, [], length, All, ok, >>=-eq-ok,
  ok-injective, str_eq, Bool-cases, Option-cases, inl, inr,
}
use go_bpmn.Enum.ElementType.{same, inclusive_gateway}
use go_bpmn.Model.Element.{as_inclusive_gateway}
use go_bpmn.Entity.{ElementInstanceEntity}
use go_bpmn.Graph.Node.{Node, Graph}
use go_bpmn.Graph.Build.{find_node}
use go_bpmn.Graph.Counts.Adds.{Adds}
use go_bpmn.Execution.Exclusive.{Evaluated, job_fails, done}
use go_bpmn.Execution.Inclusive.{
  first_repeated, decided, is_undecided, ensure_all, add_default, fork, decide_all, evaluate_node,
  evaluate_inclusive_gateway,
}
use go_bpmn.Execution.Chosen.{LeadsTo, on_error-eq-ok}
use go_bpmn.Execution.Targets.{
  Distinct, Forks, Takes, first_repeated-Distinct, Forks-Adds, create_all-Forks, ensure_all-LeadsTo,
  add_default-Takes, Takes-Distinct, Takes-LeadsTo, Takes-some,
}

-- What an evaluation without a job error has done.
pub record Forked (g : Graph) (sp : ℕ) (scope e : ElementInstanceEntity)
    (decision : Option (List String)) (r : Evaluated) : Type 0 where
  pub node : Node
  pub default : String
  pub targets : List String
  pub is_node : find_node g e.bpmn_element_id ≡ ok node
  pub is_default : as_inclusive_gateway (g.model.element node.bpmn_element).model ≡ ok default
  pub takes :
      Takes g sp scope e (g.model.element node.bpmn_element) default (decided decision) targets
  pub some_target : 0 < length targets
  pub distinct : Distinct targets
  pub leads : All (LeadsTo g.model (g.model.element node.bpmn_element).outgoing) targets
  pub forks : Forks g sp scope targets r.scope r.next
  pub counted : Adds sp scope r.scope r.next
  pub execution : r.execution ≡ done g sp scope e

module _ (g : Graph) (sp : ℕ) (scope e : ElementInstanceEntity) where
  fork-Forked :
      (n : Node) (default : String) (d : Option (List String)) (r : Evaluated)
      → find_node g e.bpmn_element_id ≡ ok n
      → as_inclusive_gateway (g.model.element n.bpmn_element).model ≡ ok default
      → (is_undecided d && str_eq default "") ≡ false
      → Distinct (decided d)
      → All (LeadsTo g.model (g.model.element n.bpmn_element).outgoing) (decided d)
      → fork g sp scope e (g.model.element n.bpmn_element) default (decided d) ≡ ok r
      → r.job_error.valid ≡ false
      → Forked g sp scope e d r
  unfolding fork
  fork-Forked n default d r found is_default choice distinct leads h fine =
      let b = g.model.element n.bpmn_element in
      let (targets, is_targets, h₁) =
        >>=-eq-ok (add_default g sp scope e b default (decided d)) _ h in
      let takes = add_default-Takes g sp scope e b default (decided d) targets is_targets in
      let (forks, execution) = create_all-Forks g sp scope e targets [] _ r (refl, refl) h₁ fine in
      record {
        node = n;
        default = default;
        targets = targets;
        is_node = found;
        is_default = is_default;
        takes = takes;
        some_target = Takes-some g sp scope e b default d targets takes choice;
        distinct = Takes-Distinct g sp scope e b default (decided d) targets takes distinct;
        leads = Takes-LeadsTo g sp scope e b default (decided d) targets takes leads;
        forks = forks;
        counted = Forks-Adds g sp targets scope r.scope r.next forks;
        execution = execution;
      }

  valid_error :
      {text : String} (r : Evaluated)
      → job_fails g sp scope e text ≡ r
      → r.job_error.valid ≡ false
      → ⊥
  valid_error r is_r fine = cc (ap (λ (q : Evaluated). q.job_error.valid) is_r, fine)

  decide_all-Forked :
      (n : Node) (default : String) (d : Option (List String)) (r : Evaluated)
      → find_node g e.bpmn_element_id ≡ ok n
      → as_inclusive_gateway (g.model.element n.bpmn_element).model ≡ ok default
      → (is_undecided d && str_eq default "") ≡ false
      → decide_all g sp scope e e.bpmn_element_id
          (g.model.element n.bpmn_element)
          default
          (decided d)
        ≡ ok r
      → r.job_error.valid ≡ false
      → Forked g sp scope e d r
  unfolding decide_all
  decide_all-Forked n default d r found is_default choice h fine =
      elim (Option-cases (first_repeated (decided d))) [
        | inr (id, again) ↦ absurd (valid_error r (ok-injective (rw (decide_all, again) at h)) fine)
        | inl once ↦
            elim (on_error-eq-ok (ensure_all g sp scope e e.bpmn_element_id (decided d)) _ _
              (rw (decide_all, once) at h)) [
                | inr (s, failed) ↦ absurd (valid_error r (sym failed) fine)
                | inl (u, sure, eq) ↦
                    fork-Forked n default d r found is_default choice
                      (first_repeated-Distinct (decided d) once)
                      (ensure_all-LeadsTo g sp scope e n e.bpmn_element_id (decided d) found sure)
                      eq fine
              ]
      ]

  evaluate_node-Forked :
      (n : Node) (d : Option (List String)) (r : Evaluated)
      → find_node g e.bpmn_element_id ≡ ok n
      → evaluate_node g sp scope e e.bpmn_element_id n d ≡ ok r
      → r.job_error.valid ≡ false
      → Forked g sp scope e d r
  unfolding evaluate_node
  evaluate_node-Forked n d r found h fine =
      let (default, is_default, h₁) =
        >>=-eq-ok (as_inclusive_gateway (g.model.element n.bpmn_element).model) _ h in
      elim (Bool-cases (is_undecided d && str_eq default "")) [
        | inl open_choice ↦ absurd (valid_error r (ok-injective (rw open_choice at h₁)) fine)
        | inr choice ↦
            decide_all-Forked n default d r found is_default choice (rw choice at h₁) fine
      ]

-- Where an inclusive gateway is evaluated, for a job of the same element, without a job error, the execution is
-- completed, and one execution is created, in its scope, for each of the targets, in their order, which the scope
-- counts; the targets are the decided elements, and the target of the default sequence flow, if there is one, in
-- any case; they are at least one, no two of them are the same, and to each an outgoing sequence flow of the
-- gateway leads.
pub evaluate_inclusive_gateway-Forked :
    (g : Graph) (sp : ℕ) (scope e : ElementInstanceEntity) (decision : Option (List String))
    (r : Evaluated)
    → evaluate_inclusive_gateway g sp scope e e.bpmn_element_id decision ≡ ok r
    → r.job_error.valid ≡ false
    → Forked g sp scope e decision r
unfolding evaluate_inclusive_gateway
evaluate_inclusive_gateway-Forked g sp scope e decision r h fine =
    elim (Bool-cases (same e.bpmn_element_type inclusive_gateway)) [
      | inr other ↦ absurd (
          valid_error g sp scope e r (ok-injective (rw (evaluate_inclusive_gateway, other) at h))
            fine)
      | inl gateway ↦
          elim (on_error-eq-ok (find_node g e.bpmn_element_id) _ _
            (rw (evaluate_inclusive_gateway, gateway) at h)) [
              | inr (s, failed) ↦ absurd (valid_error g sp scope e r (sym failed) fine)
              | inl (n, found, eq) ↦ evaluate_node-Forked g sp scope e n decision r found eq fine
            ]
    ]
