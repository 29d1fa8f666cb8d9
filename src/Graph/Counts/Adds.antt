-- ===== src/Graph/Counts/Adds.antt =====
-- The books of a scope: what it means that the counts agree (engine/internal/graph.go).
use go_bpmn.Shared.{
  String, ℕ, suc, ◌+◌, ◌≡◌, refl, ap, subst, true, ◌⊎◌, List, [], ◌∷◌, pos, negsuc, ◌+ℤ◌, is_neg,
  int_laws, ok, >>=-eq-ok, ok-injective, arith, length, Bool-cases, inl, inr, str_eq,
}
use go_bpmn.Enum.InstanceState.{InstanceState, completed, created, terminated}
use go_bpmn.Model.Element.{as_intermediate_catch_event, as_intermediate_throw_event}
use go_bpmn.Entity.{ElementInstanceEntity}
use go_bpmn.Graph.Node.{Node, Graph}
use go_bpmn.Graph.Build.{find_node}
use go_bpmn.Graph.Create.{create_execution_at}
use go_bpmn.Graph.Continue.{Continued, link_name, follow_link, throw_link, await_events}
use go_bpmn.Graph.Counts.Parents.{children_of, InScope, Created, create_execution_at-Created}

-- An execution in this state is no longer counted by its scope.
abbrev pub ended : InstanceState → ℕ
ended completed = 1
ended terminated = 1
ended _ = 0

-- Nothing of the scope changes but the count.
abbrev pub OnlyCount : ElementInstanceEntity → ElementInstanceEntity → Type 0
OnlyCount scope scope' = scope' ≡ record scope { execution_count = scope'.execution_count }

-- What an operation that creates executions in a scope returns.
abbrev pub Adds :
    ℕ → ElementInstanceEntity → ElementInstanceEntity → List ElementInstanceEntity → Type 0
Adds sp scope scope' next =
    OnlyCount scope scope'
    × (scope'.execution_count ≡ scope.execution_count +ℤ pos (length next))
    × InScope sp next

pub Created-Adds :
    (sp : ℕ) (scope : ElementInstanceEntity) (r : ElementInstanceEntity × ElementInstanceEntity)
    → Created sp scope r
    → Adds sp scope r.0 (r.1 ∷ [])
Created-Adds sp scope r h = (cc (h.0), ap (λ x. x.execution_count) h.0, (h.1, tt))

pub follow_link-Adds :
    (g : Graph) (sp : ℕ) (scope : ElementInstanceEntity) (name : String) (cs : List ℕ)
    (r : ElementInstanceEntity × List ElementInstanceEntity)
    → follow_link g sp scope name cs ≡ ok r
    → Adds sp scope r.0 r.1
unfolding follow_link
follow_link-Adds g sp scope name [] r h =
    subst (λ x. Adds sp scope x.0 x.1) (ok-injective h) (refl, omega int_laws, tt)
follow_link-Adds g sp scope name (c ∷ cs) r h =
    let (definition, _, h₁) =
      >>=-eq-ok (as_intermediate_catch_event (g.model.element c).model) _ h in
    let (catch_name, _, h₂) = >>=-eq-ok (link_name definition) _ h₁ in
    elim (Bool-cases (str_eq name catch_name)) [
      | inl hit ↦
          let (made, is_made, eq) =
            >>=-eq-ok (create_execution_at g sp scope (g.model.element c).id) _ (rw hit at h₂) in
          subst (λ x. Adds sp scope x.0 x.1) (ok-injective eq)
            (Created-Adds sp scope made (create_execution_at-Created g sp scope _ made is_made))
      | inr miss ↦ follow_link-Adds g sp scope name cs r (rw miss at h₂)
    ]

pub throw_link-Adds :
    (g : Graph) (n : Node) (sp : ℕ) (scope : ElementInstanceEntity)
    (r : ElementInstanceEntity × List ElementInstanceEntity)
    → throw_link g n sp scope ≡ ok r
    → Adds sp scope r.0 r.1
unfolding throw_link
throw_link-Adds g n sp scope r h =
    let (scope_node, _, h₁) = >>=-eq-ok (find_node g scope.bpmn_element_id) _ h in
    let (definition, _, h₂) =
      >>=-eq-ok (as_intermediate_throw_event (g.model.element n.bpmn_element).model) _ h₁ in
    let (name, _, h₃) = >>=-eq-ok (link_name definition) _ h₂ in
    follow_link-Adds g sp scope name _ r h₃

pub await_events_pending :
    (k : ℕ) (e : ElementInstanceEntity)
    → await_events (suc k) e ≡ record e { execution_count = negsuc k }
await_events_pending k e = ground arith

pub await_events-type :
    (k : ℕ) (e : ElementInstanceEntity) → (await_events k e).bpmn_element_type ≡ e.bpmn_element_type
await_events-type k e = ground arith

-- The counts agree after an execution was continued.
pub record Accounted (sp ep : ℕ) (scope e : ElementInstanceEntity) (c : Continued) : Type 0 where
  pub only_count : OnlyCount scope c.scope
  pub balance :
      c.scope.execution_count +ℤ pos (ended c.execution.state)
      ≡ scope.execution_count +ℤ pos (children_of sp c.next)
  pub placed : children_of sp c.next + children_of ep c.next ≡ length c.next
  pub own :
      (c.execution.execution_count ≡ e.execution_count +ℤ pos (children_of ep c.next))
      ⊎ ((c.execution.state ≡ created)
          × (is_neg c.execution.execution_count ≡ true)
          × (children_of ep c.next ≡ 0))
