-- ===== src/Graph/Counts/Continue.antt =====
-- The execution counts when `continueExecution` is called (engine/internal/graph.go).
use go_bpmn.Shared.{
  ℕ, ◌≡◌, ◌≢◌, refl, ap, sym, subst, true, false, ◌||◌, int_laws, ok, >>=-eq-ok, ok-injective,
  arith, ==_iff, +ℤ-zero, Bool-cases, inl, inr,
}
use go_bpmn.Enum.InstanceState.{InstanceState, same, completed, created, terminated}
use go_bpmn.Enum.ElementType.{event_based_gateway, sub_process}
use go_bpmn.Enum.ElementType.{same as same_type, code as type_code}
use go_bpmn.Model.Kinds.{is_task_or_scope}
use go_bpmn.Entity.{ElementInstanceEntity}
use go_bpmn.Graph.Node.{Node, Graph}
use go_bpmn.Graph.Build.{find_node}
use go_bpmn.Graph.Continue.{
  Continued, await_gateway, start_execution, enter_state, continue_execution,
}
use go_bpmn.Graph.States.{is_progress, next_state-progress}
use go_bpmn.Graph.Counts.Adds.{ended, Accounted}
use go_bpmn.Graph.Counts.Pieces.{
  complete_execution-Accounted, start_scope-Accounted, unchanged-Accounted, attach_events-Accounted,
  await_gateway-Accounted,
}

module _ (g : Graph) (n : Node) (sp ep : ℕ) (apart : sp ≢ ep) (apart' : ep ≢ sp) where
  created_live : (s : InstanceState) → same s created ≡ true → s ≡ created
  created_live s h = ground arith

  start_execution-Accounted :
      (scope e : ElementInstanceEntity) (c : Continued)
      → ended scope.state ≡ 0
      → ended e.state ≡ 0
      → start_execution g n sp scope ep e ≡ ok c
      → Accounted sp ep scope e c
  unfolding start_execution
  start_execution-Accounted scope e c live running h = elim (Bool-cases (same e.state created)) [
    | inr later ↦
        start_scope-Accounted g n sp ep apart apart' scope e _ c live (λ _ _. refl) refl
          (unchanged-Accounted g n sp ep apart apart' scope e running) (rw later at h)
    | inl fresh ↦ elim (Bool-cases (is_task_or_scope e.bpmn_element_type)) [
      | inl task ↦ elim (Bool-cases n.is_multi_instance) [
        | inl many ↦
            subst (Accounted sp ep scope e) (ok-injective (rw (fresh, task, many) at h))
              (unchanged-Accounted g n sp ep apart apart' scope e running)
        | inr single ↦
            let (a, outside) =
              attach_events-Accounted g n sp ep apart apart' scope e running
                (created_live e.state fresh) in
            start_scope-Accounted g n sp ep apart apart' scope e _ c live
              (λ many _. cc (many, single)) outside a (simp (fresh, task, single) at h)
      ]
      | inr other ↦ elim (Bool-cases (same_type e.bpmn_element_type event_based_gateway)) [
        | inl gateway ↦
            let (d, awaits, eq) =
              >>=-eq-ok (await_gateway g n sp scope ep e) _ (rw (fresh, other, gateway) at h) in
            let (a, outside, kind) =
              await_gateway-Accounted g n sp ep apart apart' scope e d running
                (created_live e.state fresh) awaits in
            start_scope-Accounted g n sp ep apart apart' scope e d c live
              (λ _ sub. absurd (not_both d kind gateway sub)) outside a eq
        | inr pass ↦
            start_scope-Accounted g n sp ep apart apart' scope e _ c live (λ _ _. refl) refl
              (unchanged-Accounted g n sp ep apart apart' scope e running)
              (rw (fresh, other, pass) at h)
      ]
    ]
  ]
    where
      not_both :
          (d : Continued)
          → d.execution.bpmn_element_type ≡ e.bpmn_element_type
          → same_type e.bpmn_element_type event_based_gateway ≡ true
          → same_type d.execution.bpmn_element_type sub_process ≡ true
          → ⊥
      not_both d kind gateway sub =
          omega (arith, (==_iff _ _).0 gateway, (==_iff _ _).0 sub, ap type_code kind)

  enter_state-Accounted :
      (scope e : ElementInstanceEntity) (next : InstanceState) (c : Continued)
      → ended scope.state ≡ 0
      → ended e.state ≡ 0
      → is_progress next ≡ true
      → enter_state g n sp scope ep e next ≡ ok c
      → Accounted sp ep scope e c
  unfolding enter_state
  enter_state-Accounted scope e next c live running progress h =
      elim (Bool-cases (same e.state next)) [
        | inl stays ↦
            subst (Accounted sp ep scope e) (ok-injective (rw stays at h))
              (unchanged-Accounted g n sp ep apart apart' scope e running)
        | inr moves ↦ elim (Bool-cases (same next completed)) [
          | inl ends ↦ restate (
              complete_execution-Accounted g n sp ep apart apart' scope (record e { state = next })
                c (ground arith) (rw (moves, ends) at h))
          | inr goes ↦ restate (
              start_execution-Accounted scope (record e { state = next }) c live (ground arith)
                (rw (moves, goes) at h))
        ]
      ]
    where
      restate : Accounted sp ep scope (record e { state = next }) c → Accounted sp ep scope e c
      restate a = record {
        only_count = a.only_count;
        balance = a.balance;
        placed = a.placed;
        own = a.own;
      }

-- Continuing an execution in a scope that has not ended leaves the books balanced: the count of the
-- scope grows by the new executions in it and falls by one if the execution has ended, nothing else of
-- the scope changes, each new execution is placed in the scope or below the execution, and the execution
-- counts those below it, or waits, in state CREATED with a negative count, for pending events.
pub continue_execution-Accounted :
    (g : Graph) (sp ep : ℕ) (scope e : ElementInstanceEntity) (c : Continued)
    → sp ≢ ep
    → ended scope.state ≡ 0
    → continue_execution g sp scope ep e ≡ ok c
    → Accounted sp ep scope e c
unfolding continue_execution
continue_execution-Accounted g sp ep scope e c apart live h =
    let (n, _, rest) = >>=-eq-ok (find_node g e.bpmn_element_id) _ h in
    elim (Bool-cases (same e.state completed || same e.state terminated)) [
      | inl over ↦ subst (Accounted sp ep scope e) (ok-injective (rw over at rest)) (record {
        only_count = refl;
        balance = omega (int_laws, over_ended e.state over);
        placed = refl;
        own = inl (sym (+ℤ-zero e.execution_count));
      })
      | inr running ↦
          enter_state-Accounted g n sp ep apart (λ x. apart (sym x)) scope e _ c live
            (not_ended e.state running) (next_state-progress g.model n scope e) (rw running at rest)
    ]
  where
    over_ended : (s : InstanceState) → (same s completed || same s terminated) ≡ true → ended s ≡ 1
    over_ended s over = ground arith

    not_ended : (s : InstanceState) → (same s completed || same s terminated) ≡ false → ended s ≡ 0
    not_ended s running = ground arith
