-- ===== src/Graph/Counts/MultiInstance.antt =====
-- The execution counts when `continueMultiInstanceExecution` is called (engine/internal/graph.go).
use go_bpmn.Shared.{
  ℕ, zero, suc, ◌+◌, ◌≡◌, ◌≢◌, refl, ap, sym, subst, true, false, ◌&&◌, List, [], map, pos, is_pos,
  is_zero, int_laws, pos_part, neg_part, ok, deref, >>=-eq-ok, ok-injective, arith, ◌==◌, length,
  length-append, +ℤ-zero, Bool-cases, inl, inr,
}
use go_bpmn.Enum.InstanceState.{InstanceState, same, completed, created, started, terminated}
use go_bpmn.Model.Lookup.{get_multi_instance}
use go_bpmn.Entity.{ElementInstanceEntity}
use go_bpmn.Graph.Node.{Node, Graph, next_multi_instance_state}
use go_bpmn.Graph.Build.{find_node}
use go_bpmn.Graph.Create.{add_count, start_multi_instance}
use go_bpmn.Graph.Branch.{take_multi_instance_outgoing, attach_boundary_events, count_pending}
use go_bpmn.Graph.Continue.{Continued, drop_execution}
use go_bpmn.Graph.MultiInstance.{
  start_activities_of, keep_state, create_multi_instance, complete_multi_instance,
  enter_multi_instance_state, continue_multi_instance_execution,
}
use go_bpmn.Graph.States.{is_progress, next_multi_instance_state-progress}
use go_bpmn.Graph.Counts.Parents.{
  children_of-append, children_of-InScope, children_of-other, take_multi_instance_outgoing-InScope,
  attach_boundary_events-InScope,
}
use go_bpmn.Graph.Counts.Adds.{ended, Adds, Accounted}
use go_bpmn.Graph.Counts.Pieces.{completed-Accounted, unchanged-Accounted}
use go_bpmn.Graph.Counts.Activities.{start_multi_instance-Activities}

pending_some : (k : ℕ) → (suc k == 0) ≡ false
pending_some k = ground arith

stays_running :
    (scope e : ElementInstanceEntity)
    → same e.state (next_multi_instance_state scope e) ≡ true
    → ended e.state ≡ 0
unfolding next_multi_instance_state
stays_running scope e h = ground arith

module _ (g : Graph) (n : Node) (sp ep : ℕ) (apart : sp ≢ ep) (apart' : ep ≢ sp) where
  -- Activities are created behind boundary events that were attached before.
  start_activities_of-Accounted :
      (scope scope' e : ElementInstanceEntity) (fresh : ℕ) (before : List ElementInstanceEntity)
      (c : Continued)
      → e.is_multi_instance ≡ true
      → ended e.state ≡ 0
      → Adds sp scope scope' before
      → start_activities_of g n scope' ep e fresh before ≡ ok c
      → Accounted sp ep scope e c
  unfolding start_activities_of
  start_activities_of-Accounted scope scope' e fresh before c multi running (only, counted, inside)
        h =
      let (characteristic, _, h₁) =
        >>=-eq-ok (get_multi_instance (g.model.element n.bpmn_element)) _ h in
      let (m, _, h₂) = >>=-eq-ok (deref characteristic) _ h₁ in
      elim (Bool-cases (is_pos m.loop_cardinality)) [
        | inr none_known ↦
            subst (Accounted sp ep scope e) (ok-injective (rw none_known at h₂)) (record {
              only_count = only;
              balance = omega (
                int_laws,
                ap pos_part counted,
                ap neg_part counted,
                children_of-InScope sp before inside,
                running,
              );
              placed = omega (
                arith,
                children_of-InScope sp before inside,
                children_of-other ep sp before apart' inside,
              );
              own = inl (
                  rw (children_of-other ep sp before apart' inside)
                    (sym (+ℤ-zero e.execution_count)));
            })
        | inl known ↦
            let (r, made, eq) =
              >>=-eq-ok (start_multi_instance g ep e m.loop_cardinality m.is_sequential fresh) _
                (rw known at h₂) in
            let a =
              start_multi_instance-Activities g ep e m.loop_cardinality m.is_sequential fresh r
                multi made in
            subst (Accounted sp ep scope e) (ok-injective eq) (record {
              only_count = only;
              balance = omega (
                int_laws,
                ap pos_part counted,
                ap neg_part counted,
                children_of-InScope sp before inside,
                children_of-append sp before r.1,
                children_of-other sp ep r.1 apart a.inside,
                ap (λ x. ended x.state) a.only_count,
              );
              placed = omega (
                arith,
                children_of-append sp before r.1,
                children_of-append ep before r.1,
                children_of-InScope sp before inside,
                children_of-other ep sp before apart' inside,
                children_of-InScope ep r.1 a.inside,
                children_of-other sp ep r.1 apart a.inside,
                length-append before r.1,
              );
              own = inl (
                  omega (
                    int_laws,
                    ap pos_part a.counted,
                    ap neg_part a.counted,
                    children_of-append ep before r.1,
                    children_of-other ep sp before apart' inside,
                    children_of-InScope ep r.1 a.inside,
                    a.size,
                  ));
            })
      ]

  keep_state-Accounted :
      (scope e : ElementInstanceEntity) (fresh : ℕ) (c : Continued)
      → e.is_multi_instance ≡ true
      → ended e.state ≡ 0
      → keep_state g n scope ep e fresh ≡ ok c
      → Accounted sp ep scope e c
  unfolding keep_state
  keep_state-Accounted scope e fresh c multi running h =
      elim (Bool-cases (same e.state created && is_zero e.execution_count)) [
        | inl idle ↦
            start_activities_of-Accounted scope scope e fresh [] c multi running
              (refl, omega int_laws, tt) (rw idle at h)
        | inr busy ↦ elim (Bool-cases (same e.state started && e.context.valid)) [
          | inl asks ↦
              subst (Accounted sp ep scope e) (ok-injective (rw (busy, asks) at h)) (record {
                only_count = refl;
                balance = omega (int_laws, running);
                placed = refl;
                own = inl (sym (+ℤ-zero e.execution_count));
              })
          | inr waits ↦
              subst (Accounted sp ep scope e) (ok-injective (rw (busy, waits) at h))
                (unchanged-Accounted g n sp ep apart apart' scope e running)
        ]
      ]

  create_multi_instance-Accounted :
      (scope e : ElementInstanceEntity) (fresh : ℕ) (c : Continued)
      → e.is_multi_instance ≡ true
      → e.state ≡ created
      → create_multi_instance g n sp scope ep e fresh ≡ ok c
      → Accounted sp ep scope e c
  unfolding create_multi_instance
  create_multi_instance-Accounted scope e fresh c multi live h =
      by_pending (count_pending g (map g.model.element n.boundary_events)) refl
    where
      attached : List ElementInstanceEntity
      attached = attach_boundary_events g sp scope ep e n.boundary_events

      adds : Adds sp scope (add_count (pos (length n.boundary_events)) scope) attached
      adds =
          let (inside, size) = attach_boundary_events-InScope g sp scope ep e n.boundary_events in
          (refl, rw size refl, inside)

      by_pending :
          (pending : ℕ)
          → pending ≡ count_pending g (map g.model.element n.boundary_events)
          → Accounted sp ep scope e c
      by_pending zero eq =
          start_activities_of-Accounted scope _ e (fresh + length n.boundary_events) attached c
            multi (ap ended live) adds (rw (← eq) at h)
      by_pending (suc k) eq =
          subst (Accounted sp ep scope e) (ok-injective (rw (← eq, pending_some k) at h)) (record {
            only_count = refl;
            balance = omega (
              int_laws,
              ap pos_part adds.1,
              ap neg_part adds.1,
              children_of-InScope sp attached adds.2,
              ap ended live,
            );
            placed = omega (
              arith,
              children_of-InScope sp attached adds.2,
              children_of-other ep sp attached apart' adds.2,
            );
            own = inr (live, refl, children_of-other ep sp attached apart' adds.2);
          })

  complete_multi_instance-Accounted :
      (scope e : ElementInstanceEntity) (c : Continued)
      → ended e.state ≡ 1
      → complete_multi_instance g n sp scope e ≡ ok c
      → Accounted sp ep scope e c
  unfolding complete_multi_instance
  complete_multi_instance-Accounted scope e c done h =
      let b = g.model.element n.bpmn_element in
      let (next, taken, eq) =
        >>=-eq-ok (take_multi_instance_outgoing g sp (drop_execution scope) b) _ h in
      subst (Accounted sp ep scope e) (ok-injective eq) (
        completed-Accounted g n sp ep apart apart' scope _ e next done (
          refl,
          refl,
          take_multi_instance_outgoing-InScope g sp (drop_execution scope) b next taken,
        ))

  restate :
      (scope e : ElementInstanceEntity) (next : InstanceState) (c : Continued)
      → Accounted sp ep scope (record e { state = next }) c
      → Accounted sp ep scope e c
  restate scope e next c a = record {
    only_count = a.only_count;
    balance = a.balance;
    placed = a.placed;
    own = a.own;
  }

  enter_multi_instance_state-Accounted :
      (scope e : ElementInstanceEntity) (fresh : ℕ) (c : Continued)
      → e.is_multi_instance ≡ true
      → enter_multi_instance_state g n sp scope ep e fresh (next_multi_instance_state scope e)
        ≡ ok c
      → Accounted sp ep scope e c
  unfolding enter_multi_instance_state
  enter_multi_instance_state-Accounted scope e fresh c multi h =
      elim (Bool-cases (same e.state next)) [
        | inl stays ↦
            keep_state-Accounted scope e fresh c multi (stays_running scope e stays) (rw stays at h)
        | inr moves ↦ elim (Bool-cases (same next created)) [
          | inl fresh_one ↦ restate scope e next c (
              create_multi_instance-Accounted scope (record e { state = next }) fresh c multi
                (is_created next fresh_one) (rw (moves, fresh_one) at h))
          | inr later ↦ elim (Bool-cases (same next completed)) [
            | inl ends ↦ restate scope e next c (
                complete_multi_instance-Accounted scope (record e { state = next }) c
                  (is_over next ends) (rw (moves, later, ends) at h))
            | inr goes ↦ restate scope e next c (
                subst (Accounted sp ep scope (record e { state = next }))
                  (ok-injective (rw (moves, later, goes) at h))
                  (unchanged-Accounted g n sp ep apart apart' scope (record e { state = next })
                    (not_over next (next_multi_instance_state-progress scope e) goes)))
          ]
        ]
      ]
    where
      next : InstanceState
      next = next_multi_instance_state scope e

      is_created : (s : InstanceState) → same s created ≡ true → s ≡ created
      is_created s h = ground arith

      is_over : (s : InstanceState) → same s completed ≡ true → ended s ≡ 1
      is_over s h = ground arith

      not_over : (s : InstanceState) → is_progress s ≡ true → same s completed ≡ false → ended s ≡ 0
      not_over s progress h = ground arith

-- Continuing a multi-instance execution leaves the books balanced: the count of the scope grows by the
-- new executions in it and falls by one if the execution has ended, nothing else of the scope changes,
-- each new execution is placed in the scope or below the multi-instance, and the multi-instance counts
-- its activities, or waits, in state CREATED with a negative count, for pending events.
pub continue_multi_instance_execution-Accounted :
    (g : Graph) (sp ep fresh : ℕ) (scope e : ElementInstanceEntity) (c : Continued)
    → sp ≢ ep
    → e.is_multi_instance ≡ true
    → continue_multi_instance_execution g sp scope ep e fresh ≡ ok c
    → Accounted sp ep scope e c
unfolding continue_multi_instance_execution
continue_multi_instance_execution-Accounted g sp ep fresh scope e c apart multi h =
    let (n, _, rest) = >>=-eq-ok (find_node g e.bpmn_element_id) _ h in
    elim (Bool-cases (same e.state terminated)) [
      | inl over ↦ subst (Accounted sp ep scope e) (ok-injective (rw over at rest)) (record {
        only_count = refl;
        balance = omega (int_laws, is_ended e.state over);
        placed = refl;
        own = inl (sym (+ℤ-zero e.execution_count));
      })
      | inr running ↦
          enter_multi_instance_state-Accounted g n sp ep apart (λ x. apart (sym x)) scope e fresh c
            multi (rw running at rest)
    ]
  where
    is_ended : (s : InstanceState) → same s terminated ≡ true → ended s ≡ 1
    is_ended s over = ground arith
