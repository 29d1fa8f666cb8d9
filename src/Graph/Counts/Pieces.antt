-- ===== src/Graph/Counts/Pieces.antt =====
-- The execution counts in the parts of `continueExecution` (engine/internal/graph.go).
use go_bpmn.Shared.{
  ℕ, zero, suc, ◌≡◌, ◌≢◌, refl, ap, sym, subst, true, ◌⊎◌, List, [], ◌∷◌, ◌++◌, map, pos, ◌+ℤ◌,
  is_neg, int_laws, pos_part, neg_part, ok, >>=-eq-ok, ok-injective, arith, length, length-append,
  length-map, +ℤ-zero, Bool-cases, inl, inr,
}
use go_bpmn.Enum.InstanceState.{InstanceState, same, created, started}
use go_bpmn.Enum.ElementType.{link_throw_event, sub_process}
use go_bpmn.Enum.ElementType.{same as same_type}
use go_bpmn.Entity.{ElementInstanceEntity}
use go_bpmn.Graph.Node.{Node, Graph}
use go_bpmn.Graph.Create.{add_count, create_execution}
use go_bpmn.Graph.Branch.{take_outgoing, count_pending, targets, event_branch}
use go_bpmn.Graph.Continue.{
  Continued, drop_execution, throw_link, complete_execution, await_events, attach_events,
  await_gateway, start_scope,
}
use go_bpmn.Graph.Counts.Parents.{
  children_of, InScope, children_of-append, children_of-InScope, children_of-other,
  take_outgoing-InScope, events-InScope, attach_boundary_events-InScope, Created,
  create_execution-Created,
}
use go_bpmn.Graph.Counts.Adds.{
  ended, Adds, Accounted, throw_link-Adds, await_events_pending, await_events-type,
}

module _ (g : Graph) (n : Node) (sp ep : ℕ) (apart : sp ≢ ep) (apart' : ep ≢ sp) where
  pub completed-Accounted :
      (scope scope' e : ElementInstanceEntity) (next : List ElementInstanceEntity)
      → ended e.state ≡ 1
      → Adds sp (drop_execution scope) scope' next
      → Accounted sp ep scope e (record { scope = scope'; execution = e; next = next })
  completed-Accounted scope scope' e next done (only, counted, inside) = record {
    only_count = cc (only);
    balance = omega (
      int_laws,
      ap pos_part counted,
      ap neg_part counted,
      children_of-InScope sp next inside,
      done,
    );
    placed =
        omega
          (arith, children_of-InScope sp next inside, children_of-other ep sp next apart' inside);
    own = inl (rw (children_of-other ep sp next apart' inside) (omega int_laws));
  }

  pub complete_execution-Accounted :
      (scope e : ElementInstanceEntity) (c : Continued)
      → ended e.state ≡ 1
      → complete_execution g n sp scope ep e ≡ ok c
      → Accounted sp ep scope e c
  unfolding complete_execution
  complete_execution-Accounted scope e c done h =
      elim (Bool-cases (same_type e.bpmn_element_type link_throw_event)) [
        | inl link ↦
            let (r, thrown, eq) =
              >>=-eq-ok (throw_link g n sp (drop_execution scope)) _ (rw link at h) in
            subst (Accounted sp ep scope e) (ok-injective eq) (
              completed-Accounted scope r.0 e r.1 done
                (throw_link-Adds g n sp (drop_execution scope) r thrown))
        | inr other ↦ elim (Bool-cases n.is_multi_instance) [
          | inl multi ↦ subst (Accounted sp ep scope e) (ok-injective (rw (other, multi) at h)) (
              completed-Accounted scope (drop_execution scope) e [] done (refl, omega int_laws, tt))
          | inr single ↦
              let (next, taken, eq) =
                >>=-eq-ok
                  (take_outgoing g sp (drop_execution scope) ep e (g.model.element n.bpmn_element))
                  _ (rw (other, single) at h) in
              subst (Accounted sp ep scope e) (ok-injective eq) (
                completed-Accounted scope _ e next done (
                  refl,
                  refl,
                  take_outgoing-InScope g sp (drop_execution scope) ep e
                      (g.model.element n.bpmn_element) next taken,
                ))
        ]
      ]

  -- Waiting events, of which some may be pending.
  pub await_events-Accounted :
      (scope e : ElementInstanceEntity) (pending : ℕ) (next : List ElementInstanceEntity)
      → ended e.state ≡ 0
      → e.state ≡ created
      → InScope sp next
      → Accounted sp ep scope e (record {
        scope = add_count (pos (length next)) scope;
        execution = await_events pending e;
        next = next;
      })
  await_events-Accounted scope e zero next live fresh inside = record {
    only_count = refl;
    balance = omega (int_laws, children_of-InScope sp next inside);
    placed =
        omega
          (arith, children_of-InScope sp next inside, children_of-other ep sp next apart' inside);
    own = inl (rw (children_of-other ep sp next apart' inside) (sym (+ℤ-zero e.execution_count)));
  }
  await_events-Accounted scope e (suc k) next live fresh inside =
      rw (await_events_pending k e) (record {
        only_count = refl;
        balance = omega (int_laws, children_of-InScope sp next inside, live);
        placed =
            omega (
              arith,
              children_of-InScope sp next inside,
              children_of-other ep sp next apart' inside,
            );
        own = inr (fresh, refl, children_of-other ep sp next apart' inside);
      })

  pub started_live : (s : InstanceState) → same s started ≡ true → s ≡ started
  started_live s h = ground arith

  -- The execution that a sub-process begins with.
  pub started_sub-Accounted :
      (scope e : ElementInstanceEntity) (c : Continued)
      (r : ElementInstanceEntity × ElementInstanceEntity)
      → ended scope.state ≡ 0
      → children_of ep c.next ≡ 0
      → Accounted sp ep scope e c
      → c.execution.state ≡ started
      → Created ep (record c.execution { state = c.scope.state }) r
      → Accounted sp ep scope e (record c { execution = r.0; next = c.next ++ r.1 ∷ [] })
  started_sub-Accounted scope e c r live outside a starts made = record {
    only_count = a.only_count;
    balance = omega (
      int_laws,
      in_sp,
      ap (λ x. ended x.state) made.0,
      ap (λ x. ended x.state) a.only_count,
      live,
      ap ended starts,
      ap pos_part a.balance,
      ap neg_part a.balance,
    );
    placed = omega (arith, in_sp, in_ep, outside, a.placed, length-append c.next (r.1 ∷ []));
    own = inl (own_count a.own);
  }
    where
      in_sp : children_of sp (c.next ++ r.1 ∷ []) ≡ children_of sp c.next
      in_sp = omega (
        arith,
        children_of-append sp c.next (r.1 ∷ []),
        children_of-other sp ep (r.1 ∷ []) apart (made.1, tt),
      )

      in_ep : children_of ep (c.next ++ r.1 ∷ []) ≡ 1
      in_ep = omega (
        arith,
        outside,
        children_of-append ep c.next (r.1 ∷ []),
        children_of-InScope ep (r.1 ∷ []) (made.1, tt),
      )

      own_count :
          ((c.execution.execution_count ≡ e.execution_count +ℤ pos (children_of ep c.next))
            ⊎ ((c.execution.state ≡ created)
                × (is_neg c.execution.execution_count ≡ true)
                × (children_of ep c.next ≡ 0)))
          → r.0.execution_count ≡ e.execution_count +ℤ pos (children_of ep (c.next ++ r.1 ∷ []))
      own_count (inr waits) = cc (waits.0, starts)
      own_count (inl eq) = rw in_ep (
          omega (
            int_laws,
            outside,
            ap (λ x. pos_part x.execution_count) made.0,
            ap (λ x. neg_part x.execution_count) made.0,
            ap pos_part eq,
            ap neg_part eq,
          ))

  -- The first execution of a sub-process is the only one that is not in the scope.
  pub start_scope-Accounted :
      (scope e : ElementInstanceEntity) (c d : Continued)
      → ended scope.state ≡ 0
      → (n.is_multi_instance ≡ true
          → same_type c.execution.bpmn_element_type sub_process ≡ true
          → c.next ≡ [])
      → children_of ep c.next ≡ 0
      → Accounted sp ep scope e c
      → start_scope g n ep c ≡ ok d
      → Accounted sp ep scope e d
  unfolding start_scope
  start_scope-Accounted scope e c d live multi outside a h =
      elim (Bool-cases (same c.execution.state started)) [
        | inr waits ↦ subst (Accounted sp ep scope e) (ok-injective (rw waits at h)) a
        | inl starts ↦ elim (Bool-cases (same_type c.execution.bpmn_element_type sub_process)) [
          | inr other ↦ subst (Accounted sp ep scope e) (ok-injective (rw (starts, other) at h)) a
          | inl sub ↦ elim (Bool-cases n.is_multi_instance) [
            | inl many ↦
                subst (Accounted sp ep scope e)
                  (ok-injective (rw (starts, sub, many, ← multi many sub) at h)) a
            | inr single ↦
                let (r, made, eq) =
                  >>=-eq-ok (create_execution g ep (record c.execution { state = c.scope.state })) _
                    (rw (starts, sub, single) at h) in
                subst (Accounted sp ep scope e) (ok-injective eq) (
                  started_sub-Accounted scope e c r live outside a
                    (started_live c.execution.state starts)
                    (create_execution-Created g ep _ r made))
          ]
        ]
      ]

  pub unchanged-Accounted :
      (scope e : ElementInstanceEntity)
      → ended e.state ≡ 0
      → Accounted sp ep scope e (record { scope = scope; execution = e; next = [] })
  unchanged-Accounted scope e live = record {
    only_count = refl;
    balance = omega (int_laws, live);
    placed = refl;
    own = inl (sym (+ℤ-zero e.execution_count));
  }

  pub attach_events-Accounted :
      (scope e : ElementInstanceEntity)
      → ended e.state ≡ 0
      → e.state ≡ created
      → Accounted sp ep scope e (attach_events g n sp scope ep e)
        × (children_of ep (attach_events g n sp scope ep e).next ≡ 0)
  unfolding attach_events
  attach_events-Accounted scope e live fresh =
      let (inside, size) = attach_boundary_events-InScope g sp scope ep e n.boundary_events in
      (
        rw (← size) (
            await_events-Accounted scope e (count_pending g (map g.model.element n.boundary_events))
              _ live fresh inside),
        children_of-other ep sp _ apart' inside,
      )

  pub await_gateway-Accounted :
      (scope e : ElementInstanceEntity) (c : Continued)
      → ended e.state ≡ 0
      → e.state ≡ created
      → await_gateway g n sp scope ep e ≡ ok c
      → Accounted sp ep scope e c
        × (children_of ep c.next ≡ 0)
        × (c.execution.bpmn_element_type ≡ e.bpmn_element_type)
  unfolding await_gateway
  await_gateway-Accounted scope e c live fresh h =
      let (ts, _, eq) = >>=-eq-ok (targets g (g.model.element n.bpmn_element)) _ h in
      let inside = events-InScope g sp scope ep e ts in
      subst
        (λ x.
          Accounted sp ep scope e x
          × (children_of ep x.next ≡ 0)
          × (x.execution.bpmn_element_type ≡ e.bpmn_element_type))
        (ok-injective eq)
        (
          rw (← length-map (event_branch g sp scope ep e) ts)
              (await_events-Accounted scope e (count_pending g ts) _ live fresh inside),
          children_of-other ep sp _ apart' inside,
          await_events-type (count_pending g ts) e,
        )
