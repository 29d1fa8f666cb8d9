-- ===== src/Graph/Join/Gateway.antt =====
-- The join of a parallel gateway as `JoinParallelGatewayTask` sees it (engine/internal/graph.go).
use go_bpmn.Shared.{
  ℕ, ◌≤◌, ◌<◌, ◌≡◌, ◌≢◌, refl, sym, ◌∙◌, true, false, inl, inr, List, [], ◌∷◌, ok, >>=-eq-ok,
  ok-injective, arith, ◌==◌, not, ◌||◌, ltb, count, length, length-traverse, Bool-cases,
}
use go_bpmn.Enum.ElementType.{same, parallel_gateway}
use go_bpmn.Model.Element.{Element}
use go_bpmn.Entity.{ElementInstanceEntity}
use go_bpmn.Graph.Node.{Node, Graph}
use go_bpmn.Graph.Build.{find_node}
use go_bpmn.Graph.Join.Counter.{get, count_all, decrement, get-count_all}
use go_bpmn.Graph.Join.Loop.{
  sent_by, join_loop, source_id, source_ids, all_at, join_at, join_parallel_gateway,
}
use go_bpmn.Graph.Join.Invariant.{senders, join_loop-counted}
use go_bpmn.Graph.Join.Laws.{
  Taken, done, join_from, join_from-Taken, join_loop-Taken, join_loop-ne-nil, count_all-Balanced,
}

abbrev pub element_of : Graph → Node → Element
element_of g n = g.model.element n.bpmn_element

join_at-ok :
    (g : Graph) (n : Node) (waiting joined : List ElementInstanceEntity)
    → join_at g n waiting ≡ ok joined
    → (sources : List ℕ) × (source_ids g (element_of g n) ≡ ok sources)
      × (joined ≡ join_from sources waiting)
unfolding join_at source_ids
join_at-ok g n waiting joined h =
    elim (Bool-cases (
      not (same (element_of g n).type parallel_gateway)
      || ltb (length (element_of g n).incoming) 2)) [
        | inl wrong ↦ absurd (cc (rw wrong at h))
        | inr right ↦ elim (Bool-cases (not (all_at n.id waiting))) [
          | inl wrong ↦ absurd (cc (rw (right, wrong) at h))
          | inr at_gateway ↦
              let (sources, found, result) =
                >>=-eq-ok (source_ids g (element_of g n)) _ (rw (right, at_gateway) at h) in
              (
                sources,
                found,
                rw (length-traverse (source_id g) (element_of g n).incoming sources found)
                    (sym (ok-injective result)),
              )
        ]
      ]

join_at-sources :
    (g : Graph) (n : Node) (waiting : List ElementInstanceEntity) (sources : List ℕ)
    → same (element_of g n).type parallel_gateway ≡ true
    → ltb (length (element_of g n).incoming) 2 ≡ false
    → all_at n.id waiting ≡ true
    → source_ids g (element_of g n) ≡ ok sources
    → join_at g n waiting ≡ ok (join_from sources waiting)
unfolding join_at
join_at-sources g n waiting sources gateway joining here ids = rw (
  gateway,
  joining,
  here,
  ids,
  ← length-traverse (source_id g) (element_of g n).incoming sources (unfold source_ids in ids),
)

-- Where the source of an execution has to be joined, the loop begins with that execution.
join_from-current :
    (sources : List ℕ) (e : ElementInstanceEntity) (es : List ElementInstanceEntity)
    → 0 < count (sent_by e) sources
    → join_from sources (e ∷ es) ≢ []
    → (rest : List ElementInstanceEntity) × (join_from sources (e ∷ es) ≡ e ∷ rest)
      × Taken false es rest
unfolding join_loop get
join_from-current sources e es sends joined =
    elim (Bool-cases (get (sent_by e) (count_all sources []) == 0)) [
      | inl none_left ↦ absurd (ground (arith, get-count_all (sent_by e) sources []))
      | inr left ↦ elim (Bool-cases (1 == length sources)) [
        | inl full ↦ rw (left, full) ([], refl, done)
        | inr more ↦
            rw (left, more)
              (elim (join_loop-Taken (length sources) false
                (decrement (sent_by e) (count_all sources [])) (e ∷ []) es) [
                  | inl nothing ↦ absurd (joined (rw (left, more) nothing))
                  | inr (rest, eq, t) ↦ (rest, eq, t)
                ])
      ]
    ]

-- A join that takes anything takes, in the order in which they wait, one execution for each incoming
-- sequence flow, sent by the element that the flow comes from; all of them but the one at the front of the
-- waiting executions are completed, and nothing else of them changes.
pub join_parallel_gateway_sound :
    (g : Graph) (e : ElementInstanceEntity) (es joined : List ElementInstanceEntity)
    → join_parallel_gateway g (e ∷ es) ≡ ok joined
    → joined ≢ []
    → (n : Node) × (sources : List ℕ) × (find_node g e.bpmn_element_id ≡ ok n)
      × (source_ids g (element_of g n) ≡ ok sources)
      × Taken true (e ∷ es) joined
      × ((a : ℕ) → count a (senders joined) ≡ count a sources)
unfolding join_parallel_gateway
join_parallel_gateway_sound g e es joined h taken = elim (Bool-cases (ltb (length (e ∷ es)) 2)) [
  | inl few ↦ absurd (taken (sym (ok-injective (rw few at h))))
  | inr enough ↦
      let (n, found, rest) = >>=-eq-ok (find_node g e.bpmn_element_id) _ (rw enough at h) in
      let (sources, ids, result) = join_at-ok g n (e ∷ es) joined rest in
      (
        n,
        sources,
        found,
        ids,
        rw result (join_from-Taken sources (e ∷ es)),
        rw result (
            join_loop-counted sources (length sources) true (count_all sources []) [] (e ∷ es)
              (count_all-Balanced sources) (rw result at taken)),
      )
]

-- Whenever executions wait at a joining parallel gateway for each of its incoming sequence flows, some of
-- them are joined.
pub join_parallel_gateway_complete :
    (g : Graph) (n : Node) (e : ElementInstanceEntity) (es : List ElementInstanceEntity)
    (sources : List ℕ)
    → find_node g e.bpmn_element_id ≡ ok n
    → same (element_of g n).type parallel_gateway ≡ true
    → ltb (length (element_of g n).incoming) 2 ≡ false
    → ltb (length (e ∷ es)) 2 ≡ false
    → all_at n.id (e ∷ es) ≡ true
    → source_ids g (element_of g n) ≡ ok sources
    → ((a : ℕ) → count a sources ≤ count a (senders (e ∷ es)))
    → (joined : List ElementInstanceEntity) × (join_parallel_gateway g (e ∷ es) ≡ ok joined)
      × (joined ≢ [])
unfolding join_parallel_gateway
join_parallel_gateway_complete g n e es sources found gateway joining two here ids covered = (
  join_from sources (e ∷ es),
  rw (two, found) (join_at-sources g n (e ∷ es) sources gateway joining here ids),
  join_loop-ne-nil sources (length sources) true (count_all sources []) [] (e ∷ es)
      (count_all-Balanced sources)
      (ground (arith, length-traverse (source_id g) (element_of g n).incoming sources ids))
      (λ a. omega (arith, no_count a, get-count_all a sources [], covered a)),
)
  where
    no_count : (a : ℕ) → get a [] ≡ 0
    no_count a = unfold get in refl

-- The execution at the front of those that wait, which is the one that the task is for, is part of
-- every join, and keeps its state, if the gateway has an incoming sequence flow from where it comes.
pub join_parallel_gateway-current :
    (g : Graph) (n : Node) (e : ElementInstanceEntity) (es joined : List ElementInstanceEntity)
    (sources : List ℕ)
    → find_node g e.bpmn_element_id ≡ ok n
    → source_ids g (element_of g n) ≡ ok sources
    → 0 < count (sent_by e) sources
    → join_parallel_gateway g (e ∷ es) ≡ ok joined
    → joined ≢ []
    → (rest : List ElementInstanceEntity) × (joined ≡ e ∷ rest) × Taken false es rest
unfolding join_parallel_gateway
join_parallel_gateway-current g n e es joined sources found ids sends h taken =
    elim (Bool-cases (ltb (length (e ∷ es)) 2)) [
      | inl few ↦ absurd (taken (sym (ok-injective (rw few at h))))
      | inr enough ↦
          let (sources', ids', result) = join_at-ok g n (e ∷ es) joined (rw (enough, found) at h) in
          let same_sources : sources' ≡ sources = ok-injective (sym ids' ∙ ids) in
          rw (result, same_sources)
            (join_from-current sources e es sends (rw (← same_sources, ← result) taken))
    ]
