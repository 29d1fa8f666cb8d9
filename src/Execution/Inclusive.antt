-- ===== src/Execution/Inclusive.antt =====
-- `executionContext.evaluateInclusiveGateway` of engine/internal/element_instance.go.
use go_bpmn.Shared.{
  ℕ, Bool, true, false, not, ◌&&◌, String, Option, none, some, List, [], ◌∷◌, ◌++◌, Result, ok,
  ◌>>=◌, if◌then◌else◌, str_append, str_eq, has_text,
}
use go_bpmn.Enum.ElementType.{same, inclusive_gateway}
use go_bpmn.Model.Element.{Element, as_inclusive_gateway}
use go_bpmn.Entity.{ElementInstanceEntity, no_text, valid_text}
use go_bpmn.Graph.Node.{Node, Graph}
use go_bpmn.Graph.Build.{find_node, ensure_sequence_flow}
use go_bpmn.Graph.Create.{create_execution_at}
use go_bpmn.Execution.Exclusive.{Evaluated, on_error, job_fails, done, default_target}

-- The first text that the list has a second time.
unfoldable pub first_repeated : List String → Option String
unfolding has_text
first_repeated [] = none
first_repeated (x ∷ xs) = let rest = first_repeated xs in if has_text xs x then some x else rest

-- The decision of a job's completion, which may be missing.
abbrev pub decided : Option (List String) → List String
decided none = []
decided (some ids) = ids

abbrev pub is_empty : List String → Bool
is_empty [] = true
is_empty (x ∷ xs) = false

abbrev pub is_undecided : Option (List String) → Bool
is_undecided d = is_empty (decided d)

module _ (g : Graph) (sp : ℕ) (scope e : ElementInstanceEntity) where
  -- The job's element has a sequence flow to each of them.
  unfoldable pub ensure_all : String → List String → Result (Unit {0})
  unfolding ensure_sequence_flow
  ensure_all job_element [] = ok tt
  ensure_all job_element (id ∷ ids) = do
    u ← ensure_sequence_flow g job_element id
    ensure_all job_element ids

  -- The default sequence flow is taken too, once.
  unfoldable pub add_default : Element → String → List String → Result (List String)
  unfolding default_target has_text
  add_default b default ids = if str_eq default "" then ok ids else do
    t ← default_target g sp scope e b default
    ok (if has_text ids t then ids else ids ++ t ∷ [])

  -- An execution is created at each target, up to the first that fails.
  unfoldable pub create_all : List String → Evaluated → Result Evaluated
  unfolding create_execution_at
  create_all [] r = ok r
  create_all (id ∷ ids) r =
      on_error (create_execution_at g sp r.scope id)
        (λ s. record r {
          job_error =
              valid_text
                (str_append "failed to create execution at " (str_append id (str_append ": " s)));
        })
        (λ c. create_all ids (record r { scope = c.0; next = r.next ++ c.1 ∷ [] }))

  unfoldable pub fork : Element → String → List String → Result Evaluated
  unfolding add_default create_all
  fork b default ids = do
    targets ← add_default b default ids
    create_all targets
        (record { job_error = no_text; scope = scope; execution = done g sp scope e; next = [] })

  -- The decision is checked; the job names the element again.
  unfoldable pub decide_all : String → Element → String → List String → Result Evaluated
  unfolding first_repeated ensure_all fork
  decide_all job_element b default ids = elim (first_repeated ids) [
    | some id ↦
        ok (job_fails g sp scope e (str_append "decision contains duplicate BPMN element ID " id))
    | none ↦
        on_error (ensure_all job_element ids) (job_fails g sp scope e) (λ u. fork b default ids)
  ]

  unfoldable pub evaluate_node : String → Node → Option (List String) → Result Evaluated
  unfolding decide_all
  evaluate_node job_element n decision = do
    default ← as_inclusive_gateway (g.model.element n.bpmn_element).model
    if is_undecided decision && str_eq default ""
        then ok (job_fails g sp scope e "expected an inclusive gateway decision")
        else decide_all job_element (g.model.element n.bpmn_element) default (decided decision)

  unfoldable pub evaluate_inclusive_gateway : String → Option (List String) → Result Evaluated
  unfolding evaluate_node find_node
  evaluate_inclusive_gateway job_element decision =
      if not (same e.bpmn_element_type inclusive_gateway)
      then ok (
          job_fails g sp scope e (
            str_append "expected BPMN element "
              (str_append e.bpmn_element_id " to be an inclusive gateway")))
      else on_error (find_node g e.bpmn_element_id) (job_fails g sp scope e)
          (λ n. evaluate_node job_element n decision)
