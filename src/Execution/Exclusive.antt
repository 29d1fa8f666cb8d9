-- ===== src/Execution/Exclusive.antt =====
-- `executionContext.evaluateExclusiveGateway` of engine/internal/element_instance.go.
use go_bpmn.Shared.{
  ℕ, Bool, true, not, ◌&&◌, String, Option, none, some, List, [], ◌∷◌, error, nil_dereference,
  type_assertion, Result, ok, err, deref, ◌>>=◌, if◌then◌else◌, str_append, str_eq,
}
use go_bpmn.Enum.ElementType.{same, exclusive_gateway}
use go_bpmn.Enum.InstanceState.{completed}
use go_bpmn.Model.Element.{Element, as_exclusive_gateway}
use go_bpmn.Model.Lookup.{outgoing_by_id}
use go_bpmn.Entity.{ElementInstanceEntity, Text, no_text, valid_text}
use go_bpmn.Graph.Node.{Node, Graph}
use go_bpmn.Graph.Build.{find_node, ensure_sequence_flow}
use go_bpmn.Graph.Create.{create_execution_at}

-- What the gateway leaves: the job's error, if it is valid, the scope, the execution, and the new executions.
pub record Evaluated : Type 0 where
  pub job_error : Text
  pub scope : ElementInstanceEntity
  pub execution : ElementInstanceEntity
  pub next : List ElementInstanceEntity

-- An error becomes a value by its text; a panic goes on.
abbrev pub on_error {ℓ κ} :
    {A : Type ℓ} {B : Type κ} → Result A → (String → B) → (A → Result B) → Result B
on_error (ok a) failed f = f a
on_error (err (error s)) failed f = ok (failed s)
on_error (err nil_dereference) failed f = err nil_dereference
on_error (err type_assertion) failed f = err type_assertion

module _ (g : Graph) (sp : ℕ) (scope e : ElementInstanceEntity) where
  abbrev pub job_fails : String → Evaluated
  job_fails s = record { job_error = valid_text s; scope = scope; execution = e; next = [] }

  abbrev pub done : ElementInstanceEntity
  done = record e { state = completed }

  -- The execution is completed, and one is created at the target.
  unfoldable pub take_target : String → Result Evaluated
  take_target id =
      on_error (create_execution_at g sp scope id)
        (λ s. record {
          job_error =
              valid_text
                (str_append "failed to create execution at " (str_append id (str_append ": " s)));
          scope = scope;
          execution = done;
          next = [];
        })
        (λ r. ok (record { job_error = no_text; scope = r.0; execution = done; next = r.1 ∷ [] }))

  -- The element that the default sequence flow leads to.
  unfoldable pub default_target : Element → String → Result String
  unfolding outgoing_by_id
  default_target b default = do
    f ← deref (outgoing_by_id g.model b default)
    t ← deref (g.model.flow f).target
    ok (g.model.element t).id

  -- The decision of a job's completion, which may be missing or empty.
  abbrev pub is_undecided : Option String → Bool
  is_undecided none = true
  is_undecided (some decision) = str_eq decision ""

  -- The job names the element again.
  unfoldable pub decide : String → Element → String → Option String → Result Evaluated
  unfolding take_target default_target ensure_sequence_flow
  decide job_element b default none = do target ← default_target b default; take_target target
  decide job_element b default (some decision) =
      on_error (ensure_sequence_flow g job_element decision) job_fails (λ u. take_target decision)

  unfoldable pub evaluate_at : String → Node → Option String → Result Evaluated
  unfolding decide
  evaluate_at job_element n decision = do
    default ← as_exclusive_gateway (g.model.element n.bpmn_element).model
    if is_undecided decision && str_eq default ""
        then ok (job_fails "expected an exclusive gateway decision")
        else decide job_element (g.model.element n.bpmn_element) default decision

  unfoldable pub evaluate_exclusive_gateway : String → Option String → Result Evaluated
  unfolding evaluate_at find_node
  evaluate_exclusive_gateway job_element decision =
      if not (same e.bpmn_element_type exclusive_gateway)
      then ok (
          job_fails (
            str_append "expected BPMN element "
              (str_append e.bpmn_element_id " to be an exclusive gateway")))
      else on_error (find_node g e.bpmn_element_id) job_fails
          (λ n. evaluate_at job_element n decision)
