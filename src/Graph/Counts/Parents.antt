-- ===== src/Graph/Counts/Parents.antt =====
-- The scopes of the executions that engine/internal/graph.go creates.
use go_bpmn.Shared.{
  String, ℕ, suc, ◌+◌, ◌≡◌, ◌≢◌, refl, ap, sym, Bool, false, Option, none, some, List, [], ◌∷◌,
  ◌++◌, map, pos, ok, >>=-eq-ok, ok-injective, All, All-traverse, arith, ◌==◌, if◌then◌else◌,
  length,
}
use go_bpmn.Model.Element.{Element}
use go_bpmn.Entity.{ElementInstanceEntity}
use go_bpmn.Graph.Node.{Graph}
use go_bpmn.Graph.Build.{find_node}
use go_bpmn.Graph.Create.{add_count, create_execution, create_execution_at, execution_in}
use go_bpmn.Graph.Branch.{
  outgoing_branch, take_outgoing, multi_instance_branch, take_multi_instance_outgoing, event_branch,
  attach_boundary_events, target_of,
}

abbrev pub is_at : Option ℕ → ℕ → Bool
is_at none p = false
is_at (some q) p = q == p

-- How many of the executions have their scope at the address.
abbrev pub children_of : ℕ → List ElementInstanceEntity → ℕ
children_of p [] = 0
children_of p (x ∷ xs) = let n = children_of p xs in if is_at x.parent p then suc n else n

abbrev pub InScope : ℕ → List ElementInstanceEntity → Type 0
InScope p = All (λ x. x.parent ≡ some p)

pub children_of-append :
    (p : ℕ) (xs ys : List ElementInstanceEntity)
    → children_of p (xs ++ ys) ≡ children_of p xs + children_of p ys
children_of-append p [] ys = omega arith
children_of-append p (x ∷ xs) ys = ground (arith, children_of-append p xs ys)

pub children_of-InScope :
    (p : ℕ) (xs : List ElementInstanceEntity) → InScope p xs → children_of p xs ≡ length xs
children_of-InScope p [] h = refl
children_of-InScope p (x ∷ xs) h = ground (arith, children_of-InScope p xs h.1)

pub children_of-other :
    (p q : ℕ) (xs : List ElementInstanceEntity) → p ≢ q → InScope q xs → children_of p xs ≡ 0
children_of-other p q [] d h = refl
children_of-other p q (x ∷ xs) d h = ground (arith, children_of-other p q xs d h.1)

outgoing_branch-parent :
    (g : Graph) (sp : ℕ) (scope : ElementInstanceEntity) (ep : ℕ) (e : ElementInstanceEntity)
    (f : ℕ) (x : ElementInstanceEntity)
    → outgoing_branch g sp scope ep e f ≡ ok x
    → x.parent ≡ some sp
unfolding outgoing_branch execution_in
outgoing_branch-parent g sp scope ep e f x h =
    let (t, _, made) = >>=-eq-ok (target_of g f) _ h in sym (ap (λ y. y.parent) (ok-injective made))

pub take_outgoing-InScope :
    (g : Graph) (sp : ℕ) (scope : ElementInstanceEntity) (ep : ℕ) (e : ElementInstanceEntity)
    (b : Element) (xs : List ElementInstanceEntity)
    → take_outgoing g sp scope ep e b ≡ ok xs
    → InScope sp xs
unfolding take_outgoing
take_outgoing-InScope g sp scope ep e b xs h =
    All-traverse (outgoing_branch g sp scope ep e) _ (outgoing_branch-parent g sp scope ep e)
      b.outgoing xs h

multi_instance_branch-parent :
    (g : Graph) (sp : ℕ) (scope : ElementInstanceEntity) (f : ℕ) (x : ElementInstanceEntity)
    → multi_instance_branch g sp scope f ≡ ok x
    → x.parent ≡ some sp
unfolding multi_instance_branch execution_in
multi_instance_branch-parent g sp scope f x h =
    let (t, _, made) = >>=-eq-ok (target_of g f) _ h in sym (ap (λ y. y.parent) (ok-injective made))

pub take_multi_instance_outgoing-InScope :
    (g : Graph) (sp : ℕ) (scope : ElementInstanceEntity) (b : Element)
    (xs : List ElementInstanceEntity)
    → take_multi_instance_outgoing g sp scope b ≡ ok xs
    → InScope sp xs
unfolding take_multi_instance_outgoing
take_multi_instance_outgoing-InScope g sp scope b xs h =
    All-traverse (multi_instance_branch g sp scope) _ (multi_instance_branch-parent g sp scope)
      b.outgoing xs h

pub events-InScope :
    (g : Graph) (sp : ℕ) (scope : ElementInstanceEntity) (ep : ℕ) (e : ElementInstanceEntity)
    (bs : List Element)
    → InScope sp (map (event_branch g sp scope ep e) bs)
unfolding event_branch execution_in
events-InScope g sp scope ep e [] = tt
events-InScope g sp scope ep e (b ∷ bs) = (refl, events-InScope g sp scope ep e bs)

pub attach_boundary_events-InScope :
    (g : Graph) (sp : ℕ) (scope : ElementInstanceEntity) (ep : ℕ) (e : ElementInstanceEntity)
    (bs : List ℕ)
    → InScope sp (attach_boundary_events g sp scope ep e bs)
      × (length (attach_boundary_events g sp scope ep e bs) ≡ length bs)
unfolding attach_boundary_events event_branch execution_in
attach_boundary_events-InScope g sp scope ep e [] = (tt, refl)
attach_boundary_events-InScope g sp scope ep e (b ∷ bs) =
    let (inside, size) = attach_boundary_events-InScope g sp scope ep e bs in
    ((refl, inside), ap suc size)

-- What a successful creation returns: the scope with one execution more, and that execution.
abbrev pub Created :
    ℕ → ElementInstanceEntity → ElementInstanceEntity × ElementInstanceEntity → Type 0
Created sp scope r = (r.0 ≡ add_count (pos 1) scope) × (r.1.parent ≡ some sp)

pub create_execution-Created :
    (g : Graph) (sp : ℕ) (scope : ElementInstanceEntity)
    (r : ElementInstanceEntity × ElementInstanceEntity)
    → create_execution g sp scope ≡ ok r
    → Created sp scope r
unfolding create_execution execution_in
create_execution-Created g sp scope r h =
    let (n, _, rest) = >>=-eq-ok (find_node g scope.bpmn_element_id) _ h in ground arith

pub create_execution_at-Created :
    (g : Graph) (sp : ℕ) (scope : ElementInstanceEntity) (id : String)
    (r : ElementInstanceEntity × ElementInstanceEntity)
    → create_execution_at g sp scope id ≡ ok r
    → Created sp scope r
unfolding create_execution_at execution_in
create_execution_at-Created g sp scope id r h =
    let (scope_node, _, rest) = >>=-eq-ok (find_node g scope.bpmn_element_id) _ h in
    let (n, _, made) = >>=-eq-ok (find_node g id) _ rest in ground arith
