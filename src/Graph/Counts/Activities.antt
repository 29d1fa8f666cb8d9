-- ===== src/Graph/Counts/Activities.antt =====
-- What `startMultiInstance` creates (engine/internal/graph.go).
use go_bpmn.Shared.{
  String, ℕ, zero, suc, ◌≡◌, refl, ap, sym, subst, ◌∙◌, Bool, true, false, Option, none, some, List,
  [], ◌∷◌, ℤ, pos, negsuc, ◌+ℤ◌, int_laws, pos_part, neg_part, Result, ok, err, >>=-eq-ok,
  ok-injective, arith, All, if◌then◌else◌, length, +ℤ-zero, itoa,
}
use go_bpmn.Enum.InstanceState.{started}
use go_bpmn.Entity.{ElementInstanceEntity, valid_text}
use go_bpmn.Graph.Node.{Graph}
use go_bpmn.Graph.Build.{find_node}
use go_bpmn.Graph.Create.{
  create_execution_at, execution_in, with_context, start_activities, start_cardinality,
  start_multi_instance,
}
use go_bpmn.Graph.Counts.Parents.{InScope, Created, create_execution_at-Created}
use go_bpmn.Graph.Counts.Adds.{OnlyCount}

-- The activities of a sequential multi-instance, allocated from the address `fresh` on, each point to
-- the one before; those of a parallel one point to none.
abbrev pub Chained : Bool → ℕ → Option ℕ → List ElementInstanceEntity → Type 0
Chained is_sequential fresh prev [] = Unit {0}
Chained is_sequential fresh prev (x ∷ xs) =
    (x.prev ≡ (if is_sequential then prev else none))
    × Chained is_sequential (suc fresh) (if is_sequential then some fresh else none) xs

-- An activity is no multi-instance itself, and has nothing below it.
abbrev pub IsActivity : ElementInstanceEntity → Type 0
IsActivity x = (x.is_multi_instance ≡ false) × (x.execution_count ≡ pos 0)

-- What the creation of `n` activities returns.
pub record Activities (ep n : ℕ) (is_sequential : Bool) (fresh : ℕ) (prev : Option ℕ)
    (e e' : ElementInstanceEntity) (xs : List ElementInstanceEntity) : Type 0 where
  pub only_count : OnlyCount e e'
  pub counted : e'.execution_count ≡ e.execution_count +ℤ pos n
  pub size : length xs ≡ n
  pub inside : InScope ep xs
  pub activities : All IsActivity xs
  pub chained : Chained is_sequential fresh prev xs

pub with_context-ok {ℓ} :
    {A : Type ℓ} (id : String) (r : Result A) {a : A} → with_context id r ≡ ok a → r ≡ ok a
with_context-ok id (ok b) h = h
with_context-ok id (err f) h = cc

created_activity :
    (g : Graph) (ep : ℕ) (e : ElementInstanceEntity) (id : String)
    (r : ElementInstanceEntity × ElementInstanceEntity)
    → e.is_multi_instance ≡ true
    → create_execution_at g ep e id ≡ ok r
    → IsActivity r.1 × (r.1.prev ≡ none)
unfolding create_execution_at execution_in
created_activity g ep e id r multi h =
    let (scope_node, _, rest) = >>=-eq-ok (find_node g e.bpmn_element_id) _ h in
    let (n, _, made) = >>=-eq-ok (find_node g id) _ rest in ground arith

abbrev link : Bool → Option ℕ → ElementInstanceEntity → ElementInstanceEntity
link is_sequential prev x = if is_sequential then record x { prev = prev } else x

linked :
    (is_sequential : Bool) (prev : Option ℕ) (x : ElementInstanceEntity)
    → x.prev ≡ none
    → ((link is_sequential prev x).prev ≡ (if is_sequential then prev else none))
      × ((link is_sequential prev x).parent ≡ x.parent)
      × ((link is_sequential prev x).is_multi_instance ≡ x.is_multi_instance)
      × ((link is_sequential prev x).execution_count ≡ x.execution_count)
linked true prev x h = (refl, refl, refl, refl)
linked false prev x h = (h, refl, refl, refl)

more-Activities :
    (ep n : ℕ) (is_sequential : Bool) (fresh : ℕ) (prev : Option ℕ)
    (e e' e'' x : ElementInstanceEntity) (xs : List ElementInstanceEntity)
    → Created ep e (e', x)
    → IsActivity x × (x.prev ≡ none)
    → Activities ep n is_sequential
        (suc fresh)
        (if is_sequential then some fresh else none)
        e'
        e''
        xs
    → Activities ep (suc n) is_sequential fresh prev e e'' (link is_sequential prev x ∷ xs)
more-Activities ep n is_sequential fresh prev e e' e'' x xs made act a =
    let (its_prev, its_parent, its_kind, its_count) = linked is_sequential prev x act.1 in
    record {
      only_count = cc (made.0, a.only_count);
      counted = omega (
        int_laws,
        ap pos_part a.counted,
        ap neg_part a.counted,
        ap (λ y. pos_part y.execution_count) made.0,
        ap (λ y. neg_part y.execution_count) made.0,
      );
      size = ap suc a.size;
      inside = (its_parent ∙ made.1, a.inside);
      activities = ((its_kind ∙ act.0.0, its_count ∙ act.0.1), a.activities);
      chained = (its_prev, a.chained);
    }

no-Activities :
    (ep : ℕ) (is_sequential : Bool) (fresh : ℕ) (prev : Option ℕ) (e : ElementInstanceEntity)
    → Activities ep 0 is_sequential fresh prev e e []
no-Activities ep is_sequential fresh prev e = record {
  only_count = refl;
  counted = sym (+ℤ-zero e.execution_count);
  size = refl;
  inside = tt;
  activities = tt;
  chained = tt;
}

pub start_activities-Activities :
    (g : Graph) (ep n : ℕ) (is_sequential : Bool) (fresh : ℕ) (prev : Option ℕ)
    (e : ElementInstanceEntity) (r : ElementInstanceEntity × List ElementInstanceEntity)
    → e.is_multi_instance ≡ true
    → start_activities g ep n is_sequential fresh prev e ≡ ok r
    → Activities ep n is_sequential fresh prev e r.0 r.1
unfolding start_activities
start_activities-Activities g ep zero is_sequential fresh prev e r multi h =
    subst (λ x. Activities ep 0 is_sequential fresh prev e x.0 x.1) (ok-injective h)
      (no-Activities ep is_sequential fresh prev e)
start_activities-Activities g ep (suc n) is_sequential fresh prev e r multi h =
    let create = create_execution_at g ep e e.bpmn_element_id in
    let (made, is_made, h₁) = >>=-eq-ok (with_context e.bpmn_element_id create) _ h in
    let made_ok = with_context-ok e.bpmn_element_id create is_made in
    let (rest, is_rest, h₂) =
      >>=-eq-ok
        (start_activities g ep n is_sequential (suc fresh)
          (if is_sequential then some fresh else none) made.0)
        _ h₁ in
    let created = create_execution_at-Created g ep e e.bpmn_element_id made made_ok in
    subst (λ x. Activities ep (suc n) is_sequential fresh prev e x.0 x.1) (ok-injective h₂)
      (more-Activities ep n is_sequential fresh prev e made.0 rest.0 made.1 rest.1 created
        (created_activity g ep e e.bpmn_element_id made multi made_ok)
        (start_activities-Activities g ep n is_sequential (suc fresh) _ made.0 rest
          (ap (λ y. y.is_multi_instance) created.0 ∙ multi) is_rest))

-- The number of activities: none for a cardinality that is not positive.
abbrev pub to_count : ℤ → ℕ
to_count (pos n) = n
to_count (negsuc n) = 0

-- The execution of a multi-instance whose cardinality is known.
abbrev pub started_with : ℤ → ElementInstanceEntity → ElementInstanceEntity
started_with loop_cardinality e = record e {
  state = started;
  context = valid_text (itoa loop_cardinality);
}

-- Starting a multi-instance execution puts it into state STARTED with the cardinality as its context, and
-- creates as many activities in it, which it counts; none of them is a multi-instance itself, and each
-- points to the one before it if the multi-instance is sequential, and to none otherwise.
pub start_multi_instance-Activities :
    (g : Graph) (ep : ℕ) (e : ElementInstanceEntity) (loop_cardinality : ℤ) (is_sequential : Bool)
    (fresh : ℕ) (r : ElementInstanceEntity × List ElementInstanceEntity)
    → e.is_multi_instance ≡ true
    → start_multi_instance g ep e loop_cardinality is_sequential fresh ≡ ok r
    → Activities ep
        (to_count loop_cardinality)
        is_sequential
        fresh
        none
        (started_with loop_cardinality e)
        r.0
        r.1
unfolding start_multi_instance start_cardinality
start_multi_instance-Activities g ep e (pos n) is_sequential fresh r multi h =
    start_activities-Activities g ep n is_sequential fresh none _ r multi h
start_multi_instance-Activities g ep e (negsuc n) is_sequential fresh r multi h =
    subst (λ x. Activities ep 0 is_sequential fresh none (started_with (negsuc n) e) x.0 x.1)
      (ok-injective h) (no-Activities ep is_sequential fresh none (started_with (negsuc n) e))
