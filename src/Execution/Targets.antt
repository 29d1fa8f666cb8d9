-- ===== src/Execution/Targets.antt =====
-- The targets of an inclusive gateway, and the executions that are created at them
-- (engine/internal/element_instance.go).
use mathlib.Core.List.{append-nil, append_assoc}
use go_bpmn.Shared.{
  has_text, ℕ, ◌<◌, ◌≡◌, ◌≢◌, refl, ap, sym, subst, ◌∙◌, true, false, ◌&&◌, ◌⊎◌, String, Option,
  none, some, List, [], ◌∷◌, ◌++◌, length, length-append, All, All-append, int_laws, pos_part,
  neg_part, arith, ok, >>=-eq-ok, ok-injective, str_eq, eq_iff, Bool-cases, inl, inr,
}
use go_bpmn.Model.Element.{Element}
use go_bpmn.Entity.{ElementInstanceEntity}
use go_bpmn.Graph.Node.{Node, Graph}
use go_bpmn.Graph.Build.{find_node, ensure_sequence_flow}
use go_bpmn.Graph.Create.{create_execution_at}
use go_bpmn.Graph.Counts.Parents.{create_execution_at-Created}
use go_bpmn.Graph.Counts.Adds.{Adds, Created-Adds}
use go_bpmn.Execution.Exclusive.{Evaluated, default_target}
use go_bpmn.Execution.Inclusive.{
  first_repeated, decided, is_undecided, ensure_all, add_default, create_all,
}
use go_bpmn.Execution.Chosen.{LeadsTo, on_error-eq-ok, default_leads, ensured}

-- No text stands twice.
abbrev pub Distinct : List String → Type 0
Distinct [] = Unit {0}
Distinct (x ∷ xs) = All (λ y. y ≢ x) xs × Distinct xs

has_text-All : (xs : List String) (s : String) → has_text xs s ≡ false → All (λ y. y ≢ s) xs
unfolding has_text
has_text-All [] s h = tt
has_text-All (x ∷ xs) s h = elim (Bool-cases (str_eq x s)) [
  | inl hit ↦ absurd (cc (rw (has_text, hit) at h))
  | inr miss ↦
      (λ e. absurd (cc ((eq_iff x s).1 e, miss)), has_text-All xs s (rw (has_text, miss) at h))
]

has_text-length : (xs : List String) (s : String) → has_text xs s ≡ true → 0 < length xs
unfolding has_text
has_text-length [] s h = absurd (cc h)
has_text-length (x ∷ xs) s h = omega arith

pub first_repeated-Distinct : (xs : List String) → first_repeated xs ≡ none → Distinct xs
unfolding first_repeated
first_repeated-Distinct [] h = tt
first_repeated-Distinct (x ∷ xs) h = elim (Bool-cases (has_text xs x)) [
  | inl again ↦ absurd (cc (rw (first_repeated, again) at h))
  | inr once ↦ (has_text-All xs x once, first_repeated-Distinct xs (rw (first_repeated, once) at h))
]

Distinct-append :
    (xs : List String) (t : String) → Distinct xs → All (λ y. y ≢ t) xs → Distinct (xs ++ t ∷ [])
Distinct-append [] t d a = (tt, tt)
Distinct-append (x ∷ xs) t d a =
    (All-append (λ y. y ≢ x) xs (t ∷ []) d.0 (λ e. a.0 (sym e), tt), Distinct-append xs t d.1 a.1)

-- The executions were created in turn, one at each target.
abbrev pub Forks :
    Graph
    → ℕ
    → ElementInstanceEntity
    → List String
    → ElementInstanceEntity
    → List ElementInstanceEntity
    → Type 0
Forks g sp scope [] scope' next = (scope' ≡ scope) × (next ≡ [])
Forks g sp scope (id ∷ ids) scope' [] = ⊥
Forks g sp scope (id ∷ ids) scope' (x ∷ next) =
    (mid : ElementInstanceEntity) × (create_execution_at g sp scope id ≡ ok (mid, x))
    × Forks g sp mid ids scope' next

-- Which targets are taken: the decided ones, and the default one, once.
abbrev pub Takes :
    Graph
    → ℕ
    → ElementInstanceEntity
    → ElementInstanceEntity
    → Element
    → String
    → List String
    → List String
    → Type 0
Takes g sp scope e b default ids targets =
    ((default ≡ "") × (targets ≡ ids))
    ⊎ ((t : String) × (default_target g sp scope e b default ≡ ok t)
        × (((has_text ids t ≡ true) × (targets ≡ ids))
            ⊎ ((has_text ids t ≡ false) × (targets ≡ ids ++ t ∷ []))))

module _ (g : Graph) (sp : ℕ) where
  -- The executions are counted by the scope.
  pub Forks-Adds :
      (ids : List String) (scope scope' : ElementInstanceEntity) (next : List ElementInstanceEntity)
      → Forks g sp scope ids scope' next
      → Adds sp scope scope' next
  Forks-Adds [] scope scope' next (same_scope, nothing) =
      subst (λ xs. Adds sp scope scope' xs) (sym nothing)
        (subst (λ s. Adds sp scope s []) (sym same_scope) (refl, omega int_laws, tt))
  Forks-Adds (id ∷ ids) scope scope' [] f = absurd f
  Forks-Adds (id ∷ ids) scope scope' (x ∷ next) (mid, made, f) =
      let (only, count, placed) =
        Created-Adds sp scope (mid, x) (create_execution_at-Created g sp scope id (mid, x) made) in
      let (only', count', placed') = Forks-Adds ids mid scope' next f in
      (
        only'
            ∙ ap
                (λ (m : ElementInstanceEntity). record m {
                  execution_count = scope'.execution_count;
                })
                only,
        omega (
          int_laws,
          ap pos_part count,
          ap neg_part count,
          ap pos_part count',
          ap neg_part count',
        ),
        (placed.0, placed'),
      )

  Forks-append :
      (ids : List String) (id : String) (scope mid scope' : ElementInstanceEntity)
      (next : List ElementInstanceEntity) (x : ElementInstanceEntity)
      → Forks g sp scope ids mid next
      → create_execution_at g sp mid id ≡ ok (scope', x)
      → Forks g sp scope (ids ++ id ∷ []) scope' (next ++ x ∷ [])
  Forks-append [] id scope mid scope' next x (same_scope, nothing) made =
      subst (λ xs. Forks g sp scope (id ∷ []) scope' (xs ++ x ∷ [])) (sym nothing)
        (
          scope',
          subst (λ m. create_execution_at g sp m id ≡ ok (scope', x)) same_scope made,
          (refl, refl),
        )
  Forks-append (k ∷ ids) id scope mid scope' [] x f made = absurd f
  Forks-append (k ∷ ids) id scope mid scope' (y ∷ next) x (s, first, f) made =
      (s, first, Forks-append ids id s mid scope' next x f made)

  module _ (scope e : ElementInstanceEntity) where
    -- Executions are created at all targets, unless the job has an error.
    pub create_all-Forks :
        (ids before : List String) (r r' : Evaluated)
        → Forks g sp scope before r.scope r.next
        → create_all g sp scope e ids r ≡ ok r'
        → r'.job_error.valid ≡ false
        → Forks g sp scope (before ++ ids) r'.scope r'.next × (r'.execution ≡ r.execution)
    unfolding create_all
    create_all-Forks [] before r r' f h fine =
        subst
          (λ (q : Evaluated).
            Forks g sp scope (before ++ []) q.scope q.next × (q.execution ≡ r.execution))
          (ok-injective h)
          (subst (λ ids. Forks g sp scope ids r.scope r.next) (sym (append-nil before)) f, refl)
    create_all-Forks (id ∷ ids) before r r' f h fine =
        elim (on_error-eq-ok (create_execution_at g sp r.scope id) _ _ h) [
          | inr (s, failed) ↦ absurd (cc (failed, fine))
          | inl ((mid, x), made, eq) ↦
              let (g', ex) =
                create_all-Forks ids (before ++ id ∷ [])
                  (record r { scope = mid; next = r.next ++ x ∷ [] }) r'
                  (Forks-append before id scope r.scope mid r.next x f made) eq fine in
              (
                subst (λ ids. Forks g sp scope ids r'.scope r'.next)
                    (append_assoc before (id ∷ []) ids) g',
                ex,
              )
        ]

    pub ensure_all-LeadsTo :
        (n : Node) (id : String) (ids : List String)
        → find_node g id ≡ ok n
        → ensure_all g sp scope e id ids ≡ ok tt
        → All (LeadsTo g.model (g.model.element n.bpmn_element).outgoing) ids
    unfolding ensure_all
    ensure_all-LeadsTo n id [] found h = tt
    ensure_all-LeadsTo n id (x ∷ xs) found h =
        let (u, sure, h₁) = >>=-eq-ok (ensure_sequence_flow g id x) _ h in
        (ensured g sp scope e n id x found sure, ensure_all-LeadsTo n id xs found h₁)

    pub add_default-Takes :
        (b : Element) (default : String) (ids targets : List String)
        → add_default g sp scope e b default ids ≡ ok targets
        → Takes g sp scope e b default ids targets
    unfolding add_default
    add_default-Takes b default ids targets h = elim (Bool-cases (str_eq default "")) [
      | inl empty ↦
          inl ((eq_iff default "").0 empty, sym (ok-injective (rw (add_default, empty) at h)))
      | inr named ↦
          let (t, is_t, eq) =
            >>=-eq-ok (default_target g sp scope e b default) _ (rw (add_default, named) at h) in
          inr (
            t,
            is_t,
            elim (Bool-cases (has_text ids t)) [
              | inl in_ids ↦ inl (in_ids, sym (ok-injective (rw in_ids at eq)))
              | inr new ↦ inr (new, sym (ok-injective (rw new at eq)))
            ],
          )
    ]

    pub Takes-Distinct :
        (b : Element) (default : String) (ids targets : List String)
        → Takes g sp scope e b default ids targets
        → Distinct ids
        → Distinct targets
    Takes-Distinct b default ids targets (inl (_, same_ids)) d = subst Distinct (sym same_ids) d
    Takes-Distinct b default ids targets (inr (t, _, inl (_, same_ids))) d =
        subst Distinct (sym same_ids) d
    Takes-Distinct b default ids targets (inr (t, _, inr (new, more))) d =
        subst Distinct (sym more) (Distinct-append ids t d (has_text-All ids t new))

    pub Takes-LeadsTo :
        (b : Element) (default : String) (ids targets : List String)
        → Takes g sp scope e b default ids targets
        → All (LeadsTo g.model b.outgoing) ids
        → All (LeadsTo g.model b.outgoing) targets
    Takes-LeadsTo b default ids targets (inl (_, same_ids)) a =
        subst (All (LeadsTo g.model b.outgoing)) (sym same_ids) a
    Takes-LeadsTo b default ids targets (inr (t, _, inl (_, same_ids))) a =
        subst (All (LeadsTo g.model b.outgoing)) (sym same_ids) a
    Takes-LeadsTo b default ids targets (inr (t, is_t, inr (_, more))) a =
        subst (All (LeadsTo g.model b.outgoing)) (sym more) (
          All-append (LeadsTo g.model b.outgoing) ids (t ∷ []) a
            (default_leads g sp scope e b default t is_t, tt))

    pub Takes-some :
        (b : Element) (default : String) (d : Option (List String)) (targets : List String)
        → Takes g sp scope e b default (decided d) targets
        → (is_undecided d && str_eq default "") ≡ false
        → 0 < length targets
    Takes-some b default none targets (inl (unset, _)) h =
        absurd (cc ((eq_iff default "").1 unset, h))
    Takes-some b default (some []) targets (inl (unset, _)) h =
        absurd (cc ((eq_iff default "").1 unset, h))
    Takes-some b default (some (x ∷ xs)) targets (inl (_, same_ids)) h =
        subst (λ ts. 0 < length ts) (sym same_ids) (omega arith)
    Takes-some b default d targets (inr (t, _, inl (in_ids, same_ids))) h =
        subst (λ ts. 0 < length ts) (sym same_ids) (has_text-length (decided d) t in_ids)
    Takes-some b default d targets (inr (t, _, inr (_, more))) h =
        subst (λ ts. 0 < length ts) (sym more) (omega (arith, length-append (decided d) (t ∷ [])))
