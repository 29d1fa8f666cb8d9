-- ===== src/Validate/Sound.antt =====
-- What a process is like that `validateProcess` finds no cause against (engine/internal/graph.go).
use go_bpmn.Shared.{
  append_empty, subst, ℕ, ◌≤◌, ◌≡◌, ◌≢◌, refl, ap, sym, ◌∙◌, Bool, true, false, not, ◌&&◌, ◌⊎◌,
  String, Option, some, List, [], ◌∷◌, ok, deref, >>=-eq-ok, ok-injective, All, length,
  if◌then◌else◌, arith, str_eq, eq_iff, Bool-cases, Option-cases, inl, inr,
}
use go_bpmn.Enum.ElementType.{
  ElementType, same, event_based_gateway, exclusive_gateway, inclusive_gateway, sub_process,
  none_start_event,
}
use go_bpmn.Model.Element.{
  Objects, SequenceFlow, as_boundary_event, as_exclusive_gateway, as_inclusive_gateway,
  as_sub_process,
}
use go_bpmn.Model.Kinds.{is_boundary_event, is_catch_event, is_start_event}
use go_bpmn.Model.Lookup.{children_by_type, outgoing_by_id}
use go_bpmn.Validate.Elements.{
  ErrorCause, cause_if, is_source, check_targets, check_children, check_type, flow_cause,
  check_flows, flow_cause, check_element, check_attached,
}
use go_bpmn.Validate.Process.{check_elements}

module _ (o : Objects) where
  open o use {element, flow}

  pub no_cause : (b : Bool) (c : ErrorCause) → cause_if o b c ≡ [] → b ≡ false
  no_cause true c h = absurd (cc h)
  no_cause false c h = refl

  -- Where the default of a gateway is named, it is one of its outgoing sequence flows.
  abbrev pub HasDefault : ℕ → String → Type 0
  HasDefault b default =
      (default ≡ "") ⊎ (is_source o b (outgoing_by_id o (element b) default) ≡ true)

  -- What an element of a type has to be like.
  abbrev pub IsValidType : ElementType → ℕ → Type 0
  IsValidType event_based_gateway b =
      (2 ≤ length (element b).outgoing)
      × All (λ f. (t : ℕ) → (flow f).target ≡ some t → is_catch_event (element t).type ≡ true)
          (element b).outgoing
  IsValidType exclusive_gateway b =
      (default : String) × (as_exclusive_gateway (element b).model ≡ ok default)
      × HasDefault b default
  IsValidType inclusive_gateway b =
      (default : String) × (as_inclusive_gateway (element b).model ≡ ok default)
      × HasDefault b default
      × (length (element b).incoming ≤ 1)
  IsValidType sub_process b =
      All
        (λ c.
          is_start_event (element c).type ≡ true → same (element c).type none_start_event ≡ true)
        (element b).children
      × (length (children_by_type o (element b) none_start_event) ≡ 1)
  IsValidType _ b = Unit {0}

  abbrev pub IsConnected : (SequenceFlow → Option ℕ) → List ℕ → Type 0
  IsConnected end = All (λ f. (a : ℕ) × (end (flow f) ≡ some a))

  pub record IsValid (b : ℕ) : Type 0 where
    pub has_id : (element b).id ≢ ""
    pub valid_type : IsValidType (element b).type b
    pub attached :
        is_boundary_event (element b).type ≡ true
        → (a : ℕ) × (as_boundary_event (element b).model ≡ ok (some a))
    pub sources : IsConnected (λ f. f.source) (element b).incoming
    pub targets : IsConnected (λ f. f.target) (element b).outgoing

  -- The single checks.
  targets_valid :
      (id : String) (fs : List ℕ)
      → check_targets o id fs ≡ []
      → All (λ f. (t : ℕ) → (flow f).target ≡ some t → is_catch_event (element t).type ≡ true) fs
  targets_valid id [] h = tt
  targets_valid id (f ∷ fs) h = elim (Option-cases (flow f).target) [
    | inl open_end ↦ (
      λ t is_t. absurd (cc (open_end, is_t)),
      targets_valid id fs (rw (check_targets, open_end) at h),
    )
    | inr (a, is_a) ↦
        let (here, rest) = append_empty _ (check_targets o id fs) (rw (check_targets, is_a) at h) in
        let catches = no_cause _ _ here in
        (
          λ t is_t.
              subst (λ x. is_catch_event (element x).type ≡ true)
                (some_injective a t (sym is_a ∙ is_t)) (negated _ catches),
          targets_valid id fs rest,
        )
  ]
    where
      some_injective : (a t : ℕ) → some a ≡ some t → a ≡ t
      some_injective a t eq = cc (eq)

      negated : (b : Bool) → not b ≡ false → b ≡ true
      negated b eq = ground arith

  children_valid :
      (id : String) (cs : List ℕ)
      → check_children o id cs ≡ []
      → All
          (λ c.
            is_start_event (element c).type ≡ true → same (element c).type none_start_event ≡ true)
          cs
  children_valid id [] h = tt
  children_valid id (c ∷ cs) h =
      let (here, rest) = append_empty _ (check_children o id cs) h in
      let fits = no_cause _ _ here in
      (λ starts. ground (arith, fits, starts), children_valid id cs rest)

  default_valid :
      (b : ℕ) (default : String)
      → (not (str_eq default "") && not (is_source o b (outgoing_by_id o (element b) default)))
        ≡ false
      → HasDefault b default
  default_valid b default h = elim (Bool-cases (str_eq default "")) [
    | inl unnamed ↦ inl ((eq_iff default "").0 unnamed)
    | inr named ↦ inr (ground (arith, h, named))
  ]

  connected :
      (end : SequenceFlow → Option ℕ) (b : ℕ) (what : String) (fs : List ℕ)
      → check_flows o end b what fs ≡ ok []
      → IsConnected end fs
  unfolding check_flows
  connected end b what [] h = tt
  connected end b what (f ∷ fs) h = elim (Option-cases (end (flow f))) [
    | inr (a, is_a) ↦
        let (rest, is_rest, done) = >>=-eq-ok (check_flows o end b what fs) _ (rw is_a at h) in
        ((a, is_a), connected end b what fs (is_rest ∙ done))
    | inl open_end ↦
        let (here, is_here, more) =
          >>=-eq-ok (flow_cause o b f what) _ (rw (check_targets, open_end) at h) in
        let (p, _, made) = >>=-eq-ok (deref (element b).parent) _ is_here in
        let (rest, _, done) = >>=-eq-ok (check_flows o end b what fs) _ more in
        let (nothing, _) = append_empty here rest (ok-injective done) in
        absurd (some_cause (ok-injective made ∙ nothing))
  ]
    where
      some_cause : {c : ErrorCause} → c ∷ [] ≡ [] → ⊥
      some_cause eq = cc (eq)

  type_valid : (t : ElementType) (b : ℕ) → check_type o t b ≡ ok [] → IsValidType t b
  unfolding check_type
  type_valid event_based_gateway b h =
      let (enough, rest) =
        append_empty _ (check_targets o (element b).id (element b).outgoing) (ok-injective h) in
      (ground (arith, no_cause _ _ enough), targets_valid (element b).id (element b).outgoing rest)
  type_valid exclusive_gateway b h =
      let (default, is_gateway, eq) = >>=-eq-ok (as_exclusive_gateway (element b).model) _ h in
      (default, is_gateway, default_valid b default (no_cause _ _ (ok-injective eq)))
  type_valid inclusive_gateway b h =
      let (default, is_gateway, eq) = >>=-eq-ok (as_inclusive_gateway (element b).model) _ h in
      let (named, joins) = append_empty _ _ (ok-injective eq) in
      (
        default,
        is_gateway,
        default_valid b default (no_cause _ _ named),
        ground (arith, no_cause _ _ joins),
      )
  type_valid sub_process b h =
      let (s, is_sub, eq) = >>=-eq-ok (as_sub_process (element b).model) _ h in
      elim (Bool-cases s.1) [
        | inl by_event ↦ absurd (cc (rw by_event at eq))
        | inr embedded ↦
            let (children, starts) = append_empty _ _ (ok-injective (rw embedded at eq)) in
            (
              children_valid (element b).id (element b).children children,
              ground (arith, no_cause _ _ starts),
            )
      ]
  type_valid _ b h = tt

  -- The whole check of an element.
  element-IsValid : (b : ℕ) → check_element o b ≡ ok [] → IsValid b
  unfolding check_element
  element-IsValid b h =
      let (of_type, is_type, h₁) = >>=-eq-ok (check_type o (element b).type b) _ h in
      let (boundary, is_boundary, h₂) =
        >>=-eq-ok (if is_boundary_event (element b).type then check_attached o b else ok []) _ h₁ in
      let (incoming, is_incoming, h₃) =
        >>=-eq-ok (check_flows o (λ f. f.source) b " has no source element" (element b).incoming) _
          h₂ in
      let (outgoing, is_outgoing, done) =
        >>=-eq-ok (check_flows o (λ f. f.target) b " has no target element" (element b).outgoing) _
          h₃ in
      let (e₄, no_outgoing) = append_empty _ outgoing (ok-injective done) in
      let (e₃, no_incoming) = append_empty _ incoming e₄ in
      let (e₂, no_boundary) = append_empty _ boundary e₃ in
      let (no_id, no_type) = append_empty _ of_type e₂ in
      record {
        has_id = λ empty. absurd (cc ((eq_iff (element b).id "").1 empty, no_cause _ _ no_id));
        valid_type = type_valid (element b).type b (is_type ∙ ap ok no_type);
        attached = λ boundary_event. is_attached (rw boundary_event at is_boundary) no_boundary;
        sources =
            connected (λ f. f.source) b " has no source element" (element b).incoming
              (is_incoming ∙ ap ok no_incoming);
        targets =
            connected (λ f. f.target) b " has no target element" (element b).outgoing
              (is_outgoing ∙ ap ok no_outgoing);
      }
    where
      is_attached :
          {causes : List ErrorCause}
          → check_attached o b ≡ ok causes
          → causes ≡ []
          → (a : ℕ) × (as_boundary_event (element b).model ≡ ok (some a))
      is_attached h none_found =
          let (to, is_to, made) = >>=-eq-ok (as_boundary_event (element b).model) _ h in
          elim (Option-cases to) [
            | inr (a, is_a) ↦ (a, is_to ∙ ap ok is_a)
            | inl free ↦ absurd (cc (rw free at made, none_found))
          ]

  pub elements-IsValid : (bs : List ℕ) → check_elements o bs ≡ ok [] → All IsValid bs
  unfolding check_elements
  elements-IsValid [] h = tt
  elements-IsValid (b ∷ bs) h =
      let (here, is_here, h₁) = >>=-eq-ok (check_element o b) _ h in
      let (rest, is_rest, done) = >>=-eq-ok (check_elements o bs) _ h₁ in
      let (no_here, no_rest) = append_empty here rest (ok-injective done) in
      (element-IsValid b (is_here ∙ ap ok no_here), elements-IsValid bs (is_rest ∙ ap ok no_rest))
