-- ===== src/Validate/LinksSound.antt =====
-- What the link events are like that `validateProcess` finds no cause against
-- (engine/internal/graph.go).
use go_bpmn.Shared.{
  append_empty, ℕ, ◌≡◌, ◌≢◌, ap, sym, ◌∙◌, true, ◌⊎◌, String, some, List, [], ◌∷◌, ok, >>=-eq-ok,
  ok-injective, All, str_eq, eq_iff, lookup, insert, lookup-insert, Bool-cases, Option-cases, inl,
  inr,
}
use go_bpmn.Model.Element.{Objects}
use go_bpmn.Validate.Elements.{ErrorCause}
use go_bpmn.Validate.Links.{
  Links, catch_name, throw_name, check_catch, check_catches, in_same_scope, scope_id, check_throw,
  check_throws,
}

-- One of the elements.
abbrev pub IsOneOf : ℕ → List ℕ → Type 0
IsOneOf a [] = ⊥
IsOneOf a (b ∷ bs) = (a ≡ b) ⊎ IsOneOf a bs

module _ (o : Objects) where
  catch_added :
      (c : ℕ) (name : String) (m : Links) (j : String) (x : ℕ)
      → (check_catch o c name m).1 ≡ []
      → lookup j (check_catch o c name m).0 ≡ some x
      → (lookup j m ≡ some x) ⊎ ((x ≡ c) × (j ≡ name))
  catch_added c name m j x clean found = elim (Bool-cases (str_eq name "")) [
    | inl empty ↦ absurd (cc (rw empty at clean))
    | inr named ↦ elim (Option-cases (lookup name m)) [
      | inr (other, taken) ↦ absurd (cc (rw (named, taken) at clean))
      | inl free ↦
          let at_j : lookup j (insert name c m) ≡ some x = rw (named, free) at found in
          elim (Bool-cases (str_eq name j)) [
            | inl hit ↦
                let is_c : some c ≡ some x = rw hit at (sym (lookup-insert j name c m) ∙ at_j) in
                inr (cc (is_c), sym ((eq_iff name j).0 hit))
            | inr miss ↦ inl (rw miss at (sym (lookup-insert j name c m) ∙ at_j))
          ]
    ]
  ]

  -- Each name of the map is that of a link catch event that was passed to the loop, or was there before.
  catches_sound :
      (cs : List ℕ) (m : Links) (r : Links × List ErrorCause) (j : String) (x : ℕ)
      → check_catches o cs m ≡ ok r
      → r.1 ≡ []
      → lookup j r.0 ≡ some x
      → (lookup j m ≡ some x) ⊎ (IsOneOf x cs × (catch_name o x ≡ ok j))
  unfolding check_catches
  catches_sound [] m r j x h clean found = inl (rw (ap (λ y. y.0) (ok-injective h)) found)
  catches_sound (c ∷ cs) m r j x h clean found =
      let (name, is_name, h₁) = >>=-eq-ok (catch_name o c) _ h in
      let (rest, is_rest, done) = >>=-eq-ok (check_catches o cs (check_catch o c name m).0) _ h₁ in
      let same_result = ok-injective done in
      let (here, others) =
        append_empty (check_catch o c name m).1 rest.1 (ap (λ y. y.1) same_result ∙ clean) in
      elim (catches_sound cs (check_catch o c name m).0 rest j x is_rest others
        (ap (λ y. lookup j y.0) same_result ∙ found)) [
          | inr (one, its_name) ↦ inr (inr one, its_name)
          | inl before ↦ elim (catch_added c name m j x here before) [
            | inl old ↦ inl old
            | inr (is_c, is_j) ↦ inr (inl is_c, ap (catch_name o) is_c ∙ is_name ∙ ap ok (sym is_j))
          ]
        ]

  -- A link throw event that a link catch event of the same name in the same scope answers to.
  abbrev pub IsAnswered : List ℕ → ℕ → Type 0
  IsAnswered catches t =
      (name : String) × (c : ℕ) × (throw_name o t ≡ ok name)
      × (name ≢ "")
      × IsOneOf c catches
      × (catch_name o c ≡ ok name)
      × (in_same_scope o c t ≡ ok true)

  throw_sound :
      (t : ℕ) (m : Links)
      → check_throw o t m ≡ ok []
      → (name : String) × (c : ℕ) × (throw_name o t ≡ ok name)
        × (name ≢ "")
        × (lookup name m ≡ some c)
        × (in_same_scope o c t ≡ ok true)
  unfolding check_throw
  throw_sound t m h =
      let (name, is_name, h₁) = >>=-eq-ok (throw_name o t) _ h in
      elim (Bool-cases (str_eq name "")) [
        | inl empty ↦ absurd (cc (rw empty at h₁))
        | inr named ↦ elim (Option-cases (lookup name m)) [
          | inl missing ↦ absurd (cc (rw (named, missing) at h₁))
          | inr (c, found) ↦
              let (here, is_here, h₂) =
                >>=-eq-ok (in_same_scope o c t) _ (rw (named, found) at h₁) in
              let (scope, _, done) = >>=-eq-ok (scope_id o t) _ h₂ in
              (
                name,
                c,
                is_name,
                λ empty. cc ((eq_iff name "").1 empty, named),
                found,
                elim (Bool-cases here) [
                  | inl is_true ↦ is_here ∙ ap ok is_true
                  | inr is_false ↦ absurd (cc (rw is_false at done))
                ],
              )
        ]
      ]

  pub throws_sound :
      (cs ts : List ℕ) (r : Links × List ErrorCause)
      → check_catches o cs [] ≡ ok r
      → r.1 ≡ []
      → check_throws o ts r.0 ≡ ok []
      → All (IsAnswered cs) ts
  unfolding check_throws lookup
  throws_sound cs [] r catches clean h = tt
  throws_sound cs (t ∷ ts) r catches clean h =
      let (here, is_here, h₁) = >>=-eq-ok (check_throw o t r.0) _ h in
      let (rest, is_rest, done) = >>=-eq-ok (check_throws o ts r.0) _ h₁ in
      let (no_here, no_rest) = append_empty here rest (ok-injective done) in
      let (name, c, is_name, named, found, scope) = throw_sound t r.0 (is_here ∙ ap ok no_here) in
      (
        elim (catches_sound cs [] r name c catches clean found) [
          | inl nowhere ↦ absurd (cc (nowhere))
          | inr (one, its_name) ↦ (name, c, is_name, named, one, its_name, scope)
        ],
        throws_sound cs ts r catches clean (is_rest ∙ ap ok no_rest),
      )
