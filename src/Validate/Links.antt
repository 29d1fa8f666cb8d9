-- ===== src/Validate/Links.antt =====
-- The checks of `validateProcess` for link events (engine/internal/graph.go).
use go_bpmn.Shared.{
  ℕ, Bool, String, none, some, List, [], ◌∷◌, ◌++◌, Result, ok, deref, ◌>>=◌, if◌then◌else◌,
  str_append, str_eq, lookup, insert,
}
use go_bpmn.Model.Element.{Objects, as_intermediate_catch_event, as_intermediate_throw_event}
use go_bpmn.Graph.Continue.{link_name}
use go_bpmn.Validate.Elements.{ErrorCause, element_cause}
use go_bpmn.Validate.Pointer.{element_pointer}

-- The link catch events by their names.
abbrev pub Links : Type 0
Links = List (String × ℕ)

module _ (o : Objects) where
  open o use {element}

  abbrev pub catch_name : ℕ → Result String
  catch_name c = do d ← as_intermediate_catch_event (element c).model; link_name d

  abbrev pub throw_name : ℕ → Result String
  throw_name t = do d ← as_intermediate_throw_event (element t).model; link_name d

  abbrev pub no_link_name : ℕ → ErrorCause
  no_link_name b = element_cause o b "link name is empty"

  -- One link catch event, which is added to the map unless its name is empty or there already.
  abbrev pub check_catch : ℕ → String → Links → Links × List ErrorCause
  check_catch c name m = if str_eq name "" then (m, no_link_name c ∷ []) else elim (lookup name m) [
    | none ↦ (insert name c m, [])
    | some other ↦
        (m, element_cause o c (str_append "link name " (str_append name " must be unique")) ∷ [])
  ]

  -- The loop over the link catch events.
  unfoldable pub check_catches : List ℕ → Links → Result (Links × List ErrorCause)
  unfolding element_pointer
  check_catches [] m = ok (m, [])
  check_catches (c ∷ cs) m = do
    name ← catch_name c
    let here = check_catch c name m
    rest ← check_catches cs here.0
    ok (rest.0, here.1 ++ rest.1)

  -- Whether the two elements have the same parent, by its ID.
  abbrev pub in_same_scope : ℕ → ℕ → Result Bool
  in_same_scope c t = do
    p ← deref (element c).parent
    q ← deref (element t).parent
    ok (str_eq (element p).id (element q).id)

  abbrev pub scope_id : ℕ → Result String
  scope_id t = do q ← deref (element t).parent; ok (element q).id

  abbrev pub no_catch : ℕ → String → ErrorCause
  no_catch t name = element_cause o t (str_append "no link catch event defined for link name " name)

  -- One link throw event: it needs a link catch event with its name in its scope.
  unfoldable pub check_throw : ℕ → Links → Result (List ErrorCause)
  unfolding element_pointer
  check_throw t m = do
    name ← throw_name t
    if str_eq name "" then ok (no_link_name t ∷ []) else elim (lookup name m) [
      | none ↦ ok (no_catch t name ∷ [])
      | some c ↦ (do
        here ← in_same_scope c t
        scope ← scope_id t
        ok (
            if here
            then []
            else element_cause o t (
                str_append "no link catch event defined for link name "
                  (str_append name (str_append " in scope " scope)))
              ∷ []))
    ]

  unfoldable pub check_throws : List ℕ → Links → Result (List ErrorCause)
  unfolding check_throw
  check_throws [] m = ok []
  check_throws (t ∷ ts) m = do here ← check_throw t m; rest ← check_throws ts m; ok (here ++ rest)
