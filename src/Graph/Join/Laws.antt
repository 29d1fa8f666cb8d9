-- ===== src/Graph/Join/Laws.antt =====
-- What a join of a parallel gateway takes, and when it happens (engine/internal/graph.go).
use go_bpmn.Shared.{
  if◌then◌else◌, ℕ, ◌≤◌, ◌<◌, ◌≡◌, ◌≢◌, refl, Bool, true, false, ◌⊎◌, inl, inr, List, [], ◌∷◌, ◌++◌,
  arith, ◌==◌, count, length, Bool-cases,
}
use mathlib.Core.List.{append_assoc}
use go_bpmn.Enum.InstanceState.{completed}
use go_bpmn.Entity.{ElementInstanceEntity}
use go_bpmn.Graph.Join.Counter.{
  Counter, get, decrement, get-decrement, count_all, total, total-eq-zero, get-count_all,
  total-count_all, count_all-Distinct,
}
use go_bpmn.Graph.Join.Loop.{sent_by, join_state, join_loop}
use go_bpmn.Graph.Join.Invariant.{Balanced, senders, take-Balanced}

-- An execution after the join: the first one goes on, the others have ended.
abbrev pub after_join : Bool → ElementInstanceEntity → ElementInstanceEntity
after_join first e = record e { state = if first then e.state else completed }

-- What is joined is taken from the waiting executions in their order; all but the one at the front
-- are completed.
pub data Taken : Bool → List ElementInstanceEntity → List ElementInstanceEntity → Type 0 where
  done : {first : Bool} {ws : List ElementInstanceEntity} → Taken first ws []
  skip :
      {first : Bool} {e : ElementInstanceEntity} {ws js : List ElementInstanceEntity}
      → Taken false ws js
      → Taken first (e ∷ ws) js
  take :
      {first : Bool} {e : ElementInstanceEntity} {ws js : List ElementInstanceEntity}
      → Taken false ws js
      → Taken first (e ∷ ws) (after_join first e ∷ js)

took :
    (first : Bool) (e : ElementInstanceEntity) (ws js : List ElementInstanceEntity)
    → Taken false ws js
    → Taken first (e ∷ ws) (join_state first e ∷ js)
took true e ws js t = take t
took false e ws js t = take t

-- What the loop adds to the joined executions.
pub join_loop-Taken :
    (needed : ℕ) (first : Bool) (m : Counter) (joined waiting : List ElementInstanceEntity)
    → (join_loop first needed m joined waiting ≡ [])
      ⊎ ((js : List ElementInstanceEntity) × (join_loop first needed m joined waiting
            ≡ joined ++ js)
          × Taken first waiting js)
unfolding join_loop
join_loop-Taken needed first m joined [] = inl refl
join_loop-Taken needed first m joined (e ∷ es) = elim (Bool-cases (get (sent_by e) m == 0)) [
  | inl none_left ↦ rw none_left (elim (join_loop-Taken needed false m joined es) [
    | inl nothing ↦ inl nothing
    | inr (js, eq, t) ↦ inr (js, eq, skip t)
  ])
  | inr left ↦ elim (Bool-cases (length (joined ++ join_state first e ∷ []) == needed)) [
    | inl full ↦ rw (left, full) (inr (join_state first e ∷ [], refl, took first e es [] done))
    | inr more ↦
        rw (left, more)
          (elim (join_loop-Taken needed false (decrement (sent_by e) m)
            (joined ++ join_state first e ∷ []) es) [
              | inl nothing ↦ inl nothing
              | inr (js, eq, t) ↦ inr (
                join_state first e ∷ js,
                rw eq (append_assoc joined (join_state first e ∷ []) js),
                took first e es js t,
              )
            ])
  ]
]

append-ne-nil : (xs : List ElementInstanceEntity) (x : ElementInstanceEntity) → xs ++ x ∷ [] ≢ []
append-ne-nil [] x h = cc
append-ne-nil (y ∷ ys) x h = cc

-- A loop that can still get what it needs joins.
pub join_loop-ne-nil :
    (sources : List ℕ) (needed : ℕ) (first : Bool) (m : Counter)
    (joined waiting : List ElementInstanceEntity)
    → Balanced sources needed m joined
    → length joined < needed
    → ((a : ℕ) → get a m ≤ count a (senders waiting))
    → join_loop first needed m joined waiting ≢ []
unfolding join_loop
join_loop-ne-nil sources needed first m joined [] b short enough =
    absurd (omega (arith, b.summed, total-eq-zero m b.distinct (λ a. omega (arith, enough a))))
join_loop-ne-nil sources needed first m joined (e ∷ es) b short enough =
    elim (Bool-cases (get (sent_by e) m == 0)) [
      | inl none_left ↦ rw none_left (
          join_loop-ne-nil sources needed false m joined es b short (λ a. ground (arith, enough a)))
      | inr left ↦ elim (Bool-cases (length (joined ++ join_state first e ∷ []) == needed)) [
        | inl full ↦ rw (left, full) (append-ne-nil joined (join_state first e))
        | inr more ↦
            rw (left, more)
              (join_loop-ne-nil sources needed false (decrement (sent_by e) m)
                (joined ++ join_state first e ∷ []) es (taken left) (still_short left more)
                (λ a. ground (arith, enough a, get-decrement a (sent_by e) m)))
      ]
    ]
  where
    taken :
        (get (sent_by e) m == 0) ≡ false
        → Balanced sources needed (decrement (sent_by e) m) (joined ++ join_state first e ∷ [])
    taken left = take-Balanced sources needed m joined first e (ground arith) b

    still_short :
        (get (sent_by e) m == 0) ≡ false
        → (length (joined ++ join_state first e ∷ []) == needed) ≡ false
        → length (joined ++ join_state first e ∷ []) < needed
    still_short left more = ground (arith, (taken left).summed)

-- The executions that wait at a joining parallel gateway, and the gateway's sources.
pub count_all-Balanced :
    (sources : List ℕ) → Balanced sources (length sources) (count_all sources []) []
unfolding total get
count_all-Balanced sources = record {
  distinct = count_all-Distinct sources [] tt;
  counted = λ a. omega (arith, get-count_all a sources []);
  summed = omega (arith, total-count_all sources []);
}

-- The join that starts from the counts of the sources.
abbrev pub join_from : List ℕ → List ElementInstanceEntity → List ElementInstanceEntity
join_from sources waiting = join_loop true (length sources) (count_all sources []) [] waiting

pub join_from-Taken :
    (sources : List ℕ) (waiting : List ElementInstanceEntity)
    → Taken true waiting (join_from sources waiting)
join_from-Taken sources waiting =
    elim (join_loop-Taken (length sources) true (count_all sources []) [] waiting) [
      | inl nothing ↦ rw nothing done
      | inr (js, eq, t) ↦ rw eq t
    ]
