-- ===== src/Graph/Join/Invariant.antt =====
-- What the loop of `joinParallelGateway` keeps (engine/internal/graph.go).
use go_bpmn.Shared.{
  ℕ, ◌+◌, ◌<◌, ◌≡◌, ◌≢◌, refl, Bool, true, false, List, [], ◌∷◌, ◌++◌, map, arith, ◌==◌,
  if◌then◌else◌, count, count-append, length, length-append, Bool-cases, inl, inr,
}
use mathlib.Core.List.{map-append}
use go_bpmn.Entity.{ElementInstanceEntity}
use go_bpmn.Graph.Join.Counter.{
  Counter, Distinct, get, decrement, total, get-decrement, total-decrement, get-le-total,
  decrement-Distinct,
}
use go_bpmn.Graph.Join.Loop.{sent_by, join_state, join_loop}

abbrev pub senders : List ElementInstanceEntity → List ℕ
senders = map sent_by

-- What is joined and what is still to come make up the sources.
pub record Balanced (sources : List ℕ) (needed : ℕ) (m : Counter)
    (joined : List ElementInstanceEntity) : Type 0 where
  pub distinct : Distinct m
  pub counted : (a : ℕ) → get a m + count a (senders joined) ≡ count a sources
  pub summed : total m + length joined ≡ needed

sent_by-join_state :
    (first : Bool) (e : ElementInstanceEntity) → sent_by (join_state first e) ≡ sent_by e
sent_by-join_state true e = refl
sent_by-join_state false e = refl

count-senders :
    (a : ℕ) (first : Bool) (e : ElementInstanceEntity) (joined : List ElementInstanceEntity)
    → count a (senders (joined ++ join_state first e ∷ []))
      ≡ count a (senders joined) + (if sent_by e == a then 1 else 0)
count-senders a first e joined = rw (map-append sent_by joined (join_state first e ∷ [])) (
    rw (count-append a (senders joined) (senders (join_state first e ∷ [])))
      (rw (sent_by-join_state first e) (ground arith)))

pub take-Balanced :
    (sources : List ℕ) (needed : ℕ) (m : Counter) (joined : List ElementInstanceEntity)
    (first : Bool) (e : ElementInstanceEntity)
    → 0 < get (sent_by e) m
    → Balanced sources needed m joined
    → Balanced sources needed (decrement (sent_by e) m) (joined ++ join_state first e ∷ [])
take-Balanced sources needed m joined first e h b = record {
  distinct = decrement-Distinct (sent_by e) m b.distinct;
  counted = λ a.
      ground (arith, b.counted a, get-decrement a (sent_by e) m, count-senders a first e joined);
  summed = omega (
    arith,
    total-decrement (sent_by e) m h,
    length-append joined (join_state first e ∷ []),
    b.summed,
  );
}

-- A join that is full has each source as often as it has incoming sequence flows.
full-counted :
    (sources : List ℕ) (needed : ℕ) (m : Counter) (joined : List ElementInstanceEntity)
    → Balanced sources needed m joined
    → length joined ≡ needed
    → (a : ℕ) → count a (senders joined) ≡ count a sources
full-counted sources needed m joined b h a = omega (arith, b.counted a, b.summed, get-le-total a m)

pub join_loop-counted :
    (sources : List ℕ) (needed : ℕ) (first : Bool) (m : Counter)
    (joined waiting : List ElementInstanceEntity)
    → Balanced sources needed m joined
    → join_loop first needed m joined waiting ≢ []
    → (a : ℕ) → count a (senders (join_loop first needed m joined waiting)) ≡ count a sources
unfolding join_loop
join_loop-counted sources needed first m joined [] b h a = absurd (h refl)
join_loop-counted sources needed first m joined (e ∷ es) b h a =
    elim (Bool-cases (get (sent_by e) m == 0)) [
      | inl none_left ↦
          rw none_left (join_loop-counted sources needed false m joined es b (rw none_left at h) a)
      | inr left ↦ elim (Bool-cases (length (joined ++ join_state first e ∷ []) == needed)) [
        | inl full ↦ rw (left, full) (full-counted sources needed _ _ (taken left) (ground arith) a)
        | inr more ↦
            rw (left, more)
              (join_loop-counted sources needed false _ _ es (taken left) (rw (left, more) at h) a)
      ]
    ]
  where
    taken :
        (get (sent_by e) m == 0) ≡ false
        → Balanced sources needed (decrement (sent_by e) m) (joined ++ join_state first e ∷ [])
    taken left = take-Balanced sources needed m joined first e (ground arith) b
