-- ===== src/Queue/Fifo.antt =====
-- What the contract of the queue counts (engine/internal/process_instance_queue.go).
use go_bpmn.Shared.{
  ==_iff, length, length-append, ◌+◌, ◌<◌, ◌≡◌, refl, ap, sym, ◌∙◌, true, not, ◌||◌, Option, none,
  some, List, [], ◌∷◌, ◌++◌, ℤ, pos, ◌+ℤ◌, ◌-ℤ◌, ◌≤ℤ◌, is_pos, is_neg, int_laws, pos_part, neg_part,
  arith, if◌then◌else◌, Bool-cases, inl, inr,
}
use go_bpmn.Entity.Task.{TaskEntity}
use go_bpmn.Store.Rows.{Partitions}
use go_bpmn.Queue.Table.{less, add_task}
use go_bpmn.Queue.Contract.{Key, Waiting, has_capacity, arrive, waits, leave, Started}

-- No more are active than a positive parallelism allows.
abbrev pub Bounded : Waiting → Type 0
Bounded w = is_pos w.parallelism ≡ true → w.active ≤ℤ w.parallelism

abbrev pub keys_of : Option Key → List Key
keys_of none = []
keys_of (some k) = k ∷ []

negative : (x : ℤ) → is_neg x ≡ true → (pos_part x ≡ 0) × (0 < neg_part x)
negative x h = ground arith

module _ (w : Waiting) where
  pub arrive-keys :
      (k : Key) (ks : List Key)
      → (arrive k (record w { keys = ks })).keys
        ≡ ks ++ (if waits (record w { keys = ks }) then k ∷ [] else [])
  arrive-keys k [] = elim (Bool-cases (has_capacity w)) [
    | inl free ↦ rw free refl
    | inr full ↦ rw full refl
  ]
  arrive-keys k (j ∷ js) = refl

  pub arrive-Bounded :
      (k : Key) (ks : List Key) → Bounded w → Bounded (arrive k (record w { keys = ks }))
  arrive-Bounded k [] b = elim (Bool-cases (has_capacity w)) [
    | inl free ↦ rw free (λ h. omega (int_laws, room w.active w.parallelism h free))
    | inr full ↦ rw full b
  ]
    where
      room : (a m : ℤ) → is_pos m ≡ true → (not (is_pos m) || less a m) ≡ true → (a +ℤ pos 1) ≤ℤ m
      room a m h free =
          let below : less a m ≡ true = ground arith in omega (int_laws, negative (a -ℤ m) below)
  arrive-Bounded k (j ∷ js) b = b

  pub leave-keys :
      (ks : List Key)
      → ks ≡ keys_of (leave (record w { keys = ks })).1 ++ (leave (record w { keys = ks })).0.keys
  leave-keys [] = refl
  leave-keys (k ∷ ks) = elim (Bool-cases (has_capacity (record w { active = w.active -ℤ pos 1 }))) [
    | inl free ↦ rw free refl
    | inr full ↦ rw full refl
  ]

  pub leave-Bounded : (ks : List Key) → Bounded w → Bounded (leave (record w { keys = ks })).0
  leave-Bounded [] b = λ h. omega (int_laws, b h)
  leave-Bounded (k ∷ ks) b =
      elim (Bool-cases (has_capacity (record w { active = w.active -ℤ pos 1 }))) [
        | inl free ↦ rw free (λ h. omega (int_laws, b h))
        | inr full ↦ rw full (λ h. omega (int_laws, b h))
      ]

  pub arrive-active :
      (k : Key) (ks : List Key)
      → (arrive k (record w { keys = ks })).active
        ≡ (if waits (record w { keys = ks }) then w.active else w.active +ℤ pos 1)
  arrive-active k [] = elim (Bool-cases (has_capacity w)) [
    | inl free ↦ rw free refl
    | inr full ↦ rw full refl
  ]
  arrive-active k (j ∷ js) = refl

  pub leave-active :
      (ks : List Key)
      → (leave (record w { keys = ks })).0.active
        ≡ (w.active -ℤ pos 1) +ℤ pos (length (keys_of (leave (record w { keys = ks })).1))
  leave-active [] = omega int_laws
  leave-active (k ∷ ks) =
      elim (Bool-cases (has_capacity (record w { active = w.active -ℤ pos 1 }))) [
        | inl free ↦ rw free refl
        | inr full ↦ rw full (omega int_laws)
      ]

add_task-more : (t : TaskEntity) (ts : Partitions TaskEntity) → add_task t ts ≡ ts → ⊥
add_task-more t ts eq =
    let longer = ap (λ us. length (us t.partition)) eq in
    let added : length (ts t.partition ++ record t { id = length (ts t.partition) + 1 } ∷ [])
        ≡ length (ts t.partition) =
      rw ((==_iff t.partition t.partition).1 refl) at longer in
    omega (
      arith,
      added,
      length-append (ts t.partition) (record t { id = length (ts t.partition) + 1 } ∷ []),
    )

-- The tasks tell how many process instances were started.
pub Started-count :
    (o o' : Option Key) (ts us : Partitions TaskEntity)
    → Started o ts us
    → Started o' ts us
    → length (keys_of o) ≡ length (keys_of o')
Started-count none none ts us h h' = refl
Started-count none (some k) ts us h (t, starts, eq) = absurd (add_task-more t ts (sym eq ∙ h))
Started-count (some k) none ts us (t, starts, eq) h = absurd (add_task-more t ts (sym eq ∙ h))
Started-count (some k) (some j) ts us h h' = refl
