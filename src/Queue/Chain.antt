-- ===== src/Queue/Chain.antt =====
-- The linked elements of a queue when one is added behind the last
-- (engine/internal/process_instance_queue.go, engine/mem/process_instance_queue.go).
use go_bpmn.Shared.{
  ◌≡◌, refl, ap, Bool, true, false, ◌&&◌, none, some, List, [], ◌∷◌, ◌++◌, ok, arith, ◌==◌, ==_iff,
  if◌then◌else◌, Bool-cases, inl, inr,
}
use go_bpmn.Entity.{valid_int4, valid_timestamp}
use go_bpmn.Store.Rows.{set_rows, find_row-replace_row, find_row-append, find_row-append_new}
use go_bpmn.Queue.Table.{
  ProcessInstanceQueueElementEntity, Tables, element_id, insert_element, update_element,
}
use go_bpmn.Queue.Contract.{Key, Elements, element_of, At, Linked, last}

abbrev pub same_key : Key → Key → Bool
same_key j k = (j.0 == k.0) && (j.1 == k.1)

-- The key of the element.
abbrev pub key_of : ProcessInstanceQueueElementEntity → Key
key_of x = (x.partition, x.id)

pub update_element-found :
    (x : ProcessInstanceQueueElementEntity) (s : Tables) {y : ProcessInstanceQueueElementEntity}
    → element_of s.queue_elements (key_of x) ≡ some y
    → (t : Elements) × (update_element x s ≡ ok (record s { queue_elements = t }))
      × ((k : Key)
          → element_of t k
            ≡ (if same_key (key_of x) k then some x else element_of s.queue_elements k))
unfolding update_element
update_element-found x s h =
    let (rows, eq, found) = find_row-replace_row element_id x (s.queue_elements x.partition) h in
    (
      set_rows x.partition rows s.queue_elements,
      rw (update_element, eq) refl,
      λ k. elim (Bool-cases (k.0 == x.partition)) [
        | inl here ↦ ground (arith, found k.1)
        | inr other ↦ ground arith
      ],
    )

pub insert_element-old :
    (x : ProcessInstanceQueueElementEntity) (s : Tables) (k : Key)
    {y : ProcessInstanceQueueElementEntity}
    → element_of s.queue_elements k ≡ some y
    → element_of (insert_element x s).queue_elements k ≡ some y
unfolding insert_element
insert_element-old x s k h = elim (Bool-cases (k.0 == x.partition)) [
  | inl here ↦ rw here (
      find_row-append element_id k.1 (s.queue_elements x.partition) x
        (rw ((==_iff k.0 x.partition).0 here) at h))
  | inr other ↦ rw other h
]

pub insert_element-new :
    (x : ProcessInstanceQueueElementEntity) (s : Tables)
    → element_of s.queue_elements (key_of x) ≡ none
    → element_of (insert_element x s).queue_elements (key_of x) ≡ some x
unfolding insert_element
insert_element-new x s h =
    rw ((==_iff x.partition x.partition).1 refl)
      (find_row-append_new element_id (s.queue_elements x.partition) x h)

-- The last of linked elements.
pub Linked-last :
    (t : Elements) (k : Key) (ks : List Key)
    → Linked t k ks
    → (x : ProcessInstanceQueueElementEntity) × (element_of t (last k ks) ≡ some x)
      × At (last k ks) x
      × (x.next_id.valid ≡ false)
Linked-last t k [] h = h
Linked-last t k (j ∷ js) (x, found, at, next, day, rest) = Linked-last t j js rest

-- Where the elements before the last one stay, and the last one is linked to a new one, the list is
-- longer by one.
pub Linked-append :
    (t u : Elements) (k : Key) (ks : List Key) (n : Key)
    (old new : ProcessInstanceQueueElementEntity)
    → Linked t k ks
    → element_of t (last k ks) ≡ some old
    → ((j : Key) (x : ProcessInstanceQueueElementEntity)
        → element_of t j ≡ some x
        → same_key (last k ks) j ≡ false
        → element_of u j ≡ some x)
    → element_of u (last k ks)
      ≡ some (record old { next_partition = valid_timestamp n.0; next_id = valid_int4 n.1 })
    → element_of u n ≡ some new
    → At n new
    → new.next_id.valid ≡ false
    → Linked u k (ks ++ n ∷ [])
Linked-append t u k [] n old new (x, found, at, ends) is_old keeps linked added its fresh = (
  record old { next_partition = valid_timestamp n.0; next_id = valid_int4 n.1 },
  linked,
  (cc (at.0, found, is_old), cc (at.1, found, is_old)),
  refl,
  refl,
  (new, added, its, fresh),
)
Linked-append t u k (j ∷ js) n old new (x, found, at, next, day, rest) is_old keeps linked added its
      fresh =
    let (z, is_last, _, ends) = Linked-last t j js rest in
    (
      x,
      keeps k x found (not_last z is_last ends),
      at,
      next,
      day,
      Linked-append t u j js n old new rest is_old keeps linked added its fresh,
    )
  where
    not_last :
        (z : ProcessInstanceQueueElementEntity)
        → element_of t (last j js) ≡ some z
        → z.next_id.valid ≡ false
        → same_key (last j js) k ≡ false
    not_last z is_last ends = elim (Bool-cases (same_key (last j js) k)) [
      | inr other ↦ other
      | inl here ↦ absurd (clash (keys (last j js) k here))
    ]
      where
        keys : (a b : Key) → same_key a b ≡ true → a ≡ b
        keys a b h = ground arith

        clash : last j js ≡ k → ⊥
        clash eq = cc (eq, is_last, found, ends, ap (λ y. y.valid) next)
