-- ===== src/Queue/Refines/Add.antt =====
-- The addition of an element behind the others, or as the first one
-- (`enqueueProcessInstance`, engine/internal/process_instance_queue.go).
use go_bpmn.Shared.{
  ◌≡◌, refl, ap, sym, subst, ◌∙◌, true, false, none, some, List, [], ◌∷◌, ◌++◌, ok, arith,
  if◌then◌else◌, Bool-cases, inl, inr,
}
use go_bpmn.Entity.{ProcessInstanceEntity, valid_int4, valid_timestamp}
use go_bpmn.Queue.Table.{
  ProcessInstanceQueueEntity, ProcessInstanceQueueElementEntity, Tables, must_enqueue,
  insert_element, update_element,
}
use go_bpmn.Queue.Operations.{single_element, add_element}
use go_bpmn.Queue.Contract.{Key, Elements, element_of, last, HasEnds}
use go_bpmn.Queue.Chain.{
  same_key, key_of, update_element-found, insert_element-old, insert_element-new, Linked-last,
  Linked-append,
}
use go_bpmn.Queue.Refines.Steps.{select_element-found, longer}

abbrev pub instance_key : ProcessInstanceEntity → Key
instance_key p = (p.partition, p.id)

-- What the addition of an element returns, where the process instance waits.
pub record Added (p : ProcessInstanceEntity) (q : ProcessInstanceQueueEntity) (s : Tables)
    (ks : List Key) : Type 0 where
  pub queue : ProcessInstanceQueueEntity
  pub tables : Tables
  pub result : add_element p q s ≡ ok (queue, tables)
  pub kept : queue ≡ record q { head_id = queue.head_id; head_partition = queue.head_partition }
  pub others : tables ≡ record s { queue_elements = tables.queue_elements }
  pub head : queue.head_id.valid ≡ true
  pub ends : HasEnds tables.queue_elements (longer p queue) (ks ++ instance_key p ∷ [])

pub add_first :
    (p : ProcessInstanceEntity) (q : ProcessInstanceQueueEntity) (s : Tables)
    → HasEnds s.queue_elements q []
    → must_enqueue q ≡ true
    → element_of s.queue_elements (instance_key p) ≡ none
    → Added p q s []
unfolding add_element insert_element
add_first p q s (no_head, no_tail) full new = record {
  queue = record q { head_partition = valid_timestamp p.partition; head_id = valid_int4 p.id };
  tables = insert_element (single_element p) s;
  result = simp (no_tail, full);
  kept = refl;
  others = refl;
  head = refl;
  ends = (
    refl,
    refl,
    refl,
    refl,
    (single_element p, insert_element-new (single_element p) s new, (refl, refl), refl),
  );
}

-- The last element, linked to the new one.
abbrev linked_to :
    ProcessInstanceEntity → ProcessInstanceQueueElementEntity → ProcessInstanceQueueElementEntity
linked_to p old = record old {
  next_partition = valid_timestamp p.partition;
  next_id = valid_int4 p.id;
}

abbrev linked_from :
    ProcessInstanceEntity → ProcessInstanceQueueElementEntity → ProcessInstanceQueueElementEntity
linked_from p old = record (single_element p) {
  prev_partition = valid_timestamp old.partition;
  prev_id = valid_int4 old.id;
}

pub same_key_equal : (a b : Key) → same_key a b ≡ true → a ≡ b
same_key_equal a b h = ground arith

other_key :
    (t : Elements) (l n : Key) {x : ProcessInstanceQueueElementEntity}
    → element_of t l ≡ some x
    → element_of t n ≡ none
    → same_key l n ≡ false
other_key t l n is_there is_new = elim (Bool-cases (same_key l n)) [
  | inr other ↦ other
  | inl here ↦ absurd (clash (same_key_equal l n here))
]
  where
    clash : l ≡ n → ⊥
    clash eq = cc (eq, is_there, is_new)

self : (l : Key) → same_key l l ≡ true
self l = ground arith

add_behind :
    (p : ProcessInstanceEntity) (q : ProcessInstanceQueueEntity) (s : Tables) (k : Key)
    (ks : List Key) (old : ProcessInstanceQueueElementEntity) (t : Elements)
    → HasEnds s.queue_elements q (k ∷ ks)
    → element_of s.queue_elements (instance_key p) ≡ none
    → element_of s.queue_elements (last k ks) ≡ some old
    → update_element (linked_to p old) s ≡ ok (record s { queue_elements = t })
    → ((j : Key)
        → element_of t j ≡ (
            if same_key (last k ks) j
            then some (linked_to p old)
            else element_of s.queue_elements j))
    → Added p q s (k ∷ ks)
unfolding add_element insert_element
add_behind p q s k ks old t (head, head_day, tail, tail_day, linked) new is_last updated found =
    record {
      queue = q;
      tables = insert_element (linked_from p old) (record s { queue_elements = t });
      result = simp (
        ap (λ x. x.valid) tail,
        select_element-found q.tail_partition.time q.tail_id.int32 s {x = old}
            (rw (ap (λ x. x.time) tail_day, ap (λ x. x.int32) tail) is_last),
        updated,
      );
      kept = refl;
      others = refl;
      head = ap (λ x. x.valid) head;
      ends = (
        head,
        head_day,
        ap (λ j. valid_int4 j.1) (sym (last-append k ks (instance_key p))),
        ap (λ j. valid_timestamp j.0) (sym (last-append k ks (instance_key p))),
        Linked-append s.queue_elements _ k ks (instance_key p) old (linked_from p old) linked
            is_last
            (λ j x is_there other.
              insert_element-old (linked_from p old) (record s { queue_elements = t }) j
                (found j ∙ rw other is_there))
            (insert_element-old (linked_from p old) (record s { queue_elements = t }) (last k ks)
              (found (last k ks) ∙ rw (self (last k ks)) refl))
            (insert_element-new (linked_from p old) (record s { queue_elements = t })
              (found (instance_key p)
                ∙ rw (other_key s.queue_elements (last k ks) (instance_key p) is_last new) new))
            (refl, refl) refl,
      );
    }
  where
    last-append : (j : Key) (js : List Key) (l : Key) → last j (js ++ l ∷ []) ≡ l
    last-append j [] l = refl
    last-append j (i ∷ is) l = last-append i is l

pub add_last :
    (p : ProcessInstanceEntity) (q : ProcessInstanceQueueEntity) (s : Tables) (k : Key)
    (ks : List Key)
    → HasEnds s.queue_elements q (k ∷ ks)
    → element_of s.queue_elements (instance_key p) ≡ none
    → Added p q s (k ∷ ks)
add_last p q s k ks ends new =
    let (old, is_last, at, _) = Linked-last s.queue_elements k ks ends.4 in
    let here = own_key old (last k ks) at in
    let (t, updated, found) =
      update_element-found (linked_to p old) s {y = old}
        (subst (λ j. element_of s.queue_elements j ≡ some old) (sym here) is_last) in
    add_behind p q s k ks old t ends new is_last updated (λ j.
      subst
        (λ l.
          element_of t j
          ≡ (if same_key l j then some (linked_to p old) else element_of s.queue_elements j))
        here (found j))
  where
    own_key :
        (x : ProcessInstanceQueueElementEntity) (j : Key)
        → (x.partition ≡ j.0) × (x.id ≡ j.1)
        → key_of x ≡ j
    own_key x j (day, id) = cc (day, id)
