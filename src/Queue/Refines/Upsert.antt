-- ===== src/Queue/Refines/Upsert.antt =====
-- `Upsert` (engine/mem/process_instance_queue.go) against the contract.
use go_bpmn.Shared.{
  ◌≡◌, refl, sym, subst, some, pos, lookup, insert, lookup-insert, eq_iff, List, [], ◌∷◌, length,
}
use go_bpmn.Queue.Table.{ProcessInstanceQueueEntity, Tables, upsert}
use go_bpmn.Queue.Contract.{Key, Elements, Waiting, HasEnds, Represents}

same_ends :
    (t : Elements) (q r : ProcessInstanceQueueEntity) (ks : List Key)
    → r ≡ record q { parallelism = r.parallelism }
    → HasEnds t q ks
    → HasEnds t r ks
same_ends t q r ks eq h = subst (λ x. HasEnds t x ks) (sym eq) (by_keys ks h)
  where
    by_keys :
        (ls : List Key) → HasEnds t q ls → HasEnds t (record q { parallelism = r.parallelism }) ls
    by_keys [] e = e
    by_keys (l ∷ ls) e = e

upsert_stored :
    (entity q : ProcessInstanceQueueEntity) (s : Tables)
    → lookup entity.bpmn_process_id s.queues ≡ some q
    → upsert entity s ≡ (
      record entity { active_count = q.active_count; queued_count = q.queued_count },
      record s {
        queues =
            insert entity.bpmn_process_id (record q { parallelism = entity.parallelism }) s.queues;
      },
    )
unfolding upsert
upsert_stored entity q s h = rw (upsert, h) refl

-- Where the tables hold the queue of the BPMN process already, writing the queue of a new version changes
-- its parallelism alone, and the entity that was written has the counts of the queue afterwards.
pub upsert-Represents :
    (entity : ProcessInstanceQueueEntity) (s : Tables) (w : Waiting)
    → Represents s entity.bpmn_process_id w
    → Represents
        (upsert entity s).1
        entity.bpmn_process_id
        (record w { parallelism = entity.parallelism })
      × ((upsert entity s).0.active_count ≡ w.active)
      × ((upsert entity s).0.queued_count ≡ pos (length w.keys))
upsert-Represents entity s w r =
    let q = record r.queue { parallelism = entity.parallelism } in
    rw (upsert_stored entity r.queue s r.stored) (
      record {
        queue = q;
        stored =
            rw
              (
                lookup-insert entity.bpmn_process_id entity.bpmn_process_id q s.queues,
                (eq_iff entity.bpmn_process_id entity.bpmn_process_id).1 refl,
              )
              refl;
        named = r.named;
        parallelism = refl;
        active = r.active;
        size = r.size;
        ends = same_ends s.queue_elements r.queue q w.keys refl r.ends;
      },
      r.active,
      r.size,
    )
