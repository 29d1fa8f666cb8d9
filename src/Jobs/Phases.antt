-- ===== src/Jobs/Phases.antt =====
-- The life of a job: its state agrees with its lock and its completion, whatever happens to the table of jobs,
-- and what is completed stays as it is.
pub mod Lives
use go_bpmn.Shared.{
  ℕ, ◌+◌, ◌≡◌, refl, ap, subst, sym, ◌∙◌, ◌⊎◌, Bool, true, false, not, Option, none, some, List, ℤ,
  pos, is_pos, inl, inr, Bool-cases, Option-cases, ltb, if◌then◌else◌, arith, some-injective,
  eq_iff, str_eq,
}
use go_bpmn.Enum.WorkState.{
  WorkState, unset, canceled, caused_incident, caused_retry, created, done, due, locked,
}
use go_bpmn.Entity.{Text}
use go_bpmn.Entity.Job.{JobEntity, Job}
use go_bpmn.Store.Locking.{Table}
use go_bpmn.Store.Partitions.Kept.{Kept, lock_table-Kept, unlock_table-Kept}
use go_bpmn.Store.Partitions.Numbered.{
  IsTable, insert_row-IsTable, update_row-IsTable, Kept-IsTableFrom,
}
use go_bpmn.Store.Partitions.Each.{
  Each, insert_row-Each, update_row-Each, Kept-Each, select_row-holds,
}
use go_bpmn.Jobs.Repository.{
  JobTable, LockJobsCmd, UnlockJobsCmd, is_free, mark, is_held, release, insert, select, update,
  lock, unlock, lock_jobs, unlock_jobs, set_id,
}
use go_bpmn.Jobs.Complete.{
  JobStore, Ending, check_job, cancel_job, end_job, end_state, ended, retry_of, follow_up,
}
use go_bpmn.Jobs.Steps.{
  IsFresh, Step, inserts, locks, unlocks, cancels, ends, Run, stop, then_step, with_error,
}

-- The lock, the worker and the completion that go with a state. A job in the store is never shown as due.
abbrev pub Phase : WorkState → Bool → Bool → Bool → Type 0
Phase unset l b c = ⊥
Phase due l b c = ⊥
Phase created l b c = (l ≡ false) × (b ≡ false) × (c ≡ false)
Phase locked l b c = (l ≡ true) × (b ≡ true) × (c ≡ false)
Phase canceled l b c = (l ≡ true) × (b ≡ true) × (c ≡ true)
Phase caused_incident l b c = (l ≡ true) × (b ≡ true) × (c ≡ true)
Phase caused_retry l b c = (l ≡ true) × (b ≡ true) × (c ≡ true)
Phase done l b c = (l ≡ true) × (b ≡ true) × (c ≡ true)

abbrev pub IsPhased : JobEntity → Type 0
IsPhased e = Phase e.state e.locked_at.valid e.locked_by.valid e.completed_at.valid

abbrev pub partition_of : JobEntity → ℕ
partition_of e = e.partition

abbrev pub id_of : JobEntity → ℕ
id_of e = e.id

pub record IsJobTable (t : JobTable) : Type 0 where
  pub is_table : IsTable partition_of id_of t
  pub is_phased : Each IsPhased t

-- What becomes of a job that is in one of its phases.
pub record Becomes (x y : JobEntity) : Type 0 where
  pub same_partition : y.partition ≡ x.partition
  pub same_id : y.id ≡ x.id
  pub stays_phased : IsPhased x → IsPhased y
  pub stays_completed : IsPhased x → x.completed_at.valid ≡ true → y ≡ x

Becomes-refl : (x : JobEntity) → Becomes x x
Becomes-refl x = record {
  same_partition = refl;
  same_id = refl;
  stays_phased = λ p. p;
  stays_completed = λ p c. refl;
}

-- A job without a lock is not completed; one that is held and not completed is locked.
unlocked_open : (s : WorkState) (l b c : Bool) → Phase s l b c → l ≡ false → c ≡ false
unlocked_open unset l b c p h = absurd p
unlocked_open due l b c p h = absurd p
unlocked_open created l b c p h = p.2
unlocked_open locked l b c p h = p.2
unlocked_open canceled l b c p h = absurd (cc (p.0, h))
unlocked_open caused_incident l b c p h = absurd (cc (p.0, h))
unlocked_open caused_retry l b c p h = absurd (cc (p.0, h))
unlocked_open done l b c p h = absurd (cc (p.0, h))

free_unlocked :
    (cmd : LockJobsCmd) (now : ℕ) (x : JobEntity)
    → is_free cmd now x ≡ true
    → x.locked_at.valid ≡ false
unfolding is_free
free_unlocked cmd now x h = ground (arith, h)

pub mark-Becomes :
    (cmd : LockJobsCmd) (now : ℕ) (x : JobEntity)
    → is_free cmd now x ≡ true
    → Becomes x (mark cmd now x)
unfolding mark
mark-Becomes cmd now x h =
    let open_job = λ (p : IsPhased x).
      unlocked_open x.state x.locked_at.valid x.locked_by.valid x.completed_at.valid p
        (free_unlocked cmd now x h) in
    record {
      same_partition = refl;
      same_id = refl;
      stays_phased = λ p. (refl, refl, open_job p);
      stays_completed = λ p c. absurd (cc (open_job p, c));
    }

held_open :
    (cmd : UnlockJobsCmd) (x : JobEntity) → is_held cmd x ≡ true → x.completed_at.valid ≡ false
unfolding is_held
held_open cmd x h = ground (arith, h)

pub release-Becomes :
    (cmd : UnlockJobsCmd) (x : JobEntity) → is_held cmd x ≡ true → Becomes x (release x)
unfolding release
release-Becomes cmd x h = record {
  same_partition = refl;
  same_id = refl;
  stays_phased = λ p. (refl, refl, held_open cmd x h);
  stays_completed = λ p c. absurd (cc (held_open cmd x h, c));
}

lock-Kept : (cmd : LockJobsCmd) (now : ℕ) (t : JobTable) → Kept Becomes t (lock cmd now t).0
unfolding lock is_free mark
lock-Kept cmd now t =
    lock_table-Kept Becomes Becomes-refl (is_free cmd now) (mark cmd now) (mark-Becomes cmd now)
      cmd.partition cmd.limit 0 t

pub lock_jobs-Kept :
    (cmd : LockJobsCmd) (now : ℕ) (t : JobTable) → Kept Becomes t (lock_jobs cmd now t).0
unfolding lock_jobs
lock_jobs-Kept cmd now t =
    lock-Kept (if is_pos cmd.limit then cmd else record cmd { limit = pos 1 }) now t

pub unlock_jobs-Kept : (cmd : UnlockJobsCmd) (t : JobTable) → Kept Becomes t (unlock_jobs cmd t).0
unfolding unlock_jobs unlock is_held release
unlock_jobs-Kept cmd t =
    unlock_table-Kept Becomes Becomes-refl (is_held cmd) release (release-Becomes cmd) cmd.partition
      t

pub Kept-IsJobTable : (t u : JobTable) → Kept Becomes t u → IsJobTable t → IsJobTable u
Kept-IsJobTable t u k v = record {
  is_table =
      Kept-IsTableFrom partition_of id_of Becomes (λ x y r. (r.same_partition, r.same_id)) 0 t u k
        v.is_table;
  is_phased = Kept-Each IsPhased Becomes (λ x y r. r.stays_phased) t u k v.is_phased;
}

pub fresh-IsPhased : (e : JobEntity) (n : ℕ) → IsFresh e → IsPhased (set_id n e)
fresh-IsPhased e n f = rw f.is_created (f.is_unlocked, f.has_no_worker, f.is_open)

pub insert-IsJobTable :
    (e : JobEntity) (t : JobTable) → IsFresh e → IsJobTable t → IsJobTable (insert e t).0
unfolding insert
insert-IsJobTable e t f v = record {
  is_table = insert_row-IsTable partition_of id_of set_id e t (λ n. refl) (λ n. refl) v.is_table;
  is_phased =
      insert_row-Each IsPhased set_id e.partition e t (λ n. fresh-IsPhased e n f) v.is_phased;
}

pub update-IsJobTable :
    (e : JobEntity) (t u : JobTable)
    → IsPhased e
    → update e t ≡ some u
    → IsJobTable t
    → IsJobTable u
unfolding update
update-IsJobTable e t u p eq v = record {
  is_table = update_row-IsTable partition_of id_of e t u eq v.is_table;
  is_phased = update_row-Each IsPhased id_of e.partition e t u p eq v.is_phased;
}
