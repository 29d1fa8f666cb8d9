-- ===== src/Jobs/Phases/Lives.antt =====
-- Runs of steps on the table of jobs.
use go_bpmn.Shared.{
  ==_iff, ℕ, ◌≡◌, refl, ap, subst, sym, ◌∙◌, ◌⊎◌, Bool, true, false, none, some, List, inl, inr,
  Bool-cases, Option-cases, ltb, ◌==◌, if◌then◌else◌, arith, some-injective, String,
}
use go_bpmn.Enum.WorkState.{
  WorkState, unset, canceled, caused_incident, caused_retry, created, done, due, locked,
}
use go_bpmn.Entity.{Text, valid_timestamp}
use go_bpmn.Entity.Job.{JobEntity, Job}
use go_bpmn.Store.Partitions.Kept.{Kept}
use go_bpmn.Store.Partitions.Each.{select_row-holds}
use go_bpmn.Store.Partitions.Numbered.{select_row-keys}
use go_bpmn.Store.Partitions.Found.{select_row-insert_row, select_row-update_row, select_row-Kept}
use go_bpmn.Jobs.Repository.{JobTable, insert, select, update, lock_jobs, unlock_jobs, set_id}
use go_bpmn.Jobs.Complete.{
  JobStore, Ending, check_job, cancel_job, end_job, end_state, ended, retry_of, follow_up,
}
use go_bpmn.Jobs.Steps.{
  IsFresh, Step, inserts, locks, unlocks, cancels, ends, Run, stop, then_step, with_error,
}
use go_bpmn.Jobs.Phases.{
  Phase, IsPhased, partition_of, id_of, IsJobTable, Becomes, lock_jobs-Kept, unlock_jobs-Kept,
  Kept-IsJobTable, insert-IsJobTable, update-IsJobTable,
}

retry-IsFresh : (e : Ending) (job : JobEntity) → IsFresh (retry_of e job)
unfolding retry_of
retry-IsFresh e job = record {
  is_created = refl;
  is_unlocked = refl;
  has_no_worker = refl;
  is_open = refl;
}

-- A job that may be completed holds a lock and is not completed.
pub checked :
    (worker : String) (job : JobEntity)
    → check_job worker job ≡ none
    → (job.locked_at.valid ≡ true) × (job.completed_at.valid ≡ false)
unfolding check_job
checked worker job h = (ground (arith, h), ground (arith, h))

locked_worker : (s : WorkState) (l b c : Bool) → Phase s l b c → l ≡ true → b ≡ true
locked_worker unset l b c p h = absurd p
locked_worker due l b c p h = absurd p
locked_worker created l b c p h = absurd (cc (p.0, h))
locked_worker locked l b c p h = p.1
locked_worker canceled l b c p h = p.1
locked_worker caused_incident l b c p h = p.1
locked_worker caused_retry l b c p h = p.1
locked_worker done l b c p h = p.1

end-Phase :
    (e : Ending) (job : JobEntity) (l b : Bool)
    → l ≡ true
    → b ≡ true
    → Phase (end_state e job) l b true
unfolding end_state
end-Phase e job l b hl hb = elim (Bool-cases job.error.valid) [
  | inr ok ↦ simp ok (hl, hb, refl)
  | inl failed ↦ elim (Bool-cases (ltb job.retry_count e.retry_limit)) [
    | inl retries ↦ simp (failed, retries) (hl, hb, refl)
    | inr spent ↦ simp (failed, spent) (hl, hb, refl)
  ]
]

ended-IsPhased :
    (e : Ending) (job : JobEntity)
    → check_job e.worker_id job ≡ none
    → IsPhased job
    → IsPhased (ended e job)
unfolding ended
ended-IsPhased e job h p =
    end-Phase e job job.locked_at.valid job.locked_by.valid (checked e.worker_id job h).0 (
      locked_worker job.state job.locked_at.valid job.locked_by.valid job.completed_at.valid p
        (checked e.worker_id job h).0)

-- The job was updated, and what follows up on it was inserted.
pub end_job-updated :
    (e : Ending) (job : JobEntity) (s t : JobStore)
    → end_job e job s ≡ some t
    → (jobs : JobTable) × (update (ended e job) s.jobs ≡ some jobs)
      × (t ≡ follow_up e job (record s { jobs = jobs }))
unfolding end_job
end_job-updated e job s t h = elim (Option-cases (update (ended e job) s.jobs)) [
  | inl missing ↦ absurd (cc (rw (end_job, missing) at h))
  | inr (jobs, found) ↦ (jobs, found, sym (some-injective (rw (end_job, found) at h)))
]

pub follow_up-IsJobTable :
    (e : Ending) (job : JobEntity) (s : JobStore)
    → IsJobTable s.jobs
    → IsJobTable (follow_up e job s).jobs
unfolding follow_up
follow_up-IsJobTable e job s v = elim (Bool-cases job.error.valid) [
  | inr ok ↦ simp ok v
  | inl failed ↦ elim (Bool-cases (ltb job.retry_count e.retry_limit)) [
    | inl retries ↦
        simp (failed, retries) (insert-IsJobTable (retry_of e job) s.jobs (retry-IsFresh e job) v)
    | inr spent ↦ simp (failed, spent) v
  ]
]

select-IsPhased :
    (partition id : ℕ) (t : JobTable) (job : JobEntity)
    → IsJobTable t
    → select partition id t ≡ some job
    → IsPhased job
unfolding select
select-IsPhased partition id t job v h =
    select_row-holds IsPhased id_of partition id t v.is_phased h

check_with_error :
    (worker : String) (job : JobEntity) (error : Text)
    → check_job worker job ≡ none
    → check_job worker (with_error job error) ≡ none
unfolding check_job
check_with_error worker job error h = h

canceled-IsPhased :
    (now : ℕ) (worker : String) (job : JobEntity)
    → check_job worker job ≡ none
    → IsPhased job
    → IsPhased (record job { completed_at = valid_timestamp now; state = canceled })
canceled-IsPhased now worker job h p =
    let (held, is_open) = checked worker job h in
    (
      held,
      locked_worker job.state job.locked_at.valid job.locked_by.valid job.completed_at.valid p held,
      refl,
    )

pub ended-IsJobTable :
    (partition id : ℕ) (e : Ending) (job : JobEntity) (error : Text) (t u : JobTable)
    → select partition id t ≡ some job
    → check_job e.worker_id job ≡ none
    → update (ended e (with_error job error)) t ≡ some u
    → IsJobTable t
    → IsJobTable u
ended-IsJobTable partition id e job error t u found passed updated v =
    update-IsJobTable (ended e (with_error job error)) t u
      (ended-IsPhased e (with_error job error) (check_with_error e.worker_id job error passed)
        (select-IsPhased partition id t job v found))
      updated v

Step-IsJobTable :
    {s t : JobStore} {xs : List Job} → Step s t xs → IsJobTable s.jobs → IsJobTable t.jobs
Step-IsJobTable {s} (inserts e fresh) v = insert-IsJobTable e s.jobs fresh v
Step-IsJobTable {s} (locks cmd now) v =
    Kept-IsJobTable s.jobs (lock_jobs cmd now s.jobs).0 (lock_jobs-Kept cmd now s.jobs) v
Step-IsJobTable {s} (unlocks cmd) v =
    Kept-IsJobTable s.jobs (unlock_jobs cmd s.jobs).0 (unlock_jobs-Kept cmd s.jobs) v
Step-IsJobTable {s} (cancels partition id now worker job jobs found passed eq) v =
    unfold cancel_job in
    update-IsJobTable _ s.jobs jobs
      (canceled-IsPhased now worker job passed (select-IsPhased partition id s.jobs job v found)) eq
      v
Step-IsJobTable {s} {t} (ends partition id e job error _ found passed eq) v =
    let (jobs, updated, rest) = end_job-updated e (with_error job error) s t eq in
    subst (λ (w : JobStore). IsJobTable w.jobs) (sym rest)
      (follow_up-IsJobTable e (with_error job error) (record s { jobs = jobs })
        (update-IsJobTable (ended e (with_error job error)) s.jobs jobs
          (ended-IsPhased e (with_error job error) (check_with_error e.worker_id job error passed)
            (select-IsPhased partition id s.jobs job v found))
          updated v))

-- Whatever is done to the jobs, in whatever order, the table of jobs stays one: each job is found under its day
-- and a number of its own, counted from 1 in the order of insertion, and its state agrees with its lock and its
-- completion.
pub Run-IsJobTable :
    {s t : JobStore} {xs : List Job} → IsJobTable s.jobs → Run s t xs → IsJobTable t.jobs
Run-IsJobTable v stop = v
Run-IsJobTable v (then_step r st) = Step-IsJobTable st (Run-IsJobTable v r)

-- The entity that stays as it is.
abbrev Selects : JobStore → ℕ → ℕ → JobEntity → Type 0
Selects s partition id x = select partition id s.jobs ≡ some x

select-Kept :
    (partition id : ℕ) (t u : JobTable) (x : JobEntity)
    → Kept Becomes t u
    → IsJobTable t
    → x.completed_at.valid ≡ true
    → select partition id t ≡ some x
    → select partition id u ≡ some x
unfolding select
select-Kept partition id t u x k v c h =
    let (y, found, r) = select_row-Kept id_of Becomes (λ a b q. q.same_id) partition id t u k h in
    found
    ∙ ap some (r.stays_completed (select_row-holds IsPhased id_of partition id t v.is_phased h) c)

select_updated :
    (partition id k j : ℕ) (job y : JobEntity) (t u : JobTable) (x : JobEntity)
    → select k j t ≡ some job
    → job.completed_at.valid ≡ false
    → y.partition ≡ job.partition
    → y.id ≡ job.id
    → IsJobTable t
    → x.completed_at.valid ≡ true
    → update y t ≡ some u
    → select partition id t ≡ some x
    → select partition id u ≡ some x
unfolding select update
select_updated partition id k j job y t u x here is_open p i v c eq h =
    let (at_day, at_number) = select_row-keys partition_of id_of k j t v.is_table here in
    let day = p ∙ at_day in
    let number = i ∙ at_number in
    let old : select y.partition y.id t ≡ some job = rw (day, number) here in
    select_row-update_row id_of y.partition partition id y t u old eq
    ∙ elsewhere (Bool-cases (y.partition == partition)) (Bool-cases (y.id == id)) day number
  where
    elsewhere :
        ((y.partition == partition) ≡ true) ⊎ ((y.partition == partition) ≡ false)
        → ((y.id == id) ≡ true) ⊎ ((y.id == id) ≡ false)
        → y.partition ≡ k
        → y.id ≡ j
        → (if y.partition == partition
            then (if y.id == id then some y else select partition id t)
            else select partition id t)
          ≡ some x
    elsewhere (inr other) q day number = rw other h
    elsewhere (inl same_day) (inr other) day number = rw (same_day, other) h
    elsewhere (inl same_day) (inl same_number) day number =
        let is_k = sym ((==_iff y.partition partition).0 same_day) ∙ day in
        let is_j = sym ((==_iff y.id id).0 same_number) ∙ number in
        let found : select partition id t ≡ some job = rw (is_k, is_j) here in
        let same = some-injective (sym h ∙ found) in absurd (cc (c, is_open, same))

follow_up-keeps :
    (e : Ending) (job : JobEntity) (s : JobStore) (partition id : ℕ) (x : JobEntity)
    → select partition id s.jobs ≡ some x
    → select partition id (follow_up e job s).jobs ≡ some x
unfolding follow_up insert select
follow_up-keeps e job s p i x h = elim (Bool-cases job.error.valid) [
  | inr ok ↦ simp ok h
  | inl failed ↦ elim (Bool-cases (ltb job.retry_count e.retry_limit)) [
    | inl retries ↦
        simp (failed, retries)
          (select_row-insert_row id_of set_id (retry_of e job).partition (retry_of e job) p i s.jobs
            h)
    | inr spent ↦ simp (failed, spent) h
  ]
]

Step-keeps :
    {s t : JobStore} {xs : List Job} (partition id : ℕ) (x : JobEntity)
    → Step s t xs
    → IsJobTable s.jobs
    → x.completed_at.valid ≡ true
    → select partition id s.jobs ≡ some x
    → select partition id t.jobs ≡ some x
Step-keeps {s} p i x (inserts e fresh) v c h =
    unfold insert select in select_row-insert_row id_of set_id e.partition e p i s.jobs h
Step-keeps {s} p i x (locks cmd now) v c h =
    select-Kept p i s.jobs (lock_jobs cmd now s.jobs).0 x (lock_jobs-Kept cmd now s.jobs) v c h
Step-keeps {s} p i x (unlocks cmd) v c h =
    select-Kept p i s.jobs (unlock_jobs cmd s.jobs).0 x (unlock_jobs-Kept cmd s.jobs) v c h
Step-keeps {s} p i x (cancels k j now worker job jobs found passed eq) v c h =
    unfold cancel_job in
    select_updated p i k j job _ s.jobs jobs x found (checked worker job passed).1 refl refl v c eq
      h
Step-keeps {s} {t} p i x (ends k j e job error _ found passed eq) v c h =
    let (jobs, updated, rest) = end_job-updated e (with_error job error) s t eq in
    subst (λ (w : JobStore). select p i w.jobs ≡ some x) (sym rest)
      (follow_up-keeps e (with_error job error) (record s { jobs = jobs }) p i x
        (select_updated p i k j job (ended e (with_error job error)) s.jobs jobs x found
          (checked e.worker_id job passed).1 (unfold ended in refl) (unfold ended in refl) v c
          updated h))

-- A job that is completed is never changed again, whatever is done to the jobs afterwards: no later step locks,
-- unlocks, cancels or completes it once more.
pub Run-keeps_completed :
    {s t : JobStore} {xs : List Job} (partition id : ℕ) (x : JobEntity)
    → IsJobTable s.jobs
    → Run s t xs
    → x.completed_at.valid ≡ true
    → select partition id s.jobs ≡ some x
    → select partition id t.jobs ≡ some x
Run-keeps_completed p i x v stop c h = h
Run-keeps_completed p i x v (then_step r st) c h =
    Step-keeps p i x st (Run-IsJobTable v r) c (Run-keeps_completed p i x v r c h)
