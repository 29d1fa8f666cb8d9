-- ===== src/Jobs/Leases.antt =====
-- A job is handed out to one worker at a time: across a run without unlocking, no job is returned twice.
use go_bpmn.Shared.{
  ℕ, ◌+◌, ◌≤◌, ◌≡◌, refl, subst, sym, ◌∙◌, Bool, ◌&&◌, List, [], ◌∷◌, map, pos, is_pos, count_if,
  count_if-append, if◌then◌else◌, ◌==◌, arith, inl, inr, Bool-cases, ltb, some,
}
use go_bpmn.Entity.{Text}
use go_bpmn.Entity.Job.{JobEntity, Job, job_of}
use go_bpmn.Store.Locking.Held.{total, both, Marks, lock_table-held, total-both-le}
use go_bpmn.Store.Partitions.Numbered.{is_row, IsTable-once, select_row-keys}
use go_bpmn.Store.Partitions.Totals.{total-insert_row, total-update_row}
use go_bpmn.Jobs.Repository.{
  JobTable, LockJobsCmd, is_free, mark, insert, select, update, set_id, lock, lock_jobs,
}
use go_bpmn.Jobs.Complete.{JobStore, Ending, cancel_job, ended, retry_of, follow_up}
use go_bpmn.Jobs.Steps.{
  Step, inserts, locks, unlocks, cancels, ends, Run, stop, then_step, with_error,
}
use go_bpmn.Jobs.Phases.{partition_of, id_of, IsJobTable}
use go_bpmn.Jobs.Phases.Lives.{Run-IsJobTable, end_job-updated, ended-IsJobTable}

abbrev is_locked : JobEntity → Bool
is_locked e = e.locked_at.valid

-- The job of the day with the number.
abbrev is_wanted : ℕ → ℕ → JobEntity → Bool
is_wanted day number = is_row partition_of id_of day number

abbrev pub is_job : ℕ → ℕ → Job → Bool
is_job day number j = j.partition == day && j.id == number

-- Whether the job is locked.
abbrev held : ℕ → ℕ → JobTable → ℕ
held day number t = total (both (is_wanted day number) is_locked) t

-- How often it is among jobs that were handed out.
abbrev pub handed_out : ℕ → ℕ → List Job → ℕ
handed_out day number = count_if (is_job day number)

-- The step releases no lock.
abbrev pub IsNoUnlock : {s t : JobStore} {xs : List Job} → Step s t xs → Type 0
IsNoUnlock (inserts e fresh) = Unit
IsNoUnlock (locks cmd now) = Unit
IsNoUnlock (unlocks cmd) = ⊥
IsNoUnlock (cancels partition id now worker job jobs found passed eq) = Unit
IsNoUnlock (ends partition id e job error t found passed eq) = Unit

abbrev pub AllLocked : {s t : JobStore} {xs : List Job} → Run s t xs → Type 0
AllLocked stop = Unit
AllLocked (then_step r st) = AllLocked r × IsNoUnlock st

marks :
    (day number : ℕ) (cmd : LockJobsCmd) (now : ℕ)
    → Marks (is_free cmd now) is_locked (is_wanted day number) (mark cmd now)
unfolding is_free mark
marks day number cmd now = record {
  was_unlocked = λ x h. ground (arith, h);
  is_now_locked = λ x. refl;
  stays_wanted = λ x. refl;
}

handed_out-job_of :
    (day number : ℕ) (es : List JobEntity)
    → handed_out day number (map job_of es) ≡ count_if (is_wanted day number) es
unfolding job_of
handed_out-job_of day number [] = refl
handed_out-job_of day number (e ∷ es) = ground (arith, handed_out-job_of day number es)

lock-held :
    (day number : ℕ) (cmd : LockJobsCmd) (now : ℕ) (t : JobTable)
    → held day number (lock cmd now t).0
      ≡ held day number t + count_if (is_wanted day number) (lock cmd now t).1
unfolding lock is_free mark
lock-held day number cmd now t =
    (lock_table-held (is_free cmd now) is_locked (is_wanted day number) (mark cmd now)
      (marks day number cmd now) cmd.partition cmd.limit 0 t).0

lock_jobs-held :
    (day number : ℕ) (cmd : LockJobsCmd) (now : ℕ) (t : JobTable)
    → held day number (lock_jobs cmd now t).0
      ≡ held day number t + handed_out day number (lock_jobs cmd now t).1
unfolding lock_jobs
lock_jobs-held day number cmd now t =
    let c = if is_pos cmd.limit then cmd else record cmd { limit = pos 1 } in
    omega (arith, lock-held day number c now t, handed_out-job_of day number (lock c now t).1)

insert-held :
    (day number : ℕ) (e : JobEntity) (t : JobTable)
    → IsJobTable t
    → held day number t ≤ held day number (insert e t).0
unfolding insert
insert-held day number e t v = omega (
  arith,
  total-insert_row partition_of id_of (both (is_wanted day number) is_locked) set_id e.partition e t
      v.is_table,
)

-- A job that is updated keeps its lock.
update-held :
    (day number k j : ℕ) (job y : JobEntity) (t u : JobTable)
    → IsJobTable t
    → select k j t ≡ some job
    → y.partition ≡ job.partition
    → y.id ≡ job.id
    → y.locked_at.valid ≡ job.locked_at.valid
    → update y t ≡ some u
    → held day number u ≡ held day number t
unfolding update select
update-held day number k j job y t u v found p i l eq =
    let (at_day, at_number) = select_row-keys partition_of id_of k j t v.is_table found in
    let old : select y.partition y.id t ≡ some job = rw (p ∙ at_day, i ∙ at_number) found in
    total-update_row partition_of id_of (both (is_wanted day number) is_locked) job y y.partition t
      u v.is_table old (ground (arith, p, i, l)) eq

follow_up-held :
    (day number : ℕ) (e : Ending) (job : JobEntity) (s : JobStore)
    → IsJobTable s.jobs
    → held day number s.jobs ≤ held day number (follow_up e job s).jobs
unfolding follow_up
follow_up-held day number e job s v = elim (Bool-cases job.error.valid) [
  | inr ok ↦ simp ok (omega arith)
  | inl failed ↦ elim (Bool-cases (ltb job.retry_count e.retry_limit)) [
    | inl retries ↦ simp (failed, retries) (insert-held day number (retry_of e job) s.jobs v)
    | inr spent ↦ simp (failed, spent) (omega arith)
  ]
]

ended-held :
    (day number k j : ℕ) (e : Ending) (job : JobEntity) (error : Text) (t u : JobTable)
    → IsJobTable t
    → select k j t ≡ some job
    → update (ended e (with_error job error)) t ≡ some u
    → held day number u ≡ held day number t
unfolding ended
ended-held day number k j e job error t u v found updated =
    update-held day number k j job (ended e (with_error job error)) t u v found refl refl refl
      updated

-- What a step hands out is locked afterwards, and was not before.
Step-held :
    {s t : JobStore} {xs : List Job} (day number : ℕ) (st : Step s t xs)
    → IsJobTable s.jobs
    → IsNoUnlock st
    → held day number s.jobs + handed_out day number xs ≤ held day number t.jobs
Step-held {s} day number (inserts e fresh) v n = omega (arith, insert-held day number e s.jobs v)
Step-held {s} day number (locks cmd now) v n =
    omega (arith, lock_jobs-held day number cmd now s.jobs)
Step-held day number (unlocks cmd) v n = absurd n
Step-held {s} day number (cancels k j now worker job jobs found passed eq) v n =
    unfold cancel_job in
    omega (arith, update-held day number k j job _ s.jobs jobs v found refl refl refl eq)
Step-held {s} {t} day number (ends k j e job error _ found passed eq) v n =
    let (jobs, updated, rest) = end_job-updated e (with_error job error) s t eq in
    let kept = ended-held day number k j e job error s.jobs jobs v found updated in
    let more =
      follow_up-held day number e (with_error job error) (record s { jobs = jobs })
        (ended-IsJobTable k j e job error s.jobs jobs found passed updated v) in
    subst (λ (w : JobStore). held day number s.jobs + 0 ≤ held day number w.jobs) (sym rest)
      (omega (arith, kept, more))

Run-held :
    {s t : JobStore} {xs : List Job} (day number : ℕ) (r : Run s t xs)
    → IsJobTable s.jobs
    → AllLocked r
    → held day number s.jobs + handed_out day number xs ≤ held day number t.jobs
Run-held day number stop v n = omega arith
Run-held day number (then_step {xs = xs} {ys = ys} r st) v n = omega (
  arith,
  Run-held day number r v n.0,
  Step-held day number st (Run-IsJobTable v r) n.1,
  count_if-append (is_job day number) xs ys,
)

-- Across a run of insertions, locks and completions by any workers, in any order and with any commands, no job
-- is handed out twice, and none that was locked at the start is handed out at all, as long as nobody unlocks jobs.
pub Run-Leases :
    {s t : JobStore} {xs : List Job} (day number : ℕ) (r : Run s t xs)
    → IsJobTable s.jobs
    → AllLocked r
    → total (both (is_row partition_of id_of day number) (λ e. e.locked_at.valid)) s.jobs
        + handed_out day number xs
      ≤ 1
Run-Leases {s} {t} day number r v n = omega (
  arith,
  Run-held day number r v n,
  total-both-le (is_wanted day number) is_locked t.jobs,
  IsTable-once partition_of id_of day number t.jobs (Run-IsJobTable v r).is_table,
)
