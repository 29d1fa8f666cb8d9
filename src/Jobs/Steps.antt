-- ===== src/Jobs/Steps.antt =====
-- What happens to the table of jobs: the engine inserts jobs, workers lock, unlock and complete them. The
-- jobs that `executionContext.handleJob` inserts while a job is completed are steps of their own before the
-- job ends, and the error that it may set is any error.
use go_bpmn.Shared.{ℕ, ◌≡◌, false, none, some, List, [], ◌++◌, String}
use go_bpmn.Enum.WorkState.{created}
use go_bpmn.Entity.{Text}
use go_bpmn.Entity.Job.{JobEntity, Job}
use go_bpmn.Jobs.Repository.{
  JobTable, LockJobsCmd, UnlockJobsCmd, insert, select, lock_jobs, unlock_jobs,
}
use go_bpmn.Jobs.Complete.{JobStore, Ending, check_job, cancel_job, end_job}

-- A job as the engine creates it: neither locked nor completed.
pub record IsFresh (e : JobEntity) : Type 0 where
  pub is_created : e.state ≡ created
  pub is_unlocked : e.locked_at.valid ≡ false
  pub has_no_worker : e.locked_by.valid ≡ false
  pub is_open : e.completed_at.valid ≡ false

abbrev pub with_error : JobEntity → Text → JobEntity
with_error job error = record job { error = error }

-- A step, and the jobs that it hands out.
pub data Step (s : JobStore) : JobStore → List Job → Type 0 where
  inserts : (e : JobEntity) → IsFresh e → Step s (record s { jobs = (insert e s.jobs).0 }) []
  locks :
      (cmd : LockJobsCmd) (now : ℕ)
      → Step s (record s { jobs = (lock_jobs cmd now s.jobs).0 }) (lock_jobs cmd now s.jobs).1
  unlocks : (cmd : UnlockJobsCmd) → Step s (record s { jobs = (unlock_jobs cmd s.jobs).0 }) []
  cancels :
      (partition id now : ℕ) (worker_id : String) (job : JobEntity) (jobs : JobTable)
      → select partition id s.jobs ≡ some job
      → check_job worker_id job ≡ none
      → cancel_job now job s.jobs ≡ some jobs
      → Step s (record s { jobs = jobs }) []
  ends :
      (partition id : ℕ) (e : Ending) (job : JobEntity) (error : Text) (t : JobStore)
      → select partition id s.jobs ≡ some job
      → check_job e.worker_id job ≡ none
      → end_job e (with_error job error) s ≡ some t
      → Step s t []

-- A run, and all the jobs that it hands out.
pub data Run (s : JobStore) : JobStore → List Job → Type 0 where
  stop : Run s s []
  then_step : {t u : JobStore} {xs ys : List Job} → Run s t xs → Step t u ys → Run s u (xs ++ ys)
