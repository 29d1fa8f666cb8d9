-- ===== src/Jobs/Locked.antt =====
-- What workers get: the jobs that `LockJobs` returns and leaves, what `UnlockJobs` releases, and the pages of
-- the query for jobs.
use go_bpmn.Shared.{ℕ, ◌≤◌, ◌≡◌, List, pos, pos_part, is_pos, filter, if◌then◌else◌}
use go_bpmn.Entity.Job.{JobEntity}
use go_bpmn.Enum.WorkState.{WorkState, created}
use go_bpmn.Store.Locking.Found.{rows_of}
use go_bpmn.Jobs.Repository.{JobTable, LockJobsCmd, is_free}

-- The jobs that a command can lock, in the order of their days, and of a day in that of their IDs.
abbrev pub lockable : LockJobsCmd → ℕ → JobTable → List JobEntity
lockable cmd now t = filter (is_free cmd now) (rows_of cmd.partition t)

-- A limit that is not positive is 1.
abbrev pub limit_of : LockJobsCmd → ℕ
limit_of cmd = if is_pos cmd.limit then pos_part cmd.limit else 1

abbrev with_limit : LockJobsCmd → ℕ → LockJobsCmd
with_limit cmd n = record cmd { limit = pos n }

normalized : LockJobsCmd → LockJobsCmd
normalized cmd = if is_pos cmd.limit then cmd else record cmd { limit = pos 1 }

-- The job is created, and its time has come.
abbrev pub IsDue : ℕ → JobEntity → Type 0
IsDue now e = (e.state ≡ created) × (e.due_at ≤ now)
