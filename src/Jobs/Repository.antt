-- ===== src/Jobs/Repository.antt =====
-- `jobRepository` of engine/mem/job.go, and `LockJobs` and `UnlockJobs` of engine/internal/job.go.
use go_bpmn.Shared.{
  ℕ, Bool, true, false, not, ◌&&◌, ◌||◌, String, Option, List, [], ◌∷◌, map, ℤ, pos, is_pos, ltb,
  ◌==◌, if◌then◌else◌, str_eq,
}
use go_bpmn.Enum.WorkState.{same, created, due, locked}
use go_bpmn.Entity.{no_text, no_timestamp, valid_text, valid_timestamp}
use go_bpmn.Entity.Job.{JobEntity, Job, job_of}
use go_bpmn.Store.Locking.{Table, QueryOptions, no_page, lock_table, unlock_table, query_table}
use go_bpmn.Store.Partitions.{insert_row, select_row, update_row}

abbrev pub JobTable : Type 0
JobTable = Table JobEntity

abbrev pub set_id : ℕ → JobEntity → JobEntity
set_id n e = record e { id = n }

-- The table, and the entity with its ID.
unfoldable pub insert : JobEntity → JobTable → JobTable × JobEntity
unfolding insert_row
insert e t = insert_row set_id e.partition e t

unfoldable pub select : ℕ → ℕ → JobTable → Option JobEntity
unfolding select_row
select partition id t = select_row (λ e. e.id) partition id t

unfoldable pub update : JobEntity → JobTable → Option JobTable
unfolding update_row
update e t = update_row (λ x. x.id) e.partition e t

-- `engine.LockJobsCmd`: a number of 0 is no condition.
pub record LockJobsCmd : Type 0 where
  pub partition : ℕ
  pub id : ℕ
  pub process_ids : List ℕ
  pub process_instance_id : ℕ
  pub limit : ℤ
  pub worker_id : String

-- `slices.Contains`.
abbrev pub contains : List ℕ → ℕ → Bool
contains [] n = false
contains (m ∷ ms) n = let rest = contains ms n in m == n || rest

abbrev pub is_empty : List ℕ → Bool
is_empty [] = true
is_empty (m ∷ ms) = false

-- No condition, or the number that it wants.
abbrev pub accepts : ℕ → ℕ → Bool
accepts wanted n = wanted == 0 || wanted == n

-- The job can be locked by the command at the time.
unfoldable pub is_free : LockJobsCmd → ℕ → JobEntity → Bool
is_free cmd now e =
    not (e.locked_at.valid || ltb now e.due_at)
    && accepts cmd.id e.id
    && (is_empty cmd.process_ids || contains cmd.process_ids e.process_id)
    && accepts cmd.process_instance_id e.process_instance_id

unfoldable pub mark : LockJobsCmd → ℕ → JobEntity → JobEntity
mark cmd now e = record e {
  locked_at = valid_timestamp now;
  locked_by = valid_text cmd.worker_id;
  state = locked;
}

unfoldable pub lock : LockJobsCmd → ℕ → JobTable → JobTable × List JobEntity
unfolding lock_table is_free mark
lock cmd now t = lock_table (is_free cmd now) (mark cmd now) cmd.partition cmd.limit 0 t

-- `engine.UnlockJobsCmd`.
pub record UnlockJobsCmd : Type 0 where
  pub partition : ℕ
  pub id : ℕ
  pub worker_id : String

unfoldable pub is_held : UnlockJobsCmd → JobEntity → Bool
is_held cmd e =
    not (e.completed_at.valid || not e.locked_by.valid)
    && str_eq cmd.worker_id e.locked_by.string
    && accepts cmd.id e.id

unfoldable pub release : JobEntity → JobEntity
release e = record e { locked_at = no_timestamp; locked_by = no_text; state = created }

unfoldable pub unlock : UnlockJobsCmd → JobTable → JobTable × ℕ
unfolding unlock_table is_held release
unlock cmd t = unlock_table (is_held cmd) release cmd.partition t

-- `engine.JobCriteria`.
pub record JobCriteria : Type 0 where
  pub partition : ℕ
  pub id : ℕ
  pub element_id : ℕ
  pub element_instance_id : ℕ
  pub process_id : ℕ
  pub process_instance_id : ℕ

unfoldable pub matches : JobCriteria → JobEntity → Bool
matches c e =
    accepts c.id e.id
    && accepts c.element_id e.element_id
    && accepts c.element_instance_id e.element_instance_id
    && accepts c.process_id e.process_id
    && accepts c.process_instance_id e.process_instance_id

-- A job that is created shows as due from its time on.
unfoldable pub show_at : ℕ → JobEntity → Job
unfolding job_of
show_at now e =
    job_of (if same e.state created && not (ltb now e.due_at) then record e { state = due } else e)

unfoldable pub query : JobCriteria → QueryOptions → ℕ → JobTable → List Job
unfolding query_table matches show_at
query c o now t = (query_table (matches c) (show_at now) o c.partition t no_page).results

-- `LockJobs`.
unfoldable pub lock_jobs : LockJobsCmd → ℕ → JobTable → JobTable × List Job
unfolding lock job_of
lock_jobs cmd now t =
    let (u, found) = lock (if is_pos cmd.limit then cmd else record cmd { limit = pos 1 }) now t in
    (u, map job_of found)

-- `UnlockJobs`.
unfoldable pub unlock_jobs : UnlockJobsCmd → JobTable → JobTable × ℕ
unfolding unlock
unlock_jobs cmd t = unlock cmd t
