-- ===== src/Tests/Jobs.antt =====
-- Runs of the operations on jobs and incidents, and the theorems about them at these inputs.
use go_bpmn.Shared.{◌+◌, ◌≤◌, ◌≡◌, refl, none, some, [], ◌∷◌, ◌++◌, map, pos, arith}
use go_bpmn.Enum.JobType.{JobType}
use go_bpmn.Enum.WorkState.{WorkState, created, caused_retry, locked}
use go_bpmn.Entity.{valid_int4, valid_text, valid_timestamp}
use go_bpmn.Entity.Job.{JobEntity, Job, no_job, IncidentEntity, no_incident}
use go_bpmn.Store.Locking.{QueryOptions}
use go_bpmn.Store.Locking.Held.{total, both}
use go_bpmn.Store.Partitions.Numbered.{is_row}
use go_bpmn.Jobs.Repository.{
  JobTable, LockJobsCmd, UnlockJobsCmd, JobCriteria, query, select, lock_jobs, unlock_jobs,
}
use go_bpmn.Jobs.Complete.{JobStore, Ending, end_job}
use go_bpmn.Jobs.Steps.{Run, stop, then_step, locks}
use go_bpmn.Jobs.Phases.{IsJobTable, partition_of, id_of}
use go_bpmn.Jobs.Phases.Lives.{Run-IsJobTable, Run-keeps_completed}
use go_bpmn.Jobs.Leases.{handed_out, Run-Leases}
use go_bpmn.Jobs.Retries.{Outcome, end_job-Outcome}
use go_bpmn.Incidents as Incidents
use go_bpmn.Incidents.Resolve.{
  ResolveIncidentCmd, ResolveStore, incident_is_resolved, resolved, resolve_incident,
}
use go_bpmn.Incidents.Resolved.{Retried, resolve_incident-once, resolve_incident-Retried}

-- Two jobs of day 5, due at 3 and at 8.
abbrev early : JobEntity
early = record no_job {
  partition = 5;
  id = 1;
  process_id = 7;
  due_at = 3;
  state = created;
  type = JobType.execute;
}

abbrev late : JobEntity
late = record early { id = 2; due_at = 8 }

abbrev two_jobs : JobTable
two_jobs = (5, early ∷ late ∷ []) ∷ []

abbrev any_job : LockJobsCmd
any_job = record {
  partition = 0;
  id = 0;
  process_ids = [];
  process_instance_id = 0;
  limit = pos 1;
  worker_id = "ann";
}

-- The first job is handed out first, at 9 both can be locked, at 5 one.
lock_one : map (λ (j : Job). j.id) (lock_jobs any_job 9 two_jobs).1 ≡ 1 ∷ []
unfolding lock_jobs
lock_one = refl

lock_due :
    map (λ (j : Job). j.id) (lock_jobs (record any_job { limit = pos 10 }) 5 two_jobs).1 ≡ 1 ∷ []
unfolding lock_jobs
lock_due = refl

abbrev by_ann : UnlockJobsCmd
by_ann = record { partition = 5; id = 0; worker_id = "ann" }

abbrev early_locked : JobEntity
early_locked = record early {
  locked_at = valid_timestamp 4;
  locked_by = valid_text "ann";
  state = locked;
}

abbrev one_locked : JobTable
one_locked = (5, early_locked ∷ late ∷ []) ∷ []

unlock_one : unlock_jobs by_ann one_locked ≡ (two_jobs, 1)
unfolding unlock_jobs
unlock_one = refl

abbrev of_process : JobCriteria
of_process = record {
  partition = 0;
  id = 0;
  element_id = 0;
  element_instance_id = 0;
  process_id = 7;
  process_instance_id = 0;
}

abbrev second_only : QueryOptions
second_only = record { limit = pos 1; offset = pos 1 }

query_second : map (λ (j : Job). j.id) (query of_process second_only 5 two_jobs) ≡ 2 ∷ []
unfolding query
query_second = refl

-- Ann locks a job and fails at it; there is one retry.
abbrev before : JobStore
before = record { jobs = two_jobs; incidents = [] }

abbrev ending : Ending
ending = record { now = 10; retry_limit = 1; retry_at = 20; worker_id = "ann" }

abbrev failed_job : JobEntity
failed_job = record early_locked { error = valid_text "no" }

abbrev started : JobStore
started = record { jobs = one_locked; incidents = [] }

abbrev retry_job_row : JobEntity
retry_job_row = record early {
  id = 3;
  created_at = 10;
  created_by = "ann";
  due_at = 20;
  retry_count = 1;
}

abbrev after : JobStore
after = record {
  jobs =
      (
        5,
        record failed_job { completed_at = valid_timestamp 10; state = caused_retry }
            ∷ late
            ∷ retry_job_row
            ∷ [],
      )
      ∷ [];
  incidents = [];
}

end_one : end_job ending failed_job started ≡ some after
unfolding end_job
end_one = refl

end_job-Outcome_example :
    (t : JobStore) × (end_job ending failed_job started ≡ some t)
    × Outcome ending failed_job started t
end_job-Outcome_example =
    end_job-Outcome ending early_locked failed_job started (omega arith) tt (unfold select in refl)

-- Two workers lock one after the other.
abbrev any_job_of_bob : LockJobsCmd
any_job_of_bob = record any_job { worker_id = "bob" }

abbrev once : JobStore
once = record before { jobs = (lock_jobs any_job 9 two_jobs).0 }

abbrev twice : JobStore
twice = record once { jobs = (lock_jobs any_job_of_bob 9 once.jobs).0 }

abbrev both_lock :
    Run before twice
      (([] ++ (lock_jobs any_job 9 before.jobs).1) ++ (lock_jobs any_job_of_bob 9 once.jobs).1)
both_lock = then_step (then_step stop (locks any_job 9)) (locks any_job_of_bob 9)

before-IsJobTable : IsJobTable two_jobs
before-IsJobTable = record {
  is_table = omega arith;
  is_phased = (((refl, refl, refl), ((refl, refl, refl), tt)), tt);
}

Run-IsJobTable_example : IsJobTable twice.jobs
Run-IsJobTable_example = Run-IsJobTable before-IsJobTable both_lock

Run-Leases_example :
    total (both (is_row partition_of id_of 5 1) (λ e. e.locked_at.valid)) two_jobs
      + handed_out 5 1
          (([] ++ (lock_jobs any_job 9 before.jobs).1) ++ (lock_jobs any_job_of_bob 9 once.jobs).1)
    ≤ 1
Run-Leases_example = Run-Leases 5 1 both_lock before-IsJobTable ((tt, tt), tt)

-- A job that is done stays as it is while another one is locked.
abbrev finished : JobEntity
finished = record early_locked { completed_at = valid_timestamp 10; state = WorkState.done }

abbrev one_done : JobStore
one_done = record { jobs = (5, finished ∷ late ∷ []) ∷ []; incidents = [] }

abbrev lock_other :
    Run one_done
      (record one_done { jobs = (lock_jobs any_job 9 one_done.jobs).0 })
      ([] ++ (lock_jobs any_job 9 one_done.jobs).1)
lock_other = then_step stop (locks any_job 9)

one_done-IsJobTable : IsJobTable one_done.jobs
one_done-IsJobTable = record {
  is_table = omega arith;
  is_phased = (((refl, refl, refl), ((refl, refl, refl), tt)), tt);
}

Run-keeps_completed_example : select 5 1 (lock_jobs any_job 9 one_done.jobs).0 ≡ some finished
Run-keeps_completed_example =
    Run-keeps_completed 5 1 finished one_done-IsJobTable lock_other refl (unfold select in refl)

-- The incident of a job.
abbrev of_failed : IncidentEntity
of_failed = record no_incident { partition = 5; id = 1; job_id = valid_int4 1 }

abbrev resolve : ResolveIncidentCmd
resolve = record { partition = 5; id = 1; worker_id = "ann"; now = 30; due_at = 31 }

abbrev with_incident : ResolveStore
with_incident = record { incidents = (5, of_failed ∷ []) ∷ []; jobs = one_done.jobs; tasks = [] }

resolve_incident-Retried_example :
    (t : ResolveStore) × (resolve_incident resolve with_incident ≡ (t, none))
    × (Incidents.select 5 1 t.incidents ≡ some (resolved resolve of_failed))
    × Retried resolve finished with_incident t
resolve_incident-Retried_example =
    resolve_incident-Retried resolve with_incident of_failed finished one_done-IsJobTable.is_table
      (omega arith) (unfold Incidents.select in refl) refl refl (unfold select in refl)

abbrev resolved_store : ResolveStore
resolved_store = (resolve_incident resolve with_incident).0

resolve_incident-once_example :
    resolve_incident (record resolve { worker_id = "bob" }) resolved_store
    ≡ (resolved_store, some incident_is_resolved)
resolve_incident-once_example =
    resolve_incident-once resolve (record resolve { worker_id = "bob" }) with_incident
      resolved_store (omega arith) refl refl (unfold resolve_incident in refl)
