-- ===== src/Tests/Tasks.antt =====
-- A task that is executed, and rejected.
use go_bpmn.Shared.{ℕ, ◌≡◌, refl, some, [], ◌∷◌, ok, arith}
use go_bpmn.Enum.TaskType.{TaskType}
use go_bpmn.Enum.WorkState.{WorkState, caused_retry, locked}
use go_bpmn.Entity.{valid_text, valid_timestamp}
use go_bpmn.Entity.Task.{Task, TaskEntity, no_task, continue_execution_task}
use go_bpmn.Tasks.Repository.{select}
use go_bpmn.Tasks.Execute.{TaskStore, Execution, rejected, Settings, execute_task}
use go_bpmn.Tasks.Executed.{run_of, may_retry, Concludes, execute_task-Concludes}

abbrev running : TaskEntity
running = record no_task {
  partition = 5;
  id = 1;
  locked_at = valid_timestamp 4;
  locked_by = valid_text "engine";
  state = locked;
  type = TaskType.continue_execution;
  instance_task = some continue_execution_task;
}

abbrev store : TaskStore ℕ
store = record { tasks = (5, running ∷ []) ∷ []; incidents = []; rest = 0 }

abbrev settings : Settings
settings = record { now = 9; engine_id = "engine"; retry_limit = 1 }

-- The execution stores another task before it is rejected, and counts.
abbrev other : TaskEntity
other = record no_task { partition = 5; id = 2; state = WorkState.created }

abbrev written : TaskStore ℕ
written = record { tasks = (5, running ∷ other ∷ []) ∷ []; incidents = []; rest = 1 }

abbrev rejects : Task → TaskEntity → TaskStore ℕ → Execution ℕ
rejects t e s = rejected "no" e written

execute_task-Concludes_example :
    Concludes settings
      (may_retry settings running.instance_task running)
      (run_of rejects running.instance_task running store)
      (execute_task rejects settings running store)
execute_task-Concludes_example =
    execute_task-Concludes rejects settings running store
      (refl, refl, omega arith, tt, running, unfold select in refl)

abbrev retried : TaskEntity
retried = record no_task {
  partition = 5;
  id = 3;
  created_at = 9;
  created_by = "engine";
  due_at = 9;
  retry_count = 1;
  state = WorkState.created;
  type = TaskType.continue_execution;
  instance_task = some continue_execution_task;
}

reject_one :
    execute_task rejects settings running store
    ≡ ok (record written {
      tasks =
          (
            5,
            record running {
              error = valid_text "no";
              completed_at = valid_timestamp 9;
              state = caused_retry;
            }
                ∷ other
                ∷ retried
                ∷ [],
          )
          ∷ [];
    })
unfolding execute_task
reject_one = refl
