-- ===== src/Incidents.antt =====
-- `incidentRepository` of engine/mem/incident.go.
pub mod Resolve
pub mod Resolved
use go_bpmn.Shared.{ℕ, Bool, ◌&&◌, Option, List, ◌==◌}
use go_bpmn.Entity.Job.{IncidentEntity}
use go_bpmn.Store.Locking.{Table, QueryOptions, no_page, query_table}
use go_bpmn.Store.Partitions.{insert_row, select_row, update_row}
use go_bpmn.Jobs.Repository.{accepts}

abbrev pub IncidentTable : Type 0
IncidentTable = Table IncidentEntity

abbrev pub set_id : ℕ → IncidentEntity → IncidentEntity
set_id n e = record e { id = n }

unfoldable pub insert : IncidentEntity → IncidentTable → IncidentTable × IncidentEntity
unfolding insert_row
insert e t = insert_row set_id e.partition e t

unfoldable pub select : ℕ → ℕ → IncidentTable → Option IncidentEntity
unfolding select_row
select partition id t = select_row (λ e. e.id) partition id t

unfoldable pub update : IncidentEntity → IncidentTable → Option IncidentTable
unfolding update_row
update e t = update_row (λ x. x.id) e.partition e t

-- `engine.IncidentCriteria`.
pub record IncidentCriteria : Type 0 where
  pub partition : ℕ
  pub id : ℕ
  pub job_id : ℕ
  pub process_instance_id : ℕ
  pub task_id : ℕ

unfoldable pub matches : IncidentCriteria → IncidentEntity → Bool
matches c e =
    accepts c.id e.id
    && accepts c.job_id e.job_id.int32
    && accepts c.process_instance_id e.process_instance_id.int32
    && accepts c.task_id e.task_id.int32

-- What an incident is shown as is the entity with the zero value in place of what is not valid, so it is
-- left as it is.
unfoldable pub query : IncidentCriteria → QueryOptions → IncidentTable → List IncidentEntity
unfolding query_table matches
query c o t = (query_table (matches c) (λ e. e) o c.partition t no_page).results
