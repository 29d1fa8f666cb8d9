-- ===== src/Jobs.antt =====
-- Jobs (engine/internal/job.go, engine/mem/job.go): they are locked by a worker, unlocked, and completed,
-- with a retry or an incident if they fail.
pub mod Repository
pub mod Complete
pub mod Conditions
pub mod Locked
pub mod Steps
pub mod Phases
pub mod Leases
pub mod Retries
