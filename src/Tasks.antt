-- ===== src/Tasks.antt =====
-- Tasks (engine/internal/task.go, engine/mem/task.go): they are locked by an engine and executed, with a retry
-- or an incident if they fail.
pub mod Repository
pub mod Execute
pub mod Executed
