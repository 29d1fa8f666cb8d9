-- ===== src/Execution.antt =====
-- Operations on the executions of a process instance (engine/internal/execution.go,
-- engine/internal/element_instance.go).
pub mod Work
pub mod Add
pub mod Exclusive
pub mod Inclusive
pub mod Chosen
pub mod Targets
pub mod Forked
pub mod Supported
