-- ===== src/Queue.antt =====
-- The process instance queue (engine/internal/process_instance_queue.go).
pub mod Table
pub mod Operations
pub mod Contract
pub mod Chain
pub mod Refines
pub mod Fifo
pub mod Runs
pub mod Order
