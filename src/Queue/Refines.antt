-- ===== src/Queue/Refines.antt =====
-- The queue's operations against the contract
-- (engine/internal/process_instance_queue.go).
pub mod Steps
pub mod Add
pub mod Enqueue
pub mod Dequeue
pub mod Task
pub mod Upsert
