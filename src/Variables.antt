-- ===== src/Variables.antt =====
-- Variables: their in-memory repository (engine/mem/variable.go), and the operations on the variables of a process
-- instance (engine/internal/variable.go).
pub mod Repository
pub mod Contents
pub mod Changes
pub mod Written
pub mod Set
pub mod Get
pub mod Mapped
pub mod Assigned
pub mod Placed
pub mod Read
