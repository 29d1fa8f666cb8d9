-- ===== src/Graph.antt =====
-- The execution graph of a process (engine/internal/graph.go).
pub mod Node
pub mod Build
pub mod Create
pub mod Branch
pub mod Continue
pub mod MultiInstance
pub mod Join
pub mod Nodes
pub mod States
pub mod Counts
