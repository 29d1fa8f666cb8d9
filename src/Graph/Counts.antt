-- ===== src/Graph/Counts.antt =====
-- The execution counts that engine/internal/graph.go keeps.
pub mod Parents
pub mod Adds
pub mod Pieces
pub mod Continue
pub mod Activities
pub mod MultiInstance
