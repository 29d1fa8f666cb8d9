-- ===== src/Graph/Join.antt =====
-- `graph.joinParallelGateway` of engine/internal/graph.go. The Go map from element IDs to counts is an
-- association list.
pub mod Counter
pub mod Loop
pub mod Invariant
pub mod Laws
pub mod Gateway
