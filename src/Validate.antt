-- ===== src/Validate.antt =====
-- The validation of a process (engine/internal/graph.go).
pub mod Pointer
pub mod Elements
pub mod Links
pub mod Process
pub mod LinksSound
pub mod Sound
pub mod Theorem
