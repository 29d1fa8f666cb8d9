-- ===== src/Durations.antt =====
-- ISO 8601 durations (engine/iso_8601.go).
pub mod Parse
pub mod Calculate
pub mod Grammar
pub mod Meaning
pub mod Scanned
pub mod Written
pub mod Accepted
