-- ===== src/Model.antt =====
-- The BPMN model of the package model: elements, sequence flows, and their kinds.
pub mod Element
pub mod Kinds
pub mod Lookup
