-- ===== src/Enum.antt =====
-- The enums of model/element_type.go and engine/model.go, a module for each.
pub mod ElementType
pub mod InstanceState
pub mod JobType
pub mod TaskType
pub mod UserTaskState
pub mod WorkState
