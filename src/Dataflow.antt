-- ===== src/Dataflow.antt =====
-- src/traact/dataflow: the clock, the scheduler, the profile state and the task graph.
pub mod Clock
pub mod State
pub mod TaskId
pub mod Scheduler
pub mod TaskFunctions
pub mod Graph
