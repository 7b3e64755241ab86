-- ===== src/Dataflow/Scheduler.antt =====
-- src/traact/dataflow/taskflow/TaskFlowInFlowScheduler.{h,cpp}: which event runs in which of the
-- concurrent time steps, and which source may fill in which buffer.
pub mod State
pub mod Ring
pub mod Slots
pub mod Commit
pub mod Invariant
pub mod Scheduling
pub mod Freeing
pub mod Ended
pub mod Padding
pub mod Cancelled
pub mod Requested
pub mod Immediate
pub mod Stopping
pub mod Refusing
mod Examples
pub mod Cancel
pub mod Request
