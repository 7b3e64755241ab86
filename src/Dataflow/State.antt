-- ===== src/Dataflow/State.antt =====
-- src/traact/dataflow/state: which task ran when, and what is made of it.
pub mod Tasks
pub mod Recording
pub mod Registry
pub mod Measurements
pub mod Protocol
pub mod Sorting
mod Examples
