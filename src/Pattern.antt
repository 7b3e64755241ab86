-- ===== src/Pattern.antt =====
-- src/traact/pattern: ports, patterns, their instances, and the graph of instances.
-- Parameters (JSON), coordinate systems and edges of the spatial graph are no part of the model.
pub mod Port
pub mod Build
pub mod Numbering
pub mod Groups
pub mod Calls
pub mod Instance
pub mod Graph
mod Examples
