-- ===== src/Util.antt =====
-- include/traact/util: ring buffers and waiting primitives.

pub mod Semaphore
pub mod CircularBuffer
mod Examples
