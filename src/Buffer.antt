-- ===== src/Buffer.antt =====
-- src/traact/buffer: the buffers of components and time steps, and those of a time domain.
pub mod SourceComponentBuffer
pub mod TimeStepBuffer
pub mod ComponentBuffer
pub mod TimeDomainBuffer
