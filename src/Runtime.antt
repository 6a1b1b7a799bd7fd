-- ===== src/Runtime.antt =====
-- src/runtime: the instance state, the write requests and the write gate of a database instance.
pub mod State
pub mod Request
pub mod Gate
