-- ===== src/Commit.antt =====
-- src/commit/descriptor.rs: the transaction descriptor and the system metadata, one module for each
-- encoded object.
pub mod Errors
pub mod Position
pub mod Keys
pub mod TxMeta
pub mod Identity
pub mod Mutation
pub mod Descriptor
pub mod Frontier
pub mod RecoveryState
pub mod Preflight
pub mod Plan
pub mod Prepare
pub mod Durability
pub mod Coordinator
