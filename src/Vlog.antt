-- ===== src/Vlog.antt =====
-- src/vlog/format.rs: the physical format of the Value Log.
pub mod Errors
pub mod Pointer
pub mod PageHeader
pub mod FileHeader
pub mod RecordHeader
pub mod Record
pub mod Geometry
pub mod Planner
pub mod Envelope
