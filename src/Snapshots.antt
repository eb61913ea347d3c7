-- ===== src/Snapshots.antt =====
-- unridden/api/snapshots: the registry of saved model states, its prompts and its service.
pub mod Errors
pub mod Schema
pub mod Compiler
pub mod Mapping
pub mod Store
pub mod Service
pub mod Wire
