-- ===== src/Model.antt =====
-- bkb-core/src/model.rs: the data that every other part exchanges.
pub mod SourceType
pub mod RefType
pub mod SyncStatus
pub mod Names
pub mod Json
pub mod Document
pub mod Ids
pub mod Concepts
mod Tests
