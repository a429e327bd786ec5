-- ===== src/Store.antt =====
-- bkb-store/src/sqlite.rs: the tables and the operations that write them.
pub mod Tables
pub mod Writes
pub mod Pages
pub mod Grown
pub mod Reset
pub mod FtsQuery
pub mod Specs
pub mod Timeline
pub mod References
pub mod Valid
pub mod Tests
