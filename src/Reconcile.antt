-- ===== src/Reconcile.antt =====
-- bkb-store/src/reconcile.rs: reversible equivalences between the records of two forges.
pub mod Lookup
pub mod Bind
pub mod Target
pub mod Observe
pub mod Sound
pub mod Run
pub mod View
mod Tests
