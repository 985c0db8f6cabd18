-- ===== src/Cases.antt =====
-- The store of evidence cases (minority_prophet/case_store.py): its tables and operations, what holds
-- while one writer uses it, and what two writers can do to it.
pub mod Store
pub mod Consistent
pub mod Readable
pub mod Forward
pub mod Bound
pub mod Stale
