-- ===== src/Ledger.antt =====
-- The SQLite ledger of evidence routing (minority_prophet/evidence_ledger.py): its tables, the check
-- of their integrity, appends, artifacts and the human queue, and what holds of them.
pub mod Tables
pub mod Artifacts
pub mod Verify
pub mod Append
pub mod Agree
pub mod Keeps
pub mod Machine
pub mod Refines
pub mod Runs
pub mod Store
pub mod Persist
