-- ===== src/Audit.antt =====
-- The audit of evidence routing (minority_prophet/evidence_audit.py): the events, the log that
-- keeps them in a chain of hashes, and what the chain protects.
pub mod Event
pub mod Log
pub mod Chain
pub mod Interface
