-- ===== src/MemoryEvidence.antt =====
-- The consumer of memory evidence (minority_prophet/memory_evidence.py): its lineage, its tests in their
-- order, and what it accepts.
pub mod Lineage
pub mod Acyclic
pub mod Assess
pub mod Mapped
pub mod Traced
pub mod Accepts
pub mod Ends
