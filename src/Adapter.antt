-- ===== src/Adapter.antt =====
-- The envelope adapter (minority_prophet/adapter_acp.py): verified message dicts become claims.
pub mod Envelope
pub mod Depth
pub mod Freshness
pub mod Lineage
pub mod Intake
pub mod Settled
pub mod Filed
pub mod Consistent
