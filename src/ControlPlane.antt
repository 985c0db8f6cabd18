-- ===== src/ControlPlane.antt =====
-- The evidence-control plane (minority_prophet/control_plane.py): one action, one policy, bounded
-- rounds of collection, one decision, one effect or none.
pub mod Types
pub mod Loop
pub mod Request
pub mod Run
pub mod Bounded
pub mod Laws
pub mod Executions
pub mod Keeps
pub mod Routed
