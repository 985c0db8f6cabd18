-- ===== src/Runtime.antt =====
-- The neutral execution boundary (minority_prophet/runtime_adapter.py): frozen actions, receipts,
-- the adapter contract and the controller that makes one outcome of one decision.
pub mod Action
pub mod Adapter
pub mod Controller
pub mod ExactlyOnce
pub mod Between
pub mod Replay
pub mod Refusals
