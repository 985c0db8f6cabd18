-- ===== src/Integrations.antt =====
-- The two reference runtimes (minority_prophet/runtime_integrations.py) behind the contract of
-- Runtime/Adapter: an in-process tool and an HTTP endpoint, both with target-side idempotency.
pub mod Prepared
pub mod Tool
pub mod Http
pub mod Idempotent
pub mod ToolOnce
