-- ===== src/Selective.antt =====
-- The selective ladder (minority_prophet/selective_hybrid.py): deterministic policy first, evidence
-- where the policy asks for it, and collection or a human where evidence does not settle it.
pub mod Types
pub mod Ladder
pub mod Requests
pub mod Proceeds
