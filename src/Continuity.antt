-- ===== src/Continuity.antt =====
-- Authority continuity (minority_prophet/authority_continuity.py): the consumer of Border's
-- receipts, the nonce stores, and the signed execution receipts that rest on a continuity-backed
-- proceed (minority_prophet/execution_receipt.py).
pub mod Receipt
pub mod Nonces
pub mod Authorize
pub mod Once
pub mod Execution
pub mod ExecutionLaws
