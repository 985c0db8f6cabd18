-- ===== src/Receipts.antt =====
-- The reference verifier of signed receipts (minority_prophet/receipt_verifier.py): what it remembers,
-- how it answers, what its memory promises, and what it does not.
pub mod Verifier
pub mod Families
pub mod Signed
