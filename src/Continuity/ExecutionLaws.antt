-- ===== src/Continuity/ExecutionLaws.antt =====
-- What an execution receipt testifies (minority_prophet/execution_receipt.py).
use minority_prophet_gate.Base.{ℕ, ◌≡◌, Bool, true, Option, some, arith, ok}
use minority_prophet_gate.GateTypes.{GateDecision}
use minority_prophet_gate.Runtime.Action.{RuntimeAction, Fingerprint, fingerprint, RuntimeReceipt}
use minority_prophet_gate.Continuity.Execution.{
  Statement, SignedReceipt, issue_execution_receipt, verify_execution_receipt,
}

module _ (bind : Fingerprint → ℕ) (a : RuntimeAction) (env : SignedReceipt) where
  -- A receipt that was issued verifies for the same action, with any verifier that accepts what the
  -- signer signed under the statement's key.
  pub verify-issue :
      (r : RuntimeReceipt) (gate : GateDecision) (runtime_id key_id executed_at : ℕ)
      (signer : Statement → Option ℕ) (verifier : Statement → ℕ → ℕ → Bool)
      → ((st : Statement) (sig : ℕ) → signer st ≡ some sig → verifier st sig st.key_id ≡ true)
      → issue_execution_receipt bind a r gate runtime_id key_id executed_at signer ≡ ok env
      → verify_execution_receipt bind env a verifier ≡ true
  unfolding issue_execution_receipt verify_execution_receipt
  verify-issue r gate runtime_id key_id executed_at signer verifier accepts h =
      ground (arith, accepts env.statement env.signature)

  -- If the binding digest tells the fingerprints of two actions apart, no receipt verifies for
  -- both unless they agree in id, key, type, target and payload digest.
  pub verify-binds :
      (b : RuntimeAction) (verifier verifier' : Statement → ℕ → ℕ → Bool)
      → (bind (fingerprint a) ≡ bind (fingerprint b) → fingerprint a ≡ fingerprint b)
      → verify_execution_receipt bind env a verifier ≡ true
      → verify_execution_receipt bind env b verifier' ≡ true
      → (a.idempotency_key ≡ b.idempotency_key) × (fingerprint a ≡ fingerprint b)
  unfolding verify_execution_receipt
  verify-binds b verifier verifier' apart h h' = ground arith
