-- ===== src/Continuity/Execution.antt =====
-- execution_receipt.py: the signed receipt of one execution. The signer and the verifier of the
-- deployment are parameters; each sees the statement that the canonical JSON stands for.
use minority_prophet_gate.Base.{
  ℕ, Bool, true, false, not, ◌||◌, Option, none, some, ◌==◌, same, if◌then◌else◌, Outcome, ok,
  raised,
}
use minority_prophet_gate.GateTypes.{GateAction, GateDecision}
use minority_prophet_gate.Runtime.Action.{
  RuntimeAction, Fingerprint, fingerprint, RuntimeReceipt, Status, succeeded, same_status,
}

pub data IssueError : Type 0 where
  not_authorized result_mismatch effect_mismatch identity_required chain_missing no_signature :
      IssueError

-- The text "minority-prophet.execution-receipt.v0.1".
abbrev pub receipt_schema : ℕ
receipt_schema = 1

pub record Statement : Type 0 where
  pub schema : ℕ
  pub runtime_id : ℕ
  pub key_id : ℕ
  pub executed_at : ℕ
  pub action_id : ℕ
  pub idempotency_key : ℕ
  pub action_binding_digest : ℕ
  pub effect_digest : ℕ
  pub mandate_chain_digest : ℕ
  pub result_digest : Option ℕ
  pub status : Status
  pub attempt_count : ℕ

-- An envelope with both keys; `exact_keys` says that it has no other.
pub record SignedReceipt : Type 0 where
  pub statement : Statement
  pub signature : ℕ
  pub exact_keys : Bool

-- `gate.diagnostics.get("authority_continuity")`, read as a truth value
abbrev pub holds : Option Bool → Bool
holds none = false
holds (some b) = b

module _ (bind : Fingerprint → ℕ) where
  unfoldable pub statement : RuntimeAction → RuntimeReceipt → ℕ → ℕ → ℕ → ℕ → Statement
  statement a r chain runtime_id key_id executed_at = record {
    schema = receipt_schema;
    runtime_id = runtime_id;
    key_id = key_id;
    executed_at = executed_at;
    action_id = a.action_id;
    idempotency_key = a.idempotency_key;
    action_binding_digest = bind (fingerprint a);
    effect_digest = a.payload_digest;
    mandate_chain_digest = chain;
    result_digest = r.result_digest;
    status = r.status;
    attempt_count = r.attempt_count;
  }

  -- A signer that returns no text, or an empty one, gives `none` or 0.
  unfoldable pub sign : (Statement → Option ℕ) → Statement → Outcome IssueError SignedReceipt
  sign signer st = elim (signer st) [
    | none ↦ raised no_signature
    | some sig ↦
        if sig == 0
        then raised no_signature
        else ok (record { statement = st; signature = sig; exact_keys = true })
  ]

  unfoldable pub issue_execution_receipt :
      RuntimeAction
      → RuntimeReceipt
      → GateDecision
      → ℕ
      → ℕ
      → ℕ
      → (Statement → Option ℕ)
      → Outcome IssueError SignedReceipt
  unfolding statement sign
  issue_execution_receipt a r gate runtime_id key_id executed_at signer =
      if not (elim gate.action [ GateAction.proceed ↦ true | _ ↦ false ])
        || not (holds gate.diagnostics.authority_continuity)
      then raised not_authorized
      else if not (r.action_id == a.action_id)
          || not (r.idempotency_key == a.idempotency_key)
          || not (same_status r.status succeeded)
          || not (r.attempt_count == 1)
      then raised result_mismatch
      else if not (same gate.diagnostics.effect_digest (some a.payload_digest))
      then raised effect_mismatch
      else if runtime_id == 0 || key_id == 0 || executed_at == 0
      then raised identity_required
      else elim gate.diagnostics.chain_digest [
        | none ↦ raised chain_missing
        | some chain ↦ sign signer (statement a r chain runtime_id key_id executed_at)
      ]

  unfoldable pub verify_execution_receipt :
      SignedReceipt → RuntimeAction → (Statement → ℕ → ℕ → Bool) → Bool
  verify_execution_receipt env a verifier =
      let st = env.statement in
      if not env.exact_keys || not (st.schema == receipt_schema)
      then false
      else if not (st.action_id == a.action_id)
      then false
      else if not (st.idempotency_key == a.idempotency_key)
      then false
      else if not (st.action_binding_digest == bind (fingerprint a))
      then false
      else if not (st.effect_digest == a.payload_digest)
      then false
      else verifier st env.signature st.key_id
