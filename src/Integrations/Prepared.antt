-- ===== src/Integrations/Prepared.antt =====
-- runtime_integrations.py: PreparedAction, `_freeze`, and the answer to a prevented action.
use minority_prophet_gate.Base.{ℕ, none, ◌==◌, if◌then◌else◌, Outcome, ok, raised}
use minority_prophet_gate.Base.Json.{Fields}
use minority_prophet_gate.GateTypes.{GateAction}
use minority_prophet_gate.Runtime.Action.{
  RuntimeAction, RuntimeReceipt, Fault, payload_digest_mismatch, prevented, prevented_because,
}

-- What a caller may hand to `execute_once`: a prepared action, or any other object.
pub data Handed : Type 0 where
  prepared : RuntimeAction → Handed
  foreign : Handed

-- `payload_digest` is the SHA-256 of the payload's canonical JSON: the function `digest`.
unfoldable pub freeze : (Fields → ℕ) → RuntimeAction → Outcome Fault Handed
freeze digest a =
    if digest a.payload == a.payload_digest then ok (prepared a) else raised payload_digest_mismatch

unfoldable pub prevent_receipt : RuntimeAction → GateAction → RuntimeReceipt
prevent_receipt a why = record {
  action_id = a.action_id;
  idempotency_key = a.idempotency_key;
  status = prevented;
  attempt_count = 0;
  result_digest = none;
  diagnostics = prevented_because why;
}
