-- ===== src/Runtime/Action.antt =====
-- runtime_adapter.py: RuntimeAction, RuntimeReceipt and the errors of the boundary.
use minority_prophet_gate.Base.{ℕ, Bool, true, false, ◌&&◌, ◌||◌, ◌==◌, if◌then◌else◌, Option}
use minority_prophet_gate.Base.{Outcome, ok, raised}
use minority_prophet_gate.Base.Json.{Fields}
use minority_prophet_gate.GateTypes.{GateAction}

pub record RuntimeAction : Type 0 where
  pub action_id : ℕ
  pub action_type : ℕ
  pub target : ℕ
  pub payload_digest : ℕ
  pub idempotency_key : ℕ
  pub payload : Fields

-- RuntimeBoundaryError by its message, and what an adapter or its tool may raise.
pub data Fault : Type 0 where
  field_required : Fault
  key_substituted unresolved_attempt non_final_action : Fault
  unknown_action : GateAction → Fault
  receipt_substituted_action receipt_substituted_key receipt_effect_mismatch : Fault
  release_substituted release_mismatch prepared_substituted notifier_required mandate_unreadable :
      Fault
  not_allowlisted payload_digest_mismatch unprepared_action key_error : Fault
  http_rejected external : ℕ → Fault

-- `RuntimeAction.__post_init__`
unfoldable pub new_action : RuntimeAction → Outcome Fault RuntimeAction
new_action a =
    if a.action_id == 0
      || a.action_type == 0
      || a.target == 0
      || a.payload_digest == 0
      || a.idempotency_key == 0
    then raised field_required
    else ok a

pub record Fingerprint : Type 0 where
  pub action_id : ℕ
  pub action_type : ℕ
  pub target : ℕ
  pub payload_digest : ℕ

abbrev pub fingerprint : RuntimeAction → Fingerprint
fingerprint a = record {
  action_id = a.action_id;
  action_type = a.action_type;
  target = a.target;
  payload_digest = a.payload_digest;
}

-- `==` on two fingerprints
abbrev pub same_fingerprint : Fingerprint → Fingerprint → Bool
same_fingerprint f g =
    f.action_id == g.action_id
    && f.action_type == g.action_type
    && f.target == g.target
    && f.payload_digest == g.payload_digest

pub data Status : Type 0 where
  succeeded prevented : Status
  other_status : ℕ → Status

abbrev pub same_status : Status → Status → Bool
same_status succeeded succeeded = true
same_status prevented prevented = true
same_status (other_status a) (other_status b) = a == b
same_status _ _ = false

-- The `diagnostics` of a receipt.
pub data ReceiptNote : Type 0 where
  no_note : ReceiptNote
  prevented_because : GateAction → ReceiptNote
  http_status : ℕ → ReceiptNote

pub record RuntimeReceipt : Type 0 where
  pub action_id : ℕ
  pub idempotency_key : ℕ
  pub status : Status
  pub attempt_count : ℕ
  pub result_digest : Option ℕ
  pub diagnostics : ReceiptNote
