-- ===== src/Runtime/Controller.antt =====
-- runtime_adapter.py: RuntimeController. The intent is written before the effect.
use minority_prophet_gate.Base.{
  ℕ, ◌||◌, not, none, some, ◌==◌, if◌then◌else◌, Dict, lookup, insert, Outcome, ok, raised,
}
use minority_prophet_gate.GateTypes.{GateAction, GateDecision}
use minority_prophet_gate.Runtime.Action.{
  RuntimeAction, Fingerprint, fingerprint, same_fingerprint, Status, succeeded, prevented,
  same_status, RuntimeReceipt, Fault, key_substituted, unresolved_attempt, non_final_action,
  unknown_action, receipt_substituted_action, receipt_substituted_key, receipt_effect_mismatch,
}
use minority_prophet_gate.Runtime.Adapter.{RuntimeAdapter}

pub data Slot : Type 0 where
  pending : Slot
  settled : RuntimeReceipt → Slot

pub record Entry : Type 0 where
  pub fingerprint : Fingerprint
  pub slot : Slot

-- `_ledger`, by idempotency key
abbrev pub Ledger : Type 0
Ledger = Dict Entry

unfoldable pub validate_receipt :
    RuntimeAction → RuntimeReceipt → Status → ℕ → Outcome Fault (Unit {0})
validate_receipt a r status attempts =
    if not (r.action_id == a.action_id)
    then raised receipt_substituted_action
    else if not (r.idempotency_key == a.idempotency_key)
    then raised receipt_substituted_key
    else if not (same_status r.status status) || not (r.attempt_count == attempts)
    then raised receipt_effect_mismatch
    else ok tt

-- What a method call leaves: its result or exception, the ledger, and the runtime's state.
abbrev pub Effect : Type 0 → Type 0
Effect W = Outcome Fault RuntimeReceipt × Ledger × W

-- The answer for a key that the ledger holds. Nothing is called.
unfoldable pub replay : Entry → RuntimeAction → Outcome Fault RuntimeReceipt
replay e a =
    if not (same_fingerprint e.fingerprint (fingerprint a))
    then raised key_substituted
    else elim e.slot [ pending ↦ raised unresolved_attempt | settled r ↦ ok r ]

abbrev pub entry : RuntimeAction → Slot → Entry
entry a s = record { fingerprint = fingerprint a; slot = s }

module _ {W : Type 0} where
  -- The receipt is validated, and only a valid one is recorded.
  unfoldable pub settle :
      RuntimeAction → Status → ℕ → Outcome Fault RuntimeReceipt → Ledger → W → Effect W
  unfolding validate_receipt
  settle a status attempts (raised e) led w = (raised e, led, w)
  settle a status attempts (ok r) led w = elim (validate_receipt a r status attempts) [
    | ok _ ↦ (ok r, insert a.idempotency_key (entry a (settled r)) led, w)
    | raised e ↦ (raised e, led, w)
  ]

module _ {W P : Type 0} (ad : RuntimeAdapter W P) where
  -- The pending entry stands before `execute_once` is called.
  unfoldable pub execute : RuntimeAction → Outcome Fault P → Ledger → W → Effect W
  unfolding settle
  execute a (raised e) led w = (raised e, led, w)
  execute a (ok prepared) led w =
      let marked = insert a.idempotency_key (entry a pending) led in
      let (r, w') = ad.execute_once prepared w in settle a succeeded 1 r marked w'

  unfoldable pub prevent : RuntimeAction → GateAction → Ledger → W → Effect W
  unfolding settle
  prevent a why led w = let (r, w') = ad.prevent a why w in settle a prevented 0 r led w'

  -- The branches of `apply` for a key that the ledger does not hold.
  unfoldable pub first_attempt : GateAction → RuntimeAction → Ledger → W → Effect W
  unfolding execute prevent
  first_attempt GateAction.proceed a led w = let (p, w') = ad.prepare a w in execute a p led w'
  first_attempt GateAction.block a led w = prevent a GateAction.block led w
  first_attempt GateAction.escalate a led w = prevent a GateAction.escalate led w
  first_attempt GateAction.request_evidence a led w = (raised non_final_action, led, w)
  first_attempt (GateAction.other t) a led w =
      (raised (unknown_action (GateAction.other t)), led, w)

  unfoldable pub apply : GateDecision → RuntimeAction → Ledger → W → Effect W
  unfolding replay first_attempt
  apply d a led w = elim (lookup a.idempotency_key led) [
    | some e ↦ (replay e a, led, w)
    | none ↦ first_attempt d.action a led w
  ]
