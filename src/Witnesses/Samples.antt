-- ===== src/Witnesses/Samples.antt =====
-- Sample claims, envelopes, actions and decisions.
use minority_prophet_gate.Base.{ℕ, ◌+◌, Bool, true, none, some, List, [], ◌∷◌, ok, raised}
use minority_prophet_gate.Base.Json.{Json, end, field}
use minority_prophet_gate.GateTypes.{one, GateAction, GateDecision, no_diagnostics}
use minority_prophet_gate.Aggregator.Graph.{Claim}
use minority_prophet_gate.Adapter.Envelope.{Attest, Envelope}
use minority_prophet_gate.Adapter.Freshness.{no_freshness}
use minority_prophet_gate.Adapter.Intake.{Settings}
use minority_prophet_gate.Runtime.Action.{
  RuntimeAction, RuntimeReceipt, Fault, succeeded, prevented, no_note,
}
use minority_prophet_gate.Runtime.Adapter.{RuntimeAdapter}

abbrev pub root_claim : ℕ → ℕ → Claim
root_claim id value = record { id = id; assertion = value; parent = none; weight = one }

abbrev pub derived_claim : ℕ → ℕ → ℕ → Claim
derived_claim id value parent = record {
  id = id;
  assertion = value;
  parent = some parent;
  weight = one;
}

-- Two roots for 1, one against.
abbrev pub three_roots : List Claim
three_roots = root_claim 1 1 ∷ root_claim 2 1 ∷ root_claim 3 0 ∷ []

abbrev pub plain_attest : Attest
plain_attest = record {
  origin = some "probe-1";
  origin_class = none;
  witness_depth = none;
  derived_from = none;
  subject = none;
  observed_at_age_s = none;
  observed_at = none;
  sig = none;
}

abbrev pub envelope : ℕ → Bool → Envelope
envelope id value = record {
  claim_id = some id;
  assertion = some (Json.bool value);
  attest = plain_attest;
}

abbrev pub settings : Settings
settings = record {
  now = 100;
  decay = λ age half. one;
  decision_subject = none;
  unbound_root_weight = one;
  freshness = no_freshness;
  depth_weights = none;
}

abbrev pub charge : RuntimeAction
charge = record {
  action_id = 11;
  action_type = 12;
  target = 13;
  payload_digest = 14;
  idempotency_key = 15;
  payload = field "reversible" (Json.bool true) end;
}

abbrev pub decision_to : GateAction → GateDecision
decision_to g = record {
  action = g;
  decision = some 1;
  flip_budget = one;
  confidence = record { num = 1; den = 1 };
  roots_for = 1;
  roots_against = 0;
  diagnostics = record no_diagnostics { subject = some 40 };
  conversions_to_reverse = none;
}

abbrev pub receipt_of : RuntimeAction → RuntimeReceipt
receipt_of a = record {
  action_id = a.action_id;
  idempotency_key = a.idempotency_key;
  status = succeeded;
  attempt_count = 1;
  result_digest = some 16;
  diagnostics = no_note;
}

-- A runtime that counts its executions, and one whose executions raise.
abbrev pub counting : RuntimeAdapter ℕ RuntimeAction
counting = record {
  prepare = λ a w. (ok a, w);
  execute_once = λ a w. (ok (receipt_of a), w + 1);
  prevent = λ a why w. (ok (record (receipt_of a) { status = prevented; attempt_count = 0 }), w);
}

abbrev pub failing : RuntimeAdapter ℕ RuntimeAction
failing = record counting { execute_once = λ a w. (raised (Fault.external 3), w + 1) }
