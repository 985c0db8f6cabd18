-- ===== src/GateTypes.antt =====
-- The Gate's final decision as the other parts read it (minority_prophet/gate.py, GateDecision).
-- A weight, a margin or a flip budget is a count of millionths of one root, so `one` is 1.0.
use minority_prophet_gate.Base.{ℕ, Bool, Option, none}

abbrev pub one : ℕ
one = 1000000

-- A share such as `mass / total`, kept as the two numbers.
pub record Ratio : Type 0 where
  pub num : ℕ
  pub den : ℕ

pub data GateAction : Type 0 where
  proceed block escalate request_evidence : GateAction
  other : ℕ → GateAction

-- The texts that stand under `reason` in a diagnostics dict or in a selective decision.
pub data Reason : Type 0 where
  no_verifiable_claims no_bound_roots evidence_balanced : Reason
  immunity_violated margin_below_threshold : Reason
  receipt_incomplete unsupported_schema verification_unavailable signature_failed : Reason
  audience_mismatch clock_without_timezone bad_timestamp stale currency_unavailable : Reason
  mandate_revoked effect_mismatch invalid_nonce nonce_store_unavailable replayed : Reason
  evidence_unresolved margin_below_policy conversion_unavailable conversion_below : Reason
  satisfies_policy contradicts_action collection_failed : Reason
  memory_evidence : ℕ → Reason
  exhausted : Reason → Reason
  stated : ℕ → Reason

-- The diagnostics that the program reads back; a missing key is `none`.
pub record Diagnostics : Type 0 where
  pub reason : Option Reason
  pub subject : Option ℕ
  pub immunity_applicable : Option Bool
  pub conversions_to_reverse : Option ℕ
  pub conversions_to_abstention : Option ℕ
  pub quarantined : Option ℕ
  pub authority_continuity : Option Bool
  pub mandate_id : Option ℕ
  pub chain_digest : Option ℕ
  pub effect_digest : Option ℕ

abbrev pub no_diagnostics : Diagnostics
no_diagnostics = record {
  reason = none;
  subject = none;
  immunity_applicable = none;
  conversions_to_reverse = none;
  conversions_to_abstention = none;
  quarantined = none;
  authority_continuity = none;
  mandate_id = none;
  chain_digest = none;
  effect_digest = none;
}

pub record GateDecision : Type 0 where
  pub action : GateAction
  pub decision : Option ℕ
  pub flip_budget : ℕ
  pub confidence : Ratio
  pub roots_for : ℕ
  pub roots_against : ℕ
  pub diagnostics : Diagnostics
  pub conversions_to_reverse : Option ℕ
