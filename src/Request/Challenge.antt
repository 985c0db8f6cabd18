-- ===== src/Request/Challenge.antt =====
-- evidence_request.py: EvidenceRequest, and how one is issued, verified and bound to its return.
use minority_prophet_gate.Base.{
  ℕ, ◌+◌, Bool, false, not, ◌&&◌, Option, none, some, List, ◌==◌, leb, Outcome, ok, ◌>>=◌, ◌>>◌,
  raise_if,
}
use minority_prophet_gate.Request.Policy.{
  RequestError, checked_text, EvidenceRequirement, EvidenceRequestPolicy, same_requirements,
  unsupported_schema, authority_claimed, integrity_failed, round_invalid, exhausted,
  action_substituted, subject_substituted, policy_substituted, digest_substituted,
  requirements_substituted, rounds_substituted, items_substituted,
}

-- The text "minority-prophet.evidence-request.v1".
abbrev pub schema_version : ℕ
schema_version = 1

-- `unsigned_payload`; its `grants_authority` is always false.
pub record Payload : Type 0 where
  pub schema : ℕ
  pub action_digest : ℕ
  pub decision_subject : ℕ
  pub policy_id : ℕ
  pub policy_digest : ℕ
  pub reason_code : ℕ
  pub round : ℕ
  pub max_rounds : ℕ
  pub max_evidence_items : ℕ
  pub requirements : List EvidenceRequirement
  pub previous_challenge_id : Option ℕ

pub record EvidenceRequest : Type 0 where
  pub challenge_id : ℕ
  pub payload : Payload
  pub grants_authority : Bool

-- What the language gives on numbered texts: `strip`, and the SHA-256 of the canonical JSON of a
-- policy and of a challenge.
pub record Host : Type 0 where
  pub strip : ℕ → ℕ
  pub policy_digest : EvidenceRequestPolicy → ℕ
  pub payload_digest : Payload → ℕ

module _ (host : Host) where
  unfoldable pub verify_evidence_request : EvidenceRequest → Outcome RequestError (Unit {0})
  verify_evidence_request r = do
    raise_if (not (r.payload.schema == schema_version)) unsupported_schema
    raise_if r.grants_authority authority_claimed
    raise_if (not (r.challenge_id == host.payload_digest r.payload)) integrity_failed

  unfoldable pub validate_evidence_return :
      EvidenceRequest → EvidenceRequestPolicy → ℕ → ℕ → ℕ → Outcome RequestError (Unit {0})
  unfolding verify_evidence_request checked_text
  validate_evidence_return r policy action_digest decision_subject policy_id = do
    verify_evidence_request r
    action ← checked_text host.strip action_digest
    subject ← checked_text host.strip decision_subject
    pid ← checked_text host.strip policy_id
    raise_if (not (action == r.payload.action_digest)) action_substituted
    raise_if (not (subject == r.payload.decision_subject)) subject_substituted
    raise_if (not (pid == r.payload.policy_id)) policy_substituted
    raise_if (not (host.policy_digest policy == r.payload.policy_digest)) digest_substituted
    raise_if (not (same_requirements r.payload.requirements policy.requirements))
        requirements_substituted
    raise_if (not (r.payload.max_rounds == policy.max_rounds)) rounds_substituted
    raise_if (not (r.payload.max_evidence_items == policy.max_evidence_items_per_round))
        items_substituted
    raise_if (not (leb 1 r.payload.round && leb r.payload.round policy.max_rounds)) round_invalid

  -- `round_number` and `previous_id` of the next challenge.
  unfoldable pub next_round :
      EvidenceRequestPolicy
      → ℕ
      → ℕ
      → ℕ
      → Option EvidenceRequest
      → Outcome RequestError (ℕ × Option ℕ)
  unfolding validate_evidence_return
  next_round policy action_digest decision_subject policy_id none = ok (1, none)
  next_round policy action_digest decision_subject policy_id (some previous) = do
    validate_evidence_return previous policy action_digest decision_subject policy_id
    raise_if (leb policy.max_rounds previous.payload.round) exhausted
    ok (previous.payload.round + 1, some previous.challenge_id)

  abbrev pub challenge : EvidenceRequestPolicy → ℕ → ℕ → ℕ → ℕ → ℕ × Option ℕ → Payload
  challenge policy action subject pid reason (round, previous) = record {
    schema = schema_version;
    action_digest = action;
    decision_subject = subject;
    policy_id = pid;
    policy_digest = host.policy_digest policy;
    reason_code = reason;
    round = round;
    max_rounds = policy.max_rounds;
    max_evidence_items = policy.max_evidence_items_per_round;
    requirements = policy.requirements;
    previous_challenge_id = previous;
  }

  unfoldable pub issue_evidence_request :
      EvidenceRequestPolicy
      → ℕ
      → ℕ
      → ℕ
      → ℕ
      → Option EvidenceRequest
      → Outcome RequestError EvidenceRequest
  unfolding checked_text next_round
  issue_evidence_request policy action_digest decision_subject policy_id reason_code previous = do
    action ← checked_text host.strip action_digest
    subject ← checked_text host.strip decision_subject
    pid ← checked_text host.strip policy_id
    reason ← checked_text host.strip reason_code
    position ← next_round policy action subject pid previous
    let payload = challenge policy action subject pid reason position
    ok (record {
      challenge_id = host.payload_digest payload;
      payload = payload;
      grants_authority = false;
    })
