-- ===== src/Audit/Event.antt =====
-- evidence_audit.py: EvidenceRoutingError, EvidenceAuditEvent and the check of one event.
use minority_prophet_gate.Base.{
  ℕ, Bool, false, not, ◌&&◌, ◌||◌, Option, none, some, List, [], ◌∷◌, ◌==◌, same, Outcome, ◌>>◌,
  raise_if,
}
use minority_prophet_gate.Request.Policy.{RequestError}

-- EvidenceRoutingError by what is wrong, as the log, the ledger, the router and the case store
-- raise it. A challenge's EvidenceRequestError and a ZeroDivisionError pass through them.
pub data RoutingError : Type 0 where
  audit_schema_unsupported sequence_broken hash_chain_broken event_hash_invalid : RoutingError
  invalid_audit_event entry_incomplete : RoutingError
  ledger_sequence_invalid event_index_invalid tag_chain_broken tag_invalid : RoutingError
  dispatch_state_differs transition_invalid : RoutingError
  artifact_missing artifact_digest_invalid envelope_digest_invalid artifact_tag_invalid :
      RoutingError
  artifact_unreadable review_unreadable event_hash_taken : RoutingError
  review_tag_invalid envelope_mutated : RoutingError
  request_refused : RequestError → RoutingError
  domain_required route_conflict division_by_zero : RoutingError
  authority_granted dispatch_integrity : RoutingError
  kind_mismatch capability_missing agent_substituted not_independent : RoutingError
  authorization_substituted authorization_id_required : RoutingError
  result_substituted status_invalid too_many_items items_not_completed handoff_collected :
      RoutingError
  unknown_requirement kind_disallowed kind_unbound assertion_missing assertion_in_artifact :
      RoutingError
  requirements_unsatisfied : RoutingError
  already_terminal attempt_unresolved not_configured authorizer_failed not_authorized : RoutingError
  collector_failed : RoutingError
  outcome_unknown outcome_route_required outcome_unbound outcome_recorded : RoutingError
  collector_text_required collector_kind_invalid capabilities_invalid capabilities_repeated :
      RoutingError
  item_incomplete : RoutingError
  case_fields_required case_rebound case_unknown case_tag_invalid case_closed : RoutingError
  claim_id_required claim_rebound envelopes_missing envelope_tag_invalid : RoutingError
  case_state_invalid case_transition_invalid : RoutingError

-- AUDIT_SCHEMA, the text "minority-prophet.evidence-audit.v1".
abbrev pub audit_schema : ℕ
audit_schema = 1

-- `unsigned_payload`. The details are a JSON object of type `D`; a deep copy of it is itself.
pub record Unsigned (D : Type 0) : Type 0 where
  pub schema : ℕ
  pub sequence : ℕ
  pub occurred_at : ℕ
  pub event_type : ℕ
  pub challenge_id : ℕ
  pub dispatch_id : Option ℕ
  pub route_id : Option ℕ
  pub details : D
  pub previous_event_hash : Option ℕ

pub record EvidenceAuditEvent (D : Type 0) : Type 0 where
  pub payload : Unsigned D
  pub event_hash : ℕ

-- The arguments of `append`.
pub record Entry (D : Type 0) : Type 0 where
  pub event_type : ℕ
  pub challenge_id : ℕ
  pub dispatch_id : Option ℕ
  pub route_id : Option ℕ
  pub details : D

module _ {D : Type 0} where
  -- `has`: an event of that type for the dispatch.
  unfoldable pub has : ℕ → ℕ → List (EvidenceAuditEvent D) → Bool
  has kind dispatch_id [] = false
  has kind dispatch_id (e ∷ es) =
      (e.payload.event_type == kind && same e.payload.dispatch_id (some dispatch_id))
      || has kind dispatch_id es

  unfoldable pub has_challenge : ℕ → ℕ → List (EvidenceAuditEvent D) → Bool
  has_challenge kind challenge_id [] = false
  has_challenge kind challenge_id (e ∷ es) =
      (e.payload.event_type == kind && e.payload.challenge_id == challenge_id)
      || has_challenge kind challenge_id es

  -- The hash of the newest event; the newest stands first.
  abbrev pub last_hash : List (EvidenceAuditEvent D) → Option ℕ
  last_hash [] = none
  last_hash (e ∷ es) = some e.event_hash

  -- `_verify_event`, with the hash of the canonical JSON of a payload.
  unfoldable pub verify_event :
      (Unsigned D → ℕ) → EvidenceAuditEvent D → ℕ → Option ℕ → Outcome RoutingError (Unit {0})
  verify_event hash_json event expected_sequence previous = do
    raise_if (not (event.payload.schema == audit_schema)) audit_schema_unsupported
    raise_if (not (event.payload.sequence == expected_sequence)) sequence_broken
    raise_if (not (same event.payload.previous_event_hash previous)) hash_chain_broken
    raise_if (not (event.event_hash == hash_json event.payload)) event_hash_invalid
