-- ===== src/Router/Types.antt =====
-- evidence_router.py: the dataclasses, with the checks that their constructors make.
use minority_prophet_gate.Base.{
  ℕ, ◌-◌, suc, Bool, true, false, not, ◌||◌, Option, List, [], ◌∷◌, ◌==◌, ltb, leb, length,
  if◌then◌else◌, Outcome, ok, ◌>>=◌, ◌>>◌, raise_if,
}
use minority_prophet_gate.Adapter.Envelope.{Envelope}
use minority_prophet_gate.Request.Policy.{
  CollectorKind, OutputRole, CollectorRoute, EvidenceRequirement, known_kind, all_distinct,
}
use minority_prophet_gate.Audit.Event.{
  RoutingError, collector_text_required, collector_kind_invalid, capabilities_invalid,
  capabilities_repeated, item_incomplete, envelope_mutated,
}

pub record CollectorDescriptor : Type 0 where
  pub collector_id : ℕ
  pub collector_kind : CollectorKind
  pub capabilities : List ℕ
  pub control_domain : ℕ

abbrev pub some_empty : (ℕ → ℕ) → List ℕ → Bool
some_empty strip [] = false
some_empty strip (t ∷ ts) = strip t == 0 || some_empty strip ts

-- `not collector_kind.strip()`
abbrev pub empty_kind : (ℕ → ℕ) → CollectorKind → Bool
empty_kind strip (CollectorKind.other_kind t) = strip t == 0
empty_kind strip _ = false

-- `CollectorDescriptor.__post_init__`
unfoldable pub new_descriptor :
    (ℕ → ℕ) → CollectorDescriptor → Outcome RoutingError CollectorDescriptor
new_descriptor strip d = do
  raise_if (strip d.collector_id == 0) collector_text_required
  raise_if (empty_kind strip d.collector_kind) collector_text_required
  raise_if (strip d.control_domain == 0) collector_text_required
  raise_if (not (known_kind d.collector_kind)) collector_kind_invalid
  raise_if (length d.capabilities == 0 || some_empty strip d.capabilities) capabilities_invalid
  raise_if (not (all_distinct d.capabilities)) capabilities_repeated
  ok d

-- Python's integers, for an item cap: a request for fewer items than requirements gives caps that
-- may lie below 0.
pub data ℤ : Type 0 where
  pos negsuc : ℕ → ℤ

abbrev pub minus : ℕ → ℕ → ℤ
minus a b = if leb b a then pos (a - b) else negsuc (b - suc a)

-- `n > cap`
abbrev pub exceeds : ℕ → ℤ → Bool
exceeds n (pos m) = ltb m n
exceeds n (negsuc m) = true

-- EvidenceDispatch without its id: `unsigned_payload`.
pub record DispatchPayload : Type 0 where
  pub challenge_id : ℕ
  pub action_digest : ℕ
  pub decision_subject : ℕ
  pub policy_id : ℕ
  pub collection_round : ℕ
  pub requester_control_domain : ℕ
  pub route : CollectorRoute
  pub requirements : List EvidenceRequirement
  pub max_evidence_items : ℤ

pub record EvidenceDispatch : Type 0 where
  pub dispatch_id : ℕ
  pub payload : DispatchPayload
  pub grants_protected_action_authority : Bool

pub record CollectionAuthorization : Type 0 where
  pub authorization_id : ℕ
  pub dispatch_id : ℕ
  pub challenge_id : ℕ
  pub collector_id : ℕ
  pub allowed_actions : List ℕ
  pub grants_protected_action_authority : Bool

-- An envelope as a collector returns it, with the evidence kind that its `attest` block names.
pub record ReturnedEnvelope : Type 0 where
  pub body : Envelope
  pub attested_kind : Option ℕ

-- The digests of the canonical JSON of the router's values.
pub record Digests : Type 0 where
  pub dispatch_digest : DispatchPayload → ℕ
  pub envelope_digest_of : ReturnedEnvelope → ℕ
  pub item_digest : ℕ → ℕ → ℕ → ℕ

pub record CollectedEvidence : Type 0 where
  pub requirement_id : ℕ
  pub evidence_kind : ℕ
  pub envelope : ReturnedEnvelope
  pub envelope_digest : ℕ

module _ (hash : Digests) where
  -- `CollectedEvidence.__post_init__`
  unfoldable pub new_item : ℕ → ℕ → ReturnedEnvelope → Outcome RoutingError CollectedEvidence
  new_item requirement_id evidence_kind envelope = do
    raise_if (requirement_id == 0 || evidence_kind == 0) item_incomplete
    ok (record {
      requirement_id = requirement_id;
      evidence_kind = evidence_kind;
      envelope = envelope;
      envelope_digest = hash.envelope_digest_of envelope;
    })

  unfoldable pub verify_integrity : CollectedEvidence → Outcome RoutingError (Unit {0})
  verify_integrity i =
      raise_if (not (hash.envelope_digest_of i.envelope == i.envelope_digest)) envelope_mutated

  unfoldable pub envelope_copy : CollectedEvidence → Outcome RoutingError ReturnedEnvelope
  unfolding verify_integrity
  envelope_copy i = verify_integrity i >> ok i.envelope

  -- the property `digest`
  unfoldable pub digest : CollectedEvidence → Outcome RoutingError ℕ
  unfolding verify_integrity
  digest i =
      verify_integrity i >> ok (hash.item_digest i.requirement_id i.evidence_kind i.envelope_digest)

  unfoldable pub digests : List CollectedEvidence → Outcome RoutingError (List ℕ)
  unfolding digest
  digests [] = ok []
  digests (i ∷ is) = digest i >>= λ d. digests is >>= λ ds. ok (d ∷ ds)

  -- `EvidenceCollectionResult.envelopes`
  unfoldable pub envelopes : List CollectedEvidence → Outcome RoutingError (List ReturnedEnvelope)
  unfolding envelope_copy
  envelopes [] = ok []
  envelopes (i ∷ is) = envelope_copy i >>= λ e. envelopes is >>= λ es. ok (e ∷ es)

pub data ResultStatus : Type 0 where
  completed unavailable needs_human failed : ResultStatus
  other_status : ℕ → ResultStatus

pub record EvidenceCollectionResult : Type 0 where
  pub dispatch_id : ℕ
  pub challenge_id : ℕ
  pub collector_id : ℕ
  pub status : ResultStatus
  pub items : List CollectedEvidence
  pub grants_protected_action_authority : Bool

-- The details of the router's events.
pub data Details : Type 0 where
  no_details : Details
  of_challenge : (action_digest policy_id round reason_code : ℕ) → Details
  of_route :
      (kind : CollectorKind) (capability : ℕ) (role : OutputRole) (requirement_ids : List ℕ)
      (allowed_actions : List ℕ) (requires_independence : Bool)
      → Details
  of_error : (error_type : ℕ) → Details
  of_collector : (collector_id : ℕ) → Details
  of_collector_error : (collector_id error_type : ℕ) → Details
  of_authorization : (authorization_id collector_id : ℕ) (allowed_actions : List ℕ) → Details
  of_return : (collector_id : ℕ) (status : ResultStatus) (digests : List ℕ) (count : ℕ) → Details
  of_decision : (action route round : ℕ) (grants_authority : Bool) → Details
