-- ===== src/Router/Checks.antt =====
-- evidence_router.py: `_verify_dispatch`, `_verify_collector`, `_verify_authorization` and
-- `_verify_result`.
use minority_prophet_gate.Base.{
  ℕ, Bool, true, false, not, ◌&&◌, Option, none, some, List, [], ◌∷◌, ◌==◌, length, elem, add_elem,
  if◌then◌else◌, is_none, same, Outcome, ok, raised, ◌>>=◌, ◌>>◌, raise_if,
}
use minority_prophet_gate.Request.Policy.{
  OutputRole, EvidenceRequirement, kind_code, is_agent, same_texts, requirement_ids,
}
use minority_prophet_gate.Audit.Event.{
  RoutingError, authority_granted, dispatch_integrity, kind_mismatch, capability_missing,
  agent_substituted, not_independent, authorization_substituted, authorization_id_required,
  result_substituted, status_invalid, too_many_items, items_not_completed, handoff_collected,
  unknown_requirement, kind_disallowed, kind_unbound, assertion_missing, assertion_in_artifact,
  requirements_unsatisfied,
}
use minority_prophet_gate.Router.Types.{
  CollectorDescriptor, exceeds, EvidenceDispatch, CollectionAuthorization, Digests,
  CollectedEvidence, verify_integrity, ResultStatus, EvidenceCollectionResult,
}

unfoldable pub verify_dispatch : Digests → EvidenceDispatch → Outcome RoutingError (Unit {0})
verify_dispatch hash d = do
  raise_if d.grants_protected_action_authority authority_granted
  raise_if (not (d.dispatch_id == hash.dispatch_digest d.payload)) dispatch_integrity

unfoldable pub verify_collector :
    EvidenceDispatch → CollectorDescriptor → Outcome RoutingError (Unit {0})
verify_collector d c = do
  raise_if (not (kind_code c.collector_kind == kind_code d.payload.route.collector_kind))
      kind_mismatch
  raise_if (not (elem d.payload.route.capability c.capabilities)) capability_missing
  raise_if
      (is_agent d.payload.route.collector_kind
        && not (c.control_domain == d.payload.requester_control_domain))
      agent_substituted
  raise_if
      (d.payload.route.requires_independence
        && c.control_domain == d.payload.requester_control_domain)
      not_independent

unfoldable pub verify_authorization :
    EvidenceDispatch
    → CollectorDescriptor
    → CollectionAuthorization
    → Outcome RoutingError (Unit {0})
verify_authorization d c a = do
  raise_if a.grants_protected_action_authority authority_granted
  raise_if (not (a.dispatch_id == d.dispatch_id)) authorization_substituted
  raise_if (not (a.challenge_id == d.payload.challenge_id)) authorization_substituted
  raise_if (not (a.collector_id == c.collector_id)) authorization_substituted
  raise_if (not (same_texts a.allowed_actions d.payload.route.allowed_actions))
      authorization_substituted
  raise_if (a.authorization_id == 0) authorization_id_required

-- RESULT_STATUSES
abbrev pub known_status : ResultStatus → Bool
known_status (ResultStatus.other_status _) = false
known_status _ = true

abbrev pub is_completed : ResultStatus → Bool
is_completed ResultStatus.completed = true
is_completed _ = false

-- The statuses that a human handoff may have.
abbrev pub fits_handoff : ResultStatus → Bool
fits_handoff ResultStatus.needs_human = true
fits_handoff ResultStatus.unavailable = true
fits_handoff ResultStatus.failed = true
fits_handoff _ = false

abbrev pub is_role : OutputRole → OutputRole → Bool
is_role OutputRole.candidate_evidence OutputRole.candidate_evidence = true
is_role OutputRole.verification_artifact OutputRole.verification_artifact = true
is_role OutputRole.human_handoff OutputRole.human_handoff = true
is_role _ _ = false

-- `{item.requirement_id: item for item in requirements}.get(rid)`: the last of that id.
unfoldable pub requirement_of : ℕ → List EvidenceRequirement → Option EvidenceRequirement
requirement_of rid [] = none
requirement_of rid (r ∷ rs) = elim (requirement_of rid rs) [
  | some found ↦ some found
  | none ↦ if rid == r.requirement_id then some r else none
]

abbrev pub has_items : List CollectedEvidence → Bool
has_items [] = false
has_items (_ ∷ _) = true

module _ (hash : Digests) (d : EvidenceDispatch) where
  unfoldable pub verify_kinds :
      CollectedEvidence → Option EvidenceRequirement → Outcome RoutingError (Unit {0})
  verify_kinds i none = raised unknown_requirement
  verify_kinds i (some r) = do
    raise_if (not (length r.accepted_kinds == 0) && not (elem i.evidence_kind r.accepted_kinds))
        kind_disallowed
    raise_if (not (same i.envelope.attested_kind (some i.evidence_kind))) kind_unbound
    raise_if
        (is_role OutputRole.candidate_evidence d.payload.route.output_role
          && is_none i.envelope.body.assertion)
        assertion_missing
    raise_if
        (is_role OutputRole.verification_artifact d.payload.route.output_role
          && not (is_none i.envelope.body.assertion))
        assertion_in_artifact

  -- one turn of the loop over the items
  unfoldable pub verify_item : CollectedEvidence → Outcome RoutingError (Unit {0})
  unfolding verify_integrity requirement_of verify_kinds
  verify_item i =
      verify_integrity hash i
      >> verify_kinds i (requirement_of i.requirement_id d.payload.requirements)

  -- The loop gives `satisfied`.
  unfoldable pub verify_items : List CollectedEvidence → List ℕ → Outcome RoutingError (List ℕ)
  unfolding verify_item
  verify_items [] satisfied = ok satisfied
  verify_items (i ∷ is) satisfied =
      verify_item i >>= λ _. verify_items is (add_elem i.requirement_id satisfied)

  -- `set(ids) <= satisfied`
  abbrev pub covers : List ℕ → List ℕ → Bool
  covers [] satisfied = true
  covers (x ∷ xs) satisfied = if elem x satisfied then covers xs satisfied else false

  abbrev pub bound : CollectorDescriptor → EvidenceCollectionResult → Bool
  bound c r =
      r.dispatch_id == d.dispatch_id
      && r.challenge_id == d.payload.challenge_id
      && r.collector_id == c.collector_id

  -- `satisfied != set(requirements)`, each satisfied id being one of a requirement
  abbrev pub unsatisfied : EvidenceCollectionResult → List ℕ → Bool
  unsatisfied r satisfied =
      is_completed r.status && not (covers (requirement_ids d.payload.requirements) satisfied)

  unfoldable pub verify_result :
      CollectorDescriptor → EvidenceCollectionResult → Outcome RoutingError (Unit {0})
  unfolding verify_items
  verify_result c r = do
    raise_if r.grants_protected_action_authority authority_granted
    raise_if (not (bound c r)) result_substituted
    raise_if (not (known_status r.status)) status_invalid
    raise_if (exceeds (length r.items) d.payload.max_evidence_items) too_many_items
    raise_if (not (is_completed r.status) && has_items r.items) items_not_completed
    raise_if
        (is_role OutputRole.human_handoff d.payload.route.output_role
          && not (fits_handoff r.status))
        handoff_collected
    satisfied ← verify_items r.items []
    raise_if (unsatisfied r satisfied) requirements_unsatisfied
