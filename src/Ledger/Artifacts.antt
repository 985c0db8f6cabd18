-- ===== src/Ledger/Artifacts.antt =====
-- evidence_ledger.py: `_verified_artifact`, `persist_collection_result`, `artifact` and the human queue.
-- A transaction that raises leaves the ledger as it was, so it gives no ledger.
use minority_prophet_gate.Base.{
  ℕ, Bool, true, false, not, Option, none, some, List, [], ◌∷◌, ◌++◌, ◌==◌, if◌then◌else◌, length,
  Dict, lookup, Outcome, ok, raised, ◌>>=◌, ◌>>◌, raise_if,
}
use minority_prophet_gate.Audit.Event.{
  RoutingError, artifact_missing, artifact_digest_invalid, envelope_digest_invalid,
  artifact_tag_invalid, artifact_unreadable, review_unreadable, review_tag_invalid,
}
use minority_prophet_gate.Router.Types.{
  EvidenceDispatch, CollectedEvidence, EvidenceCollectionResult, ReturnedEnvelope, envelope_copy,
  digest,
}
use minority_prophet_gate.Ledger.Tables.{
  ArtifactRecord, Artifact, ReviewStatus, pending, other_review, ReviewRecord, Review, Ledger, Keys,
}

-- `ON CONFLICT DO NOTHING`
abbrev pub insert_new {ℓ} : {V : Type ℓ} → ℕ → V → Dict V → Dict V
insert_new k v d = elim (lookup k d) [ some _ ↦ d | none ↦ d ++ (k, v) ∷ [] ]

module _ {D : Type 0} (keys : Keys D) where
  abbrev pub record_of : ℕ → Artifact → ReturnedEnvelope → ArtifactRecord
  record_of evidence_digest a envelope = record {
    evidence_digest = evidence_digest;
    challenge_id = a.challenge_id;
    dispatch_id = a.dispatch_id;
    requirement_id = a.requirement_id;
    evidence_kind = a.evidence_kind;
    envelope = envelope;
    envelope_digest = a.envelope_digest;
  }

  unfoldable pub verified_envelope :
      ℕ → Artifact → Option ReturnedEnvelope → Outcome RoutingError ArtifactRecord
  verified_envelope evidence_digest a none = raised artifact_unreadable
  verified_envelope evidence_digest a (some envelope) = do
    raise_if (not (keys.digests.envelope_digest_of envelope == a.envelope_digest))
        envelope_digest_invalid
    raise_if
        (not (
          evidence_digest
          == keys.digests.item_digest a.requirement_id a.evidence_kind a.envelope_digest))
        artifact_digest_invalid
    raise_if
        (not (a.authentication_tag == keys.tag_artifact (record_of evidence_digest a envelope)))
        artifact_tag_invalid
    ok (record_of evidence_digest a envelope)

  unfoldable pub verified_artifact : ℕ → Artifact → Outcome RoutingError ArtifactRecord
  unfolding verified_envelope
  verified_artifact evidence_digest a = verified_envelope evidence_digest a a.envelope

  unfoldable pub verify_artifacts : Dict Artifact → Outcome RoutingError (Unit {0})
  unfolding verified_artifact
  verify_artifacts [] = ok tt
  verify_artifacts (a ∷ table) = verified_artifact a.0 a.1 >>= λ _. verify_artifacts table

  unfoldable pub artifact : ℕ → Ledger D → Outcome RoutingError ArtifactRecord
  unfolding verified_artifact
  artifact evidence_digest l = elim (lookup evidence_digest l.artifacts) [
    | none ↦ raised artifact_missing
    | some a ↦ verified_artifact evidence_digest a
  ]

  abbrev pub artifact_of :
      EvidenceDispatch → CollectedEvidence → ReturnedEnvelope → ℕ → ℕ → Artifact
  artifact_of d i envelope evidence_digest stored_at = record {
    challenge_id = d.payload.challenge_id;
    dispatch_id = d.dispatch_id;
    requirement_id = i.requirement_id;
    evidence_kind = i.evidence_kind;
    envelope = some envelope;
    envelope_digest = i.envelope_digest;
    stored_at = stored_at;
    authentication_tag = keys.tag_artifact (record {
      evidence_digest = evidence_digest;
      challenge_id = d.payload.challenge_id;
      dispatch_id = d.dispatch_id;
      requirement_id = i.requirement_id;
      evidence_kind = i.evidence_kind;
      envelope = envelope;
      envelope_digest = i.envelope_digest;
    });
  }

  -- One turn of the loop over the items; the clock gives the reading for the table's size.
  unfoldable pub persist_item :
      (ℕ → ℕ)
      → EvidenceDispatch
      → CollectedEvidence
      → Dict Artifact
      → Outcome RoutingError (Dict Artifact)
  unfolding envelope_copy digest
  persist_item clock d i table = do
    envelope ← envelope_copy keys.digests i
    evidence_digest ← digest keys.digests i
    ok (
        insert_new evidence_digest (artifact_of d i envelope evidence_digest (clock (length table)))
          table)

  unfoldable pub persist_items :
      (ℕ → ℕ)
      → EvidenceDispatch
      → List CollectedEvidence
      → Dict Artifact
      → Outcome RoutingError (Dict Artifact)
  unfolding persist_item
  persist_items clock d [] table = ok table
  persist_items clock d (i ∷ is) table = persist_item clock d i table >>= persist_items clock d is

  unfoldable pub persist_collection_result :
      (ℕ → ℕ)
      → EvidenceDispatch
      → EvidenceCollectionResult
      → Ledger D
      → Outcome RoutingError (Ledger D)
  unfolding persist_items
  persist_collection_result clock d r l =
      persist_items clock d r.items l.artifacts >>= λ table. ok (record l { artifacts = table })

  abbrev pub review_of : ℕ → Review → EvidenceDispatch → ReviewRecord
  review_of dispatch_id v request = record {
    dispatch_id = dispatch_id;
    challenge_id = v.challenge_id;
    route_id = v.route_id;
    request = request;
    status = v.status;
  }

  unfoldable pub verified_request :
      ℕ → Review → Option EvidenceDispatch → Outcome RoutingError ReviewRecord
  verified_request dispatch_id v none = raised review_unreadable
  verified_request dispatch_id v (some request) = do
    raise_if (not (v.authentication_tag == keys.tag_review (review_of dispatch_id v request)))
        review_tag_invalid
    ok (review_of dispatch_id v request)

  unfoldable pub verified_human_review : ℕ → Review → Outcome RoutingError ReviewRecord
  unfolding verified_request
  verified_human_review dispatch_id v = verified_request dispatch_id v v.request

  unfoldable pub verify_reviews : Dict Review → Outcome RoutingError (Unit {0})
  unfolding verified_human_review
  verify_reviews [] = ok tt
  verify_reviews (v ∷ vs) = verified_human_review v.0 v.1 >>= λ _. verify_reviews vs

  abbrev pub queued : EvidenceDispatch → ℕ → Review
  queued d queued_at = record {
    challenge_id = d.payload.challenge_id;
    route_id = d.payload.route.route_id;
    request = some d;
    status = pending;
    queued_at = queued_at;
    authentication_tag = keys.tag_review (record {
      dispatch_id = d.dispatch_id;
      challenge_id = d.payload.challenge_id;
      route_id = d.payload.route.route_id;
      request = d;
      status = pending;
    });
  }

  unfoldable pub enqueue_human_review : (ℕ → ℕ) → EvidenceDispatch → Ledger D → Ledger D
  enqueue_human_review clock d l = record l {
    reviews = insert_new d.dispatch_id (queued d (clock (length l.reviews))) l.reviews;
  }

  abbrev pub is_pending : ReviewStatus → Bool
  is_pending pending = true
  is_pending (other_review _) = false

  -- `WHERE status = 'PENDING' ORDER BY queued_at`, the order of texts being a parameter.
  unfoldable pub place_review : (ℕ → ℕ → Bool) → ℕ × Review → Dict Review → Dict Review
  place_review before v [] = v ∷ []
  place_review before v (w ∷ ws) =
      let rest = place_review before v ws in
      if before v.1.queued_at w.1.queued_at then v ∷ w ∷ ws else w ∷ rest

  unfoldable pub pending_rows : (ℕ → ℕ → Bool) → Dict Review → Dict Review
  unfolding place_review
  pending_rows before [] = []
  pending_rows before (v ∷ vs) =
      let rest = pending_rows before vs in
      if is_pending v.1.status then place_review before v rest else rest

  unfoldable pub verified_reviews : Dict Review → Outcome RoutingError (List ReviewRecord)
  unfolding verified_human_review
  verified_reviews [] = ok []
  verified_reviews (v ∷ vs) =
      verified_human_review v.0 v.1 >>= λ r. verified_reviews vs >>= λ rs. ok (r ∷ rs)

  unfoldable pub pending_human_reviews :
      (ℕ → ℕ → Bool) → Ledger D → Outcome RoutingError (List ReviewRecord)
  unfolding pending_rows verified_reviews
  pending_human_reviews before l = verified_reviews (pending_rows before l.reviews)
