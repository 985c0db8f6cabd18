-- ===== src/ControlPlane/Types.antt =====
-- control_plane.py: VerifiedEvidenceBatch, CandidateEvidenceBridge, EvidenceControlPolicy, and the
-- router and bridge that the plane is built over, as an interface.
use minority_prophet_gate.Base.{
  ℕ, Bool, ◌||◌, Option, List, [], ◌∷◌, ◌++◌, ◌==◌, is_none, if◌then◌else◌, Outcome, ok, raised,
}
use minority_prophet_gate.Adapter.Envelope.{Envelope, Verifier}
use minority_prophet_gate.Request.Policy.{EvidenceRequestPolicy}
use minority_prophet_gate.Request.Challenge.{EvidenceRequest}
use minority_prophet_gate.Selective.Types.{DeterministicDecision, SelectiveDecision}

pub record VerifiedEvidenceBatch : Type 0 where
  pub envelopes : List Envelope
  pub verifier : Verifier

-- EvidenceCollectionResult, as the bridge reads it.
pub record EvidenceCollectionResult : Type 0 where
  pub completed : Bool
  pub envelopes : List Envelope

-- `"assertion" in envelope`
unfoldable pub with_assertion : List Envelope → List Envelope
with_assertion [] = []
with_assertion (e ∷ es) =
    let rest = with_assertion es in if is_none e.assertion then rest else e ∷ rest

unfoldable pub returned_envelopes : List EvidenceCollectionResult → List Envelope
unfolding with_assertion
returned_envelopes [] = []
returned_envelopes (r ∷ rs) =
    let rest = returned_envelopes rs in
    if r.completed then with_assertion r.envelopes ++ rest else rest

-- `CandidateEvidenceBridge.verify`: the previous batch and the returned assertions.
unfoldable pub candidate_verify :
    Verifier → List EvidenceCollectionResult → VerifiedEvidenceBatch → VerifiedEvidenceBatch
unfolding returned_envelopes
candidate_verify verifier results previous = record {
  envelopes = previous.envelopes ++ returned_envelopes results;
  verifier = verifier;
}

-- EvidenceRouter and EvidenceVerifierBridge over a state `C`; a number is the type of what is raised.
pub record Collection (C : Type 0) : Type 0 where
  pub collect : EvidenceRequest → ℕ → C → Outcome ℕ (List EvidenceCollectionResult) × C
  pub verify :
      EvidenceRequest
      → List EvidenceCollectionResult
      → VerifiedEvidenceBatch
      → C
      → Outcome ℕ VerifiedEvidenceBatch × C
  pub record_gate_decision : EvidenceRequest → SelectiveDecision → C → Outcome ℕ (Unit {0}) × C

pub record EvidenceControlPolicy : Type 0 where
  pub primary : DeterministicDecision
  pub evidence_requests : EvidenceRequestPolicy
  pub decision_subject : ℕ
  pub requester_control_domain : ℕ
  pub proceed_side : ℕ
  pub min_flip_budget : ℕ
  pub min_conversions_to_reverse : Option ℕ
  pub unbound_root_weight : ℕ

pub data PolicyError : Type 0 where
  subject_and_domain_required policy_id_required : PolicyError

-- `EvidenceControlPolicy.__post_init__`
unfoldable pub new_control_policy :
    EvidenceControlPolicy → Outcome PolicyError EvidenceControlPolicy
new_control_policy p =
    if p.decision_subject == 0 || p.requester_control_domain == 0
    then raised subject_and_domain_required
    else if p.primary.policy_id == 0
    then raised policy_id_required
    else ok p
