-- ===== src/ControlPlane/Request.antt =====
-- control_plane.py: EvidenceControlOutcome, `_request_fingerprint`, `_runtime_decision`, and the state
-- of EvidenceControlPlane.
use minority_prophet_gate.Base.{
  ℕ, Bool, true, false, not, ◌&&◌, Option, none, some, List, ◌==◌, same, if◌then◌else◌, Dict,
  Outcome, ok, raised,
}
use minority_prophet_gate.GateTypes.{GateAction, GateDecision, no_diagnostics}
use minority_prophet_gate.Runtime.Action.{
  RuntimeAction, RuntimeReceipt, Fingerprint, fingerprint, same_fingerprint, Fault,
}
use minority_prophet_gate.Autonomy.Level.{AutonomyLevel, rank}
use minority_prophet_gate.Autonomy.Mandate.{AutonomyMandate}
use minority_prophet_gate.Autonomy.Controller.{AutonomyOutcome, Notifier, State}
use minority_prophet_gate.Gate.Assess.{EvidenceAssessment}
use minority_prophet_gate.Request.Challenge.{Host}
use minority_prophet_gate.Selective.Types.{PrimaryAction, allow, deny, review, SelectiveDecision}
use minority_prophet_gate.ControlPlane.Types.{EvidenceCollectionResult, EvidenceControlPolicy}
use minority_prophet_gate.ControlPlane.Loop.{Transition, PlaneError, not_final}

pub record EvidenceControlOutcome : Type 0 where
  pub action : RuntimeAction
  pub decision : SelectiveDecision
  pub receipt : Option RuntimeReceipt
  pub collection_rounds : ℕ
  pub collected_results : List EvidenceCollectionResult
  pub transitions : List Transition
  pub autonomy : Option AutonomyOutcome

-- `_request_fingerprint` and the two entries that `run` adds.
pub record RequestFingerprint : Type 0 where
  pub action : Fingerprint
  pub primary_action : PrimaryAction
  pub primary_reason : ℕ
  pub evidence_sensitive : Bool
  pub policy_id : ℕ
  pub requests_digest : ℕ
  pub decision_subject : ℕ
  pub domain : ℕ
  pub proceed_side : ℕ
  pub min_flip_budget : ℕ
  pub min_conversions : Option ℕ
  pub unbound_root_weight : ℕ
  pub mandate_digest : Option ℕ
  pub requested_level : Option ℕ

abbrev primary_code : PrimaryAction → ℕ
primary_code allow = 0
primary_code deny = 1
primary_code review = 2

abbrev same_flag : Bool → Bool → Bool
same_flag true b = b
same_flag false b = not b

-- `==` on the tuples.
unfoldable pub same_request : RequestFingerprint → RequestFingerprint → Bool
same_request f g =
    same_fingerprint f.action g.action
    && primary_code f.primary_action == primary_code g.primary_action
    && f.primary_reason == g.primary_reason
    && same_flag f.evidence_sensitive g.evidence_sensitive
    && f.policy_id == g.policy_id
    && f.requests_digest == g.requests_digest
    && f.decision_subject == g.decision_subject
    && f.domain == g.domain
    && f.proceed_side == g.proceed_side
    && f.min_flip_budget == g.min_flip_budget
    && same f.min_conversions g.min_conversions
    && f.unbound_root_weight == g.unbound_root_weight
    && same f.mandate_digest g.mandate_digest
    && same f.requested_level g.requested_level

-- The digests: of an action's fingerprint and of a mandate; and the clock at the release and when
-- the release is applied.
pub record Site : Type 0 where
  pub host : Host
  pub bind : Fingerprint → ℕ
  pub mandate_digest : AutonomyMandate → ℕ
  pub decay : ℕ → ℕ → ℕ
  pub clock : ℕ → ℕ
  pub release_time : ℕ
  pub apply_time : ℕ

-- What the run is given about autonomy.
pub record AutonomyRequest (W : Type 0) : Type 0 where
  pub mandate : Option AutonomyMandate
  pub level : Option AutonomyLevel
  pub notifier : Option (Notifier W)

unfoldable pub request_fingerprint :
    Site
    → RuntimeAction
    → EvidenceControlPolicy
    → Option AutonomyMandate
    → Option AutonomyLevel
    → RequestFingerprint
request_fingerprint site a p mandate level = record {
  action = fingerprint a;
  primary_action = p.primary.action;
  primary_reason = p.primary.reason;
  evidence_sensitive = p.primary.evidence_sensitive;
  policy_id = p.primary.policy_id;
  requests_digest = site.host.policy_digest p.evidence_requests;
  decision_subject = p.decision_subject;
  domain = p.requester_control_domain;
  proceed_side = p.proceed_side;
  min_flip_budget = p.min_flip_budget;
  min_conversions = p.min_conversions_to_reverse;
  unbound_root_weight = p.unbound_root_weight;
  mandate_digest = elim mandate [ none ↦ none | some m ↦ some (site.mandate_digest m) ];
  requested_level = elim level [ none ↦ none | some l ↦ some (rank l) ];
}

abbrev pub is_final : GateAction → Bool
is_final GateAction.proceed = true
is_final GateAction.block = true
is_final GateAction.escalate = true
is_final _ = false

-- `_runtime_decision`, after the test that the action is final.
abbrev pub decision_from : SelectiveDecision → Option EvidenceAssessment → GateDecision
decision_from d none = record {
  action = d.action;
  decision = none;
  flip_budget = 0;
  confidence = record { num = 0; den = 1 };
  roots_for = 0;
  roots_against = 0;
  diagnostics = record no_diagnostics { reason = some d.reason };
  conversions_to_reverse = none;
}
decision_from d (some a) = record {
  action = d.action;
  decision = a.verdict;
  flip_budget = a.flip_budget;
  confidence = a.confidence;
  roots_for = a.roots_for;
  roots_against = a.roots_against;
  diagnostics = record a.diagnostics { reason = some d.reason };
  conversions_to_reverse = a.conversions_to_reverse;
}

unfoldable pub runtime_decision : SelectiveDecision → Outcome PlaneError GateDecision
runtime_decision d =
    if is_final d.action then ok (decision_from d d.assessment) else raised not_final

-- An error of the plane, or one of the boundary behind it.
pub data RunError : Type 0 where
  plane : PlaneError → RunError
  boundary : Fault → RunError

-- `_outcomes`, the state of the router and its bridge, and that of the controllers and the runtime.
pub record PlaneState (C W : Type 0) : Type 0 where
  pub outcomes : Dict (RequestFingerprint × EvidenceControlOutcome)
  pub collection : C
  pub controllers : State W
