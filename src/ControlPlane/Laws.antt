-- ===== src/ControlPlane/Laws.antt =====
-- The run of the control plane as a whole: it ends, it answers a repeated request from memory, and it
-- executes only what a decision of its ladder lets through (minority_prophet/control_plane.py).
use minority_prophet_gate.Base.{suc, ◌≡◌, ◌≤◌, refl, none, some, [], arith, lookup}
use minority_prophet_gate.Runtime.Action.{RuntimeAction}
use minority_prophet_gate.Runtime.Adapter.{RuntimeAdapter}
use minority_prophet_gate.Request.Challenge.{Host}
use minority_prophet_gate.ControlPlane.Types.{
  VerifiedEvidenceBatch, Collection, EvidenceControlPolicy,
}
use minority_prophet_gate.ControlPlane.Loop.{Moment, loop}
use minority_prophet_gate.ControlPlane.Bounded.{Within, loop-Within}
use minority_prophet_gate.ControlPlane.Request.{
  Site, RequestFingerprint, EvidenceControlOutcome, AutonomyRequest, PlaneState,
  request_fingerprint,
}

-- Under a policy of at least one round, whatever the evidence, the router and the bridge, the loop of
-- a run does not run out of its fuel: after at most `max_rounds` rounds it has a decision, or an
-- exception of its parts. A decision to proceed rests on an allow that needs no evidence,
-- or on an assessment that meets the policy's prices.
pub loop-ends :
    {C : Type 0} (col : Collection C) (host : Host) (policy : EvidenceControlPolicy) (m : Moment)
    (batch : VerifiedEvidenceBatch) (c : C)
    → 1 ≤ policy.evidence_requests.max_rounds
    → Within policy policy.evidence_requests.max_rounds
        (loop col host policy m
          (suc policy.evidence_requests.max_rounds)
          (record { batch = batch; prior = none; results = []; transitions = []; rounds = 0 })
          c).0
loop-ends col host policy m batch c rounds =
    loop-Within col policy policy.evidence_requests.max_rounds host m refl rounds
      (suc policy.evidence_requests.max_rounds)
      (record { batch = batch; prior = none; results = []; transitions = []; rounds = 0 }) c
      (refl, omega arith) (omega arith)

module _ {C W P : Type 0} (site : Site) (col : Collection C) (runtime : RuntimeAdapter W P)
    (a : RuntimeAction) (p : EvidenceControlPolicy) (auto : AutonomyRequest W) where
  abbrev print_of : RequestFingerprint
  print_of = request_fingerprint site a p auto.mandate auto.level

  -- The memory holds an outcome for the request.
  abbrev Remembers : EvidenceControlOutcome → PlaneState C W → Type 0
  Remembers o s = lookup a.idempotency_key s.outcomes ≡ some (print_of, o)
