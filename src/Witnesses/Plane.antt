-- ===== src/Witnesses/Plane.antt =====
-- Runs of the control plane.
use minority_prophet_gate.Base.{
  ℕ, ◌+◌, ◌≡◌, ◌⊎◌, true, false, none, [], ◌∷◌, arith, Outcome, ok, raised,
}
use minority_prophet_gate.GateTypes.{one, GateAction}
use minority_prophet_gate.Adapter.Envelope.{trust_all}
use minority_prophet_gate.Runtime.ExactlyOnce.{recording}
use minority_prophet_gate.Selective.Types.{allow, review, human}
use minority_prophet_gate.Selective.Ladder.{final}
use minority_prophet_gate.GateTypes.{collection_failed}
use minority_prophet_gate.ControlPlane.Types.{
  VerifiedEvidenceBatch, EvidenceCollectionResult, Collection, EvidenceControlPolicy,
  candidate_verify,
}
use minority_prophet_gate.ControlPlane.Loop.{loop}
use minority_prophet_gate.ControlPlane.Request.{
  Site, AutonomyRequest, PlaneState, EvidenceControlOutcome, RunError,
}
use minority_prophet_gate.ControlPlane.Run.{run}
use minority_prophet_gate.ControlPlane.Bounded.{Within, no_moment}
use minority_prophet_gate.ControlPlane.Laws.{loop-ends}
use minority_prophet_gate.ControlPlane.Executions.{DecidedToProceed, run-executes_only}
use minority_prophet_gate.Witnesses.Samples.{charge, envelope, counting}
use minority_prophet_gate.Witnesses.Requests.{host, policy}

-- A router that returns one probe in each round, and counts them.
abbrev probe : EvidenceCollectionResult
probe = record { completed = true; envelopes = envelope 7 true ∷ [] }

abbrev router : Collection ℕ
unfolding candidate_verify
router = record {
  collect = λ r domain n. (ok (probe ∷ []), n + 1);
  verify = λ r results batch n. (ok (candidate_verify trust_all results batch), n);
  record_gate_decision = λ r d n. (ok tt, n);
}

abbrev pub control : EvidenceControlPolicy
control = record {
  primary = record { action = review; reason = 8; evidence_sensitive = true; policy_id = 23 };
  evidence_requests = policy;
  decision_subject = 22;
  requester_control_domain = 9;
  proceed_side = 1;
  min_flip_budget = one;
  min_conversions_to_reverse = none;
  unbound_root_weight = one;
}

abbrev pub empty : VerifiedEvidenceBatch
empty = record { envelopes = []; verifier = trust_all }

loop-ends_example :
    Within control 2
      (loop router host control no_moment 3
        (record { batch = empty; prior = none; results = []; transitions = []; rounds = 0 })
        0).0
loop-ends_example = loop-ends router host control no_moment empty 0 (omega arith)

abbrev pub site : Site
site = record {
  host = host;
  bind = λ f. f.action_id;
  mandate_digest = λ m. m.mandate_id;
  decay = λ age half. one;
  clock = λ k. 100;
  release_time = 100;
  apply_time = 101;
}

abbrev lenient : EvidenceControlPolicy
lenient = record control {
  primary = record { action = allow; reason = 8; evidence_sensitive = false; policy_id = 23 };
}

abbrev pub alone : {W : Type 0} → AutonomyRequest W
alone = record { mandate = none; level = none; notifier = none }

abbrev fresh : {W : Type 0} → W → PlaneState ℕ W
fresh w = record {
  outcomes = [];
  collection = 0;
  controllers = record { prepared = []; ledger = []; world = w };
}

abbrev nothing : EvidenceControlOutcome
nothing = record {
  action = charge;
  decision = final GateAction.escalate human collection_failed none;
  receipt = none;
  collection_rounds = 0;
  collected_results = [];
  transitions = [];
  autonomy = none;
}

abbrev outcome_or : Outcome RunError EvidenceControlOutcome → EvidenceControlOutcome
outcome_or (ok o) = o
outcome_or (raised _) = nothing

abbrev first_outcome : EvidenceControlOutcome
unfolding run
first_outcome = outcome_or (run site router counting charge lenient empty alone (fresh 0)).0

run-executes_only_example :
    ((run site router
        (recording counting)
        charge
        control
        empty
        alone
        (fresh (0, []))).1.controllers.world.1
      ≡ [])
    ⊎ DecidedToProceed site router counting charge alone control empty 0
run-executes_only_example =
    run-executes_only site router counting charge alone control empty (fresh (0, [])) (omega arith)
