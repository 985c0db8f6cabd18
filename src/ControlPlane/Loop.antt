-- ===== src/ControlPlane/Loop.antt =====
-- control_plane.py: the `while True` loop of `run`, which assesses, collects and assesses again.
use minority_prophet_gate.Base.{
  ℕ, zero, suc, ◌+◌, Option, none, some, List, [], ◌∷◌, ◌++◌, Outcome, ok, raised,
}
use minority_prophet_gate.GateTypes.{GateAction, collection_failed}
use minority_prophet_gate.Adapter.Freshness.{default_freshness}
use minority_prophet_gate.Request.Challenge.{Host, EvidenceRequest}
use minority_prophet_gate.Selective.Types.{SelectiveDecision, SelectiveError, Ask, human}
use minority_prophet_gate.Selective.Ladder.{selective_decide, final}
use minority_prophet_gate.Autonomy.Controller.{AutonomyStatus}
use minority_prophet_gate.ControlPlane.Types.{
  VerifiedEvidenceBatch, EvidenceCollectionResult, Collection, EvidenceControlPolicy,
}

pub data Transition : Type 0 where
  action_frozen policy_evaluated evidence_collected evidence_verified : Transition
  effect_executed effect_prevented : Transition
  decided : GateAction → Transition
  autonomy : AutonomyStatus → Transition

pub data PlaneError : Type 0 where
  out_of_fuel request_omitted substituted autonomy_without_mandate not_final : PlaneError
  mandate_unreadable : PlaneError
  from_selective : SelectiveError → PlaneError
  from_router : ℕ → PlaneError

-- The variables of the loop.
pub record Progress : Type 0 where
  pub batch : VerifiedEvidenceBatch
  pub prior : Option EvidenceRequest
  pub results : List EvidenceCollectionResult
  pub transitions : List Transition
  pub rounds : ℕ

pub record Finished : Type 0 where
  pub decision : SelectiveDecision
  pub progress : Progress

-- The clock's reading in each round, the decay law, and the action's digest.
pub record Moment : Type 0 where
  pub clock : ℕ → ℕ
  pub decay : ℕ → ℕ → ℕ
  pub action_digest : ℕ

-- The arguments of `selective_decide` in `run`.
abbrev pub asked : EvidenceControlPolicy → Moment → ℕ → Option EvidenceRequest → Ask
asked p m round prior = record {
  proceed_side = p.proceed_side;
  min_flip_budget = p.min_flip_budget;
  min_conversions_to_reverse = p.min_conversions_to_reverse;
  settings = record {
    now = m.clock round;
    decay = m.decay;
    decision_subject = some p.decision_subject;
    unbound_root_weight = p.unbound_root_weight;
    freshness = default_freshness;
    depth_weights = none;
  };
  memory_evidence = none;
  evidence_request_policy = some p.evidence_requests;
  prior_evidence_request = prior;
  action_digest = m.action_digest;
}

-- `transitions.append(t)`
abbrev pub noted : Transition → Progress → Progress
noted t s = record s { transitions = s.transitions ++ t ∷ [] }

-- Collection and verification of one round: the progress to go on with, or a failure.
pub data Round : Type 0 where
  continued failed : Progress → Round

abbrev pub failed_closed : SelectiveDecision
failed_closed = final GateAction.escalate human collection_failed none

module _ {C : Type 0} (col : Collection C) where
  -- The router hears the decision; if it raises, so does the run.
  unfoldable pub report :
      EvidenceRequest → SelectiveDecision → Progress → C → Outcome PlaneError Finished × C
  report r d s c =
      let (out, c') = col.record_gate_decision r d c in
      elim out [
        | ok _ ↦ (ok (record { decision = d; progress = s }), c')
        | raised e ↦ (raised (from_router e), c')
      ]

  -- `break` on a final decision.
  unfoldable pub finish : SelectiveDecision → Progress → C → Outcome PlaneError Finished × C
  unfolding report
  finish d s c = elim s.prior [
    | none ↦ (ok (record { decision = d; progress = s }), c)
    | some r ↦ report r d s c
  ]

  -- The `except` branch.
  unfoldable pub fail_closed : EvidenceRequest → Progress → C → Outcome PlaneError Finished × C
  unfolding report
  fail_closed r s c = report r failed_closed (noted (decided GateAction.escalate) s) c

  unfoldable pub collect_round : ℕ → EvidenceRequest → Progress → C → Round × C
  collect_round domain r s c =
      let (returned, c') = col.collect r domain c in
      elim returned [
        | raised _ ↦ (failed s, c')
        | ok results ↦
            let (verified, c'') = col.verify r results s.batch c' in
            elim verified [
              | raised _ ↦ (failed s, c'')
              | ok batch ↦ (
                continued (record {
                  batch = batch;
                  prior = some r;
                  results = s.results ++ results;
                  transitions = s.transitions ++ evidence_collected ∷ evidence_verified ∷ [];
                  rounds = s.rounds;
                }),
                c'',
              )
            ]
      ]

  module _ (host : Host) (policy : EvidenceControlPolicy) (m : Moment) where
    unfoldable pub decide_round : Progress → Outcome SelectiveError SelectiveDecision
    unfolding selective_decide
    decide_round s =
        selective_decide host (asked policy m s.rounds s.prior) policy.primary s.batch.verifier
          s.batch.envelopes

    -- The body of the loop; `again` is the next turn.
    module _ (again : Progress → C → Outcome PlaneError Finished × C) where
      unfoldable pub after_round : EvidenceRequest → Round → C → Outcome PlaneError Finished × C
      after_round r (failed v) c = fail_closed r v c
      after_round r (continued v) c = again v c

      unfoldable pub on_request :
          Option EvidenceRequest → Progress → C → Outcome PlaneError Finished × C
      unfolding after_round collect_round
      on_request none s c = (raised request_omitted, c)
      on_request (some r) s c =
          let (outcome, c') =
            collect_round policy.requester_control_domain r (record s { rounds = s.rounds + 1 })
              c in
          after_round r outcome c'

      unfoldable pub on_action :
          GateAction → SelectiveDecision → Progress → C → Outcome PlaneError Finished × C
      unfolding on_request finish
      on_action GateAction.request_evidence d s c = on_request d.evidence_request s c
      on_action _ d s c = finish d s c

      unfoldable pub on_decision :
          Outcome SelectiveError SelectiveDecision → Progress → C → Outcome PlaneError Finished × C
      unfolding on_action
      on_decision (raised e) s c = (raised (from_selective e), c)
      on_decision (ok d) s c = on_action d.action d (noted (decided d.action) s) c

    -- The budget of a policy bounds the rounds, so one more than its rounds is enough fuel.
    unfoldable pub loop : ℕ → Progress → C → Outcome PlaneError Finished × C
    unfolding on_decision decide_round
    loop zero s c = (raised out_of_fuel, c)
    loop (suc fuel) s c = on_decision (loop fuel) (decide_round s) s c
