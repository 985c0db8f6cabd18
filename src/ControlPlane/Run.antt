-- ===== src/ControlPlane/Run.antt =====
-- control_plane.py: the effect of a decision, and the whole of `run`.
use minority_prophet_gate.Base.{
  suc, not, ◌||◌, Option, none, some, [], ◌∷◌, ◌++◌, is_none, if◌then◌else◌, lookup, insert,
  Outcome, ok, raised,
}
use minority_prophet_gate.GateTypes.{GateAction, GateDecision}
use minority_prophet_gate.Runtime.Action.{RuntimeAction, RuntimeReceipt, fingerprint}
use minority_prophet_gate.Runtime.Adapter.{RuntimeAdapter}
use minority_prophet_gate.Runtime.Controller as RuntimeController
use minority_prophet_gate.Autonomy.Level.{AutonomyLevel}
use minority_prophet_gate.Autonomy.Mandate.{AutonomyMandate}
use minority_prophet_gate.Autonomy.Release.{resolve_gate_release}
use minority_prophet_gate.Autonomy.Controller as AutonomyController
use minority_prophet_gate.Autonomy.Controller.{AutonomyOutcome, Notifier, State}
use minority_prophet_gate.ControlPlane.Types.{
  VerifiedEvidenceBatch, Collection, EvidenceControlPolicy,
}
use minority_prophet_gate.ControlPlane.Loop.{
  Transition, action_frozen, policy_evaluated, effect_executed, effect_prevented, autonomy,
  substituted, autonomy_without_mandate, mandate_unreadable, Progress, Finished, Moment, loop,
}
use minority_prophet_gate.ControlPlane.Request.{
  EvidenceControlOutcome, RequestFingerprint, same_request, Site, AutonomyRequest,
  request_fingerprint, runtime_decision, RunError, plane, boundary, PlaneState,
}

module _ {C W P : Type 0} (site : Site) (col : Collection C) (runtime : RuntimeAdapter W P) where
  -- The effect without a mandate.
  unfoldable pub enforce :
      GateDecision
      → RuntimeAction
      → State W
      → Outcome RunError (Option RuntimeReceipt × Option AutonomyOutcome) × State W
  enforce d a s =
      let (out, led, w) = RuntimeController.apply runtime d a s.ledger s.world in
      (
        elim out [ ok r ↦ ok (some r, none) | raised f ↦ raised (boundary f) ],
        record s { ledger = led; world = w },
      )

  -- The effect under a mandate: the release is resolved, and then applied.
  unfoldable pub enforce_mandate :
      GateDecision
      → RuntimeAction
      → AutonomyMandate
      → AutonomyLevel
      → Option (Notifier W)
      → State W
      → Outcome RunError (Option RuntimeReceipt × Option AutonomyOutcome) × State W
  enforce_mandate d a m level notifier s =
      elim (resolve_gate_release site.bind d a m level site.release_time) [
        | raised _ ↦ (raised (plane mandate_unreadable), s)
        | ok release ↦
            let (out, s') =
              AutonomyController.apply runtime site.bind site.apply_time release d a m notifier s in
            (elim out [ ok o ↦ ok (o.receipt, some o) | raised f ↦ raised (boundary f) ], s')
      ]

  abbrev pub level_or : Option AutonomyLevel → AutonomyLevel → AutonomyLevel
  level_or none l = l
  level_or (some k) l = k

  unfoldable pub effect :
      GateDecision
      → RuntimeAction
      → AutonomyRequest W
      → State W
      → Outcome RunError (Option RuntimeReceipt × Option AutonomyOutcome) × State W
  unfolding enforce enforce_mandate
  effect d a auto s = elim auto.mandate [
    | none ↦
        if not (is_none auto.level) || not (is_none auto.notifier)
        then (raised (plane autonomy_without_mandate), s)
        else enforce d a s
    | some m ↦ enforce_mandate d a m (level_or auto.level m.max_level) auto.notifier s
  ]

  abbrev pub closing : GateDecision → Option AutonomyOutcome → Transition
  closing d (some o) = autonomy o.status
  closing d none = elim d.action [ GateAction.proceed ↦ effect_executed | _ ↦ effect_prevented ]

  abbrev pub outcome_of :
      RuntimeAction
      → Finished
      → GateDecision
      → Option RuntimeReceipt × Option AutonomyOutcome
      → EvidenceControlOutcome
  outcome_of a f d (receipt, auto) = record {
    action = a;
    decision = f.decision;
    receipt = receipt;
    collection_rounds = f.progress.rounds;
    collected_results = f.progress.results;
    transitions = f.progress.transitions ++ closing d auto ∷ [];
    autonomy = auto;
  }

  -- After the loop: the decision goes to the runtime, and its outcome is kept.
  unfoldable pub execute :
      RequestFingerprint
      → RuntimeAction
      → AutonomyRequest W
      → Finished
      → PlaneState C W
      → Outcome RunError EvidenceControlOutcome × PlaneState C W
  unfolding effect runtime_decision
  execute f a auto done s = elim (runtime_decision done.decision) [
    | raised e ↦ (raised (plane e), s)
    | ok d ↦
        let (out, t) = effect d a auto s.controllers in
        elim out [
          | raised e ↦ (raised e, record s { controllers = t })
          | ok parts ↦
              let o = outcome_of a done d parts in
              (
                ok o,
                record s { outcomes = insert a.idempotency_key (f, o) s.outcomes; controllers = t },
              )
        ]
  ]

  abbrev pub start : VerifiedEvidenceBatch → Progress
  start batch = record {
    batch = batch;
    prior = none;
    results = [];
    transitions = action_frozen ∷ policy_evaluated ∷ [];
    rounds = 0;
  }

  abbrev pub moment : RuntimeAction → Moment
  moment a = record {
    clock = site.clock;
    decay = site.decay;
    action_digest = site.bind (fingerprint a);
  }

  -- A first run for a key.
  unfoldable pub first_run :
      RequestFingerprint
      → RuntimeAction
      → EvidenceControlPolicy
      → VerifiedEvidenceBatch
      → AutonomyRequest W
      → PlaneState C W
      → Outcome RunError EvidenceControlOutcome × PlaneState C W
  unfolding loop execute
  first_run f a p batch auto s =
      let fuel = suc p.evidence_requests.max_rounds in
      let (out, c) = loop col site.host p (moment a) fuel (start batch) s.collection in
      let t = record s { collection = c } in
      elim out [ raised e ↦ (raised (plane e), t) | ok done ↦ execute f a auto done t ]

  -- `run`; the requested level has been parsed.
  unfoldable pub run :
      RuntimeAction
      → EvidenceControlPolicy
      → VerifiedEvidenceBatch
      → AutonomyRequest W
      → PlaneState C W
      → Outcome RunError EvidenceControlOutcome × PlaneState C W
  unfolding request_fingerprint same_request first_run
  run a p batch auto s =
      let f = request_fingerprint site a p auto.mandate auto.level in
      elim (lookup a.idempotency_key s.outcomes) [
        | some (g, o) ↦ if same_request g f then (ok o, s) else (raised (plane substituted), s)
        | none ↦ first_run f a p batch auto s
      ]
