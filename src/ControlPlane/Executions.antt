-- ===== src/ControlPlane/Executions.antt =====
-- What a run of the control plane may execute (minority_prophet/control_plane.py).
use minority_prophet_gate.Base.{
  ℕ, suc, ◌≡◌, ◌≢◌, ◌⊎◌, ◌≤◌, refl, sym, subst, ◌∙◌, inl, inr, false, none, List, arith, lookup, ok,
  Outcome-cases, Option-cases,
}
use minority_prophet_gate.GateTypes.{GateAction, GateDecision}
use minority_prophet_gate.Runtime.Action.{RuntimeAction}
use minority_prophet_gate.Runtime.Adapter.{RuntimeAdapter}
use minority_prophet_gate.Runtime.ExactlyOnce.{recording}
use minority_prophet_gate.Runtime.Refusals.{apply-log}
use minority_prophet_gate.Autonomy.Level.{AutonomyLevel}
use minority_prophet_gate.Autonomy.Mandate.{AutonomyMandate}
use minority_prophet_gate.Autonomy.Release.{resolve_gate_release}
use minority_prophet_gate.Autonomy.Controller.{State}
use minority_prophet_gate.Autonomy.Effects.{apply-still}
use minority_prophet_gate.ControlPlane.Types.{
  VerifiedEvidenceBatch, Collection, EvidenceControlPolicy,
}
use minority_prophet_gate.Selective.Types.{allow}
use minority_prophet_gate.Selective.Proceeds.{Supports}
use minority_prophet_gate.ControlPlane.Loop.{Finished, asked, loop}
use minority_prophet_gate.ControlPlane.Bounded.{Within, no_moment, loop-Within}
use minority_prophet_gate.ControlPlane.Request.{
  Site, RequestFingerprint, AutonomyRequest, PlaneState, request_fingerprint, runtime_decision,
}
use minority_prophet_gate.ControlPlane.Run.{
  enforce, enforce_mandate, effect, execute, first_run, run, start, moment, level_or,
}

-- The log of executions.
abbrev log_of : {C W : Type 0} → PlaneState C (W × List ℕ) → List ℕ
log_of s = s.controllers.world.1

GateAction-cases : (g : GateAction) → (g ≡ GateAction.proceed) ⊎ (g ≢ GateAction.proceed)
GateAction-cases GateAction.proceed = inl refl
GateAction-cases GateAction.block = inr (λ x. cc)
GateAction-cases GateAction.escalate = inr (λ x. cc)
GateAction-cases GateAction.request_evidence = inr (λ x. cc)
GateAction-cases (GateAction.other t) = inr (λ x. cc)

runtime_decision-action :
    (done : Finished) (d : GateDecision)
    → runtime_decision done.decision ≡ ok d
    → d.action ≡ done.decision.action
unfolding runtime_decision
runtime_decision-action done d h = elim (Option-cases done.decision.assessment) [
  | inl unassessed ↦ ground arith
  | inr (e, assessed) ↦ ground arith
]

module _ {C W P : Type 0} (site : Site) (col : Collection C) (runtime : RuntimeAdapter W P)
    (a : RuntimeAction) (auto : AutonomyRequest (W × List ℕ)) where
  enforce-still :
      (d : GateDecision) (s : State (W × List ℕ))
      → d.action ≢ GateAction.proceed
      → (enforce site col (recording runtime) d a s).1.world.1 ≡ s.world.1
  unfolding enforce
  enforce-still d s ne = ground (arith, apply-log runtime a s.ledger s.world d ne)

  enforce_mandate-still :
      (d : GateDecision) (m : AutonomyMandate) (l : AutonomyLevel) (s : State (W × List ℕ))
      → d.action ≢ GateAction.proceed
      → (enforce_mandate site col (recording runtime) d a m l auto.notifier s).1.world.1 ≡ s.world.1
  unfolding enforce_mandate
  enforce_mandate-still d m l s ne =
      elim (Outcome-cases (resolve_gate_release site.bind d a m l site.release_time)) [
        | inr (e, raises) ↦ ground arith
        | inl (release, resolved) ↦
            ground (
              arith,
              apply-still runtime release d a s site.bind site.apply_time m auto.notifier ne,
            )
      ]

  effect-still :
      (d : GateDecision) (s : State (W × List ℕ))
      → d.action ≢ GateAction.proceed
      → (effect site col (recording runtime) d a auto s).1.world.1 ≡ s.world.1
  unfolding effect
  effect-still d s ne = elim (Option-cases auto.mandate) [
    | inl without ↦ ground (arith, enforce-still d s ne)
    | inr (m, under) ↦ ground (
      arith,
      enforce_mandate-still d m (level_or site col (recording runtime) auto.level m.max_level) s ne,
    )
  ]

  execute-still :
      (f : RequestFingerprint) (done : Finished) (s : PlaneState C (W × List ℕ))
      → done.decision.action ≢ GateAction.proceed
      → log_of (execute site col (recording runtime) f a auto done s).1 ≡ log_of s
  unfolding execute
  execute-still f done s ne = elim (Outcome-cases (runtime_decision done.decision)) [
    | inr (e, raises) ↦ rw (raises, execute)
    | inl (d, decides) ↦
        let still =
          effect-still d s.controllers
            (λ h. ne (sym (runtime_decision-action done d decides) ∙ h)) in
        elim (Outcome-cases (effect site col (recording runtime) d a auto s.controllers).0) [
          | inr (e, raises) ↦ rw (decides, raises, execute) still
          | inl (parts, acts) ↦ rw (decides, acts, execute) still
        ]
  ]

  -- The loop of the run, with the fuel that its policy's rounds need, ended on a proceed,
  -- which rests on the primary policy alone or on an assessment at the policy's prices.
  abbrev pub DecidedToProceed : EvidenceControlPolicy → VerifiedEvidenceBatch → C → Type 0
  DecidedToProceed p batch c =
      (done : Finished) × ((loop col site.host p (moment site col runtime a)
          (suc p.evidence_requests.max_rounds) (start site col runtime batch) c).0
        ≡ ok done)
      × (done.decision.action ≡ GateAction.proceed)
      × (((p.primary.action ≡ allow) × (p.primary.evidence_sensitive ≡ false))
          ⊎ Supports (asked p no_moment 0 none) done.decision.assessment)

  first_run-executes_only :
      (p : EvidenceControlPolicy) (batch : VerifiedEvidenceBatch) (s : PlaneState C (W × List ℕ))
      (f : RequestFingerprint)
      → 1 ≤ p.evidence_requests.max_rounds
      → (log_of (first_run site col (recording runtime) f a p batch auto s).1 ≡ log_of s)
        ⊎ DecidedToProceed p batch s.collection
  unfolding first_run
  first_run-executes_only p batch s f rounds =
      let looped =
        loop col site.host p (moment site col runtime a) (suc p.evidence_requests.max_rounds)
          (start site col runtime batch) s.collection in
      elim (Outcome-cases looped.0) [
        | inr (e, raises) ↦ inl (rw (raises, first_run))
        | inl (done, ends) ↦ elim (GateAction-cases done.decision.action) [
          | inl proceeds ↦
              let budget = p.evidence_requests.max_rounds in
              let within =
                loop-Within col p budget site.host (moment site col runtime a) refl rounds
                  (suc budget) (start site col runtime batch) s.collection (refl, omega arith)
                  (omega arith) in
              inr (done, ends, proceeds, (subst (Within p budget) ends within).1 proceeds)
          | inr not ↦
              inl (
                rw (ends, first_run)
                  (execute-still f done (record s { collection = looped.1 }) not))
        ]
      ]

  -- A run leaves the log of executions as it was, unless its loop ended on a decision to proceed
  -- that the primary policy alone or an assessment at the policy's prices supports;
  -- this holds with and without a mandate, when parts of it raise, and whatever was run before.
  pub run-executes_only :
      (p : EvidenceControlPolicy) (batch : VerifiedEvidenceBatch) (s : PlaneState C (W × List ℕ))
      → 1 ≤ p.evidence_requests.max_rounds
      → (log_of (run site col (recording runtime) a p batch auto s).1 ≡ log_of s)
        ⊎ DecidedToProceed p batch s.collection
  unfolding run
  run-executes_only p batch s rounds = elim (Option-cases (lookup a.idempotency_key s.outcomes)) [
    | inr (held, before) ↦ inl (ground arith)
    | inl fresh ↦
        rw (fresh, run)
          (first_run-executes_only p batch s (request_fingerprint site a p auto.mandate auto.level)
            rounds)
  ]
