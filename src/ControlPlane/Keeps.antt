-- ===== src/ControlPlane/Keeps.antt =====
-- What a router and its bridge keep in each of their calls is kept by a run of the control plane
-- (minority_prophet/control_plane.py).
use minority_prophet_gate.Base.{
  ℕ, zero, refl, sym, subst, suc, ◌≡◌, inl, inr, none, some, List, Option, lookup, Outcome, ok,
  raised, Outcome-cases, Option-cases, Bool-cases,
}
use minority_prophet_gate.GateTypes.{GateAction}
use minority_prophet_gate.Request.Challenge.{Host, EvidenceRequest}
use minority_prophet_gate.Selective.Types.{SelectiveDecision, SelectiveError}
use minority_prophet_gate.Runtime.Action.{RuntimeAction}
use minority_prophet_gate.Runtime.Adapter.{RuntimeAdapter}
use minority_prophet_gate.ControlPlane.Types.{
  VerifiedEvidenceBatch, EvidenceCollectionResult, Collection, EvidenceControlPolicy,
}
use minority_prophet_gate.ControlPlane.Loop.{
  PlaneError, Progress, Finished, Moment, Round, continued, failed, failed_closed, report, finish,
  fail_closed, collect_round, after_round, on_request, on_action, on_decision, loop,
}
use minority_prophet_gate.ControlPlane.Request.{
  Site, AutonomyRequest, RequestFingerprint, request_fingerprint, same_request, runtime_decision,
  PlaneState,
}
use minority_prophet_gate.ControlPlane.Run.{effect, execute, first_run, run, start, moment}

module _ {C : Type 0} (col : Collection C) (P : C → Type 0) where
  -- Each call keeps `P`, whether it returns or raises.
  pub record IsKept : Type 0 where
    pub collects : (r : EvidenceRequest) (domain : ℕ) (c : C) → P c → P (col.collect r domain c).1
    pub verifies :
        (r : EvidenceRequest) (results : List EvidenceCollectionResult)
        (batch : VerifiedEvidenceBatch) (c : C)
        → P c
        → P (col.verify r results batch c).1
    pub records :
        (r : EvidenceRequest) (d : SelectiveDecision) (c : C)
        → P c
        → P (col.record_gate_decision r d c).1

module _ {C : Type 0} (col : Collection C) (P : C → Type 0) (kept : IsKept col P) where
  report-keeps :
      (r : EvidenceRequest) (d : SelectiveDecision) (s : Progress) (c : C)
      → P c
      → P (report col r d s c).1
  unfolding report
  report-keeps r d s c h =
      let here = kept.records r d c h in
      elim (Outcome-cases (col.record_gate_decision r d c).0) [
        | inl (u, eq) ↦ rw (eq, report) here
        | inr (e, eq) ↦ rw (eq, report) here
      ]

  finish-keeps : (d : SelectiveDecision) (s : Progress) (c : C) → P c → P (finish col d s c).1
  unfolding finish
  finish-keeps d s c h = elim (Option-cases s.prior) [
    | inl eq ↦ rw (eq, finish) h
    | inr (r, eq) ↦ rw (eq, finish) (report-keeps r d s c h)
  ]

  collect_round-keeps :
      (domain : ℕ) (r : EvidenceRequest) (s : Progress) (c : C)
      → P c
      → P (collect_round col domain r s c).1
  unfolding collect_round
  collect_round-keeps domain r s c h =
      let here = kept.collects r domain c h in
      let (returned, c') = col.collect r domain c in
      elim (Outcome-cases returned) [
        | inr (e, eq) ↦ rw (eq, collect_round) here
        | inl (results, eq) ↦
            let there = kept.verifies r results s.batch c' here in
            elim (Outcome-cases (col.verify r results s.batch c').0) [
              | inr (e, fq) ↦ rw (eq, fq, collect_round) there
              | inl (batch, fq) ↦ rw (eq, fq, collect_round) there
            ]
      ]

  module _ (host : Host) (policy : EvidenceControlPolicy) (m : Moment) where
    module _ (again : Progress → C → Outcome PlaneError Finished × C)
        (turn : (s : Progress) (c : C) → P c → P (again s c).1) where
      after_round-keeps :
          (r : EvidenceRequest) (o : Round) (c : C)
          → P c
          → P (after_round col host policy m again r o c).1
      unfolding after_round fail_closed
      after_round-keeps r (failed v) c h = report-keeps r failed_closed _ c h
      after_round-keeps r (continued v) c h = turn v c h

      on_request-keeps :
          (o : Option EvidenceRequest) (s : Progress) (c : C)
          → P c
          → P (on_request col host policy m again o s c).1
      unfolding on_request
      on_request-keeps none s c h = h
      on_request-keeps (some r) s c h = after_round-keeps r _ _ (collect_round-keeps _ r _ c h)

      on_action-keeps :
          (a : GateAction) (d : SelectiveDecision) (s : Progress) (c : C)
          → P c
          → P (on_action col host policy m again a d s c).1
      unfolding on_action
      on_action-keeps GateAction.request_evidence d s c h =
          on_request-keeps d.evidence_request s c h
      on_action-keeps GateAction.proceed d s c h = finish-keeps d s c h
      on_action-keeps GateAction.block d s c h = finish-keeps d s c h
      on_action-keeps GateAction.escalate d s c h = finish-keeps d s c h
      on_action-keeps (GateAction.other t) d s c h = finish-keeps d s c h

      on_decision-keeps :
          (o : Outcome SelectiveError SelectiveDecision) (s : Progress) (c : C)
          → P c
          → P (on_decision col host policy m again o s c).1
      unfolding on_decision
      on_decision-keeps (raised e) s c h = h
      on_decision-keeps (ok d) s c h = on_action-keeps d.action d _ c h

    loop-keeps : (fuel : ℕ) (s : Progress) (c : C) → P c → P (loop col host policy m fuel s c).1
    unfolding loop
    loop-keeps zero s c h = h
    loop-keeps (suc fuel) s c h =
        on_decision-keeps (loop col host policy m fuel) (loop-keeps fuel) _ s c h

  module _ {W Q : Type 0} (site : Site) (runtime : RuntimeAdapter W Q) where
    -- The effect is not on the router's state.
    execute-collection :
        (f : RequestFingerprint) (a : RuntimeAction) (auto : AutonomyRequest W) (done : Finished)
        (s : PlaneState C W)
        → (execute site col runtime f a auto done s).1.collection ≡ s.collection
    unfolding execute
    execute-collection f a auto done s = elim (Outcome-cases (runtime_decision done.decision)) [
      | inr (e, raises) ↦ rw (raises, execute) refl
      | inl (d, decides) ↦ elim (Outcome-cases (effect site col runtime d a auto s.controllers).0) [
        | inr (e, raises) ↦ rw (decides, raises, execute) refl
        | inl (parts, acts) ↦ rw (decides, acts, execute) refl
      ]
    ]

    first_run-keeps :
        (f : RequestFingerprint) (a : RuntimeAction) (p : EvidenceControlPolicy)
        (batch : VerifiedEvidenceBatch) (auto : AutonomyRequest W) (s : PlaneState C W)
        → P s.collection
        → P (first_run site col runtime f a p batch auto s).1.collection
    unfolding first_run
    first_run-keeps f a p batch auto s h =
        let fuel = suc p.evidence_requests.max_rounds in
        let first = start site col runtime batch in
        let here = loop-keeps site.host p (moment site col runtime a) fuel first s.collection h in
        let (out, c) = loop col site.host p (moment site col runtime a) fuel first s.collection in
        elim (Outcome-cases out) [
          | inr (e, eq) ↦ rw (eq, first_run) here
          | inl (done, eq) ↦
              rw (eq, first_run)
                (subst P (sym (execute-collection f a auto done (record s { collection = c })))
                  here)
        ]

    pub run-keeps :
        (a : RuntimeAction) (p : EvidenceControlPolicy) (batch : VerifiedEvidenceBatch)
        (auto : AutonomyRequest W) (s : PlaneState C W)
        → P s.collection
        → P (run site col runtime a p batch auto s).1.collection
    unfolding run
    run-keeps a p batch auto s h =
        let f = request_fingerprint site a p auto.mandate auto.level in
        elim (Option-cases (lookup a.idempotency_key s.outcomes)) [
          | inl new ↦ rw (new, run) (first_run-keeps f a p batch auto s h)
          | inr ((g, o), known) ↦ elim (Bool-cases (same_request g f)) [
            | inl same ↦ rw (known, same, run) h
            | inr other ↦ rw (known, other, run) h
          ]
        ]
