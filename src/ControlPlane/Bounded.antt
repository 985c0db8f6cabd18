-- ===== src/ControlPlane/Bounded.antt =====
-- The loop of the control plane ends within the round budget of its policy
-- (minority_prophet/control_plane.py, EvidenceControlPlane.run).
use minority_prophet_gate.Base.{
  ℕ, zero, suc, ◌+◌, ◌≡◌, ◌≤◌, ◌<◌, ◌⊎◌, refl, ◌∙◌, false, Option, none, some, arith, Outcome, ok,
  raised, inl, inr, Option-cases, Outcome-cases,
}
use minority_prophet_gate.GateTypes.{GateAction}
use minority_prophet_gate.Request.Challenge.{Host, EvidenceRequest}
use minority_prophet_gate.Selective.Types.{SelectiveDecision, allow}
use minority_prophet_gate.Selective.Proceeds.{Supports, decide-justified}
use minority_prophet_gate.Selective.Requests.{round_of, AsksNext, decide-AsksNext}
use minority_prophet_gate.ControlPlane.Types.{Collection, EvidenceControlPolicy}
use minority_prophet_gate.ControlPlane.Loop.{
  PlaneError, out_of_fuel, Progress, Finished, Moment, Round, continued, failed, noted, decided,
  asked, report, finish, fail_closed, failed_closed, collect_round, decide_round, after_round,
  on_request, on_action, on_decision, loop,
}

abbrev pub no_moment : Moment
no_moment = record { clock = λ k. 0; decay = λ a h. 0; action_digest = 0 }

-- A decision to proceed rests on the primary policy alone, or on an assessment that meets the
-- policy's prices.
abbrev pub IsGrounded : EvidenceControlPolicy → SelectiveDecision → Type 0
IsGrounded policy d =
    d.action ≡ GateAction.proceed
    → ((policy.primary.action ≡ allow) × (policy.primary.evidence_sensitive ≡ false))
      ⊎ Supports (asked policy no_moment 0 none) d.assessment

-- The loop did not run out of fuel, its rounds are within the budget, and its decision is grounded.
abbrev pub Within : EvidenceControlPolicy → ℕ → Outcome PlaneError Finished → Type 0
Within policy budget (ok f) = (f.progress.rounds ≤ budget) × IsGrounded policy f.decision
Within policy budget (raised out_of_fuel) = ⊥
Within policy budget (raised _) = Unit

module _ {C : Type 0} (col : Collection C) (policy : EvidenceControlPolicy) (budget : ℕ) where
  report-Within :
      (r : EvidenceRequest) (d : SelectiveDecision) (s : Progress) (c : C)
      → s.rounds ≤ budget
      → IsGrounded policy d
      → Within policy budget (report col r d s c).0
  unfolding report
  report-Within r d s c h g = elim (Outcome-cases (col.record_gate_decision r d c).0) [
    | inl (_, e) ↦ rw (e, report) (h, g)
    | inr (f, e) ↦ rw (e, report) tt
  ]

  finish-Within :
      (d : SelectiveDecision) (s : Progress) (c : C)
      → s.rounds ≤ budget
      → IsGrounded policy d
      → Within policy budget (finish col d s c).0
  unfolding finish
  finish-Within d s c h g = elim (Option-cases s.prior) [
    | inl e ↦ rw (e, finish) (h, g)
    | inr (r, e) ↦ rw (e, finish) (report-Within r d s c h g)
  ]

  -- What a round leaves of the counters.
  abbrev Follows : EvidenceRequest → Progress → Round → Type 0
  Follows r s (continued v) = (v.prior ≡ some r) × (v.rounds ≡ s.rounds)
  Follows r s (failed v) = v.rounds ≡ s.rounds

  collect_round-Follows :
      (domain : ℕ) (r : EvidenceRequest) (s : Progress) (c : C)
      → Follows r s (collect_round col domain r s c).0
  unfolding collect_round
  collect_round-Follows domain r s c = elim (Outcome-cases (col.collect r domain c).0) [
    | inr (f, e) ↦ rw (e, collect_round) refl
    | inl (results, e) ↦
        elim (Outcome-cases (col.verify r results s.batch (col.collect r domain c).1).0) [
          | inr (f, g) ↦ rw (e, g, collect_round) refl
          | inl (batch, g) ↦ rw (e, g, collect_round) (refl, refl)
        ]
  ]

  module _ (host : Host) (m : Moment) (within : policy.evidence_requests.max_rounds ≡ budget)
      (rounds : 1 ≤ budget) where
    -- The rounds so far are those of the prior request.
    abbrev InStep : Progress → Type 0
    InStep s = (s.rounds ≡ round_of s.prior) × (s.rounds ≤ budget)

    decide_round-asks :
        (s : Progress) (d : SelectiveDecision)
        → decide_round col host policy m s ≡ ok d
        → AsksNext policy.evidence_requests s.prior d
    unfolding decide_round
    decide_round-asks s d h =
        decide-AsksNext host (asked policy m s.rounds s.prior) policy.primary
          policy.evidence_requests refl (omega arith) s.batch.verifier s.batch.envelopes d h

    decide_round-IsGrounded :
        (s : Progress) (d : SelectiveDecision)
        → decide_round col host policy m s ≡ ok d
        → IsGrounded policy d
    unfolding decide_round
    decide_round-IsGrounded s d h =
        decide-justified host (asked policy m s.rounds s.prior) policy.primary s.batch.verifier
          s.batch.envelopes d h

    module _ (fuel : ℕ) (again : Progress → C → Outcome PlaneError Finished × C)
        (keeps : (s : Progress) (c : C)
          → InStep s
          → budget < fuel + s.rounds
          → Within policy budget (again s c).0) where
      after_round-Within :
          (r : EvidenceRequest) (s : Progress) (out : Round) (c : C)
          → Follows r s out
          → s.rounds ≡ r.payload.round
          → s.rounds ≤ budget
          → budget < fuel + s.rounds
          → Within policy budget (after_round col host policy m again r out c).0
      unfolding after_round fail_closed
      after_round-Within r s (failed v) c f e h enough =
          report-Within r failed_closed (noted (decided GateAction.escalate) v) c (rw f h) (λ x. cc)
      after_round-Within r s (continued v) c (p, q) e h enough =
          keeps v c (rw p (q ∙ e), rw q h) (rw q enough)

      on_request-Within :
          (o : Option EvidenceRequest) (s : Progress) (c : C)
          → InStep s
          → round_of o ≡ round_of s.prior + 1
          → round_of s.prior < budget
          → budget < suc fuel + s.rounds
          → Within policy budget (on_request col host policy m again o s c).0
      unfolding on_request
      on_request-Within none s c h e lt enough = tt
      on_request-Within (some r) s c h e lt enough =
          let t : Progress = record s { rounds = s.rounds + 1 } in
          let (out, c') = collect_round col policy.requester_control_domain r t c in
          after_round-Within r t out c'
            (collect_round-Follows policy.requester_control_domain r t c) (omega arith)
            (omega arith) (omega arith)

      on_action-Within :
          (g : GateAction) (d : SelectiveDecision) (s : Progress) (c : C)
          → d.action ≡ g
          → InStep s
          → AsksNext policy.evidence_requests s.prior d
          → IsGrounded policy d
          → budget < suc fuel + s.rounds
          → Within policy budget (on_action col host policy m again g d s c).0
      unfolding on_action
      on_action-Within GateAction.request_evidence d s c e h asks grounded enough =
          let (_, next, lt) = asks e in
          on_request-Within d.evidence_request s c h next (omega arith) enough
      on_action-Within _ d s c e h asks grounded enough = finish-Within d s c h.1 grounded

      on_decision-Within :
          (s : Progress) (out : _) (c : C)
          → InStep s
          → ((d : SelectiveDecision) → out ≡ ok d → AsksNext policy.evidence_requests s.prior d)
          → ((d : SelectiveDecision) → out ≡ ok d → IsGrounded policy d)
          → budget < suc fuel + s.rounds
          → Within policy budget (on_decision col host policy m again out s c).0
      unfolding on_decision
      on_decision-Within s (raised e) c h asks grounded enough = tt
      on_decision-Within s (ok d) c h asks grounded enough =
          on_action-Within d.action d (noted (decided d.action) s) c refl h (asks d refl)
            (grounded d refl) enough

    pub loop-Within :
        (fuel : ℕ) (s : Progress) (c : C)
        → InStep s
        → budget < fuel + s.rounds
        → Within policy budget (loop col host policy m fuel s c).0
    unfolding loop
    loop-Within zero s c h enough = absurd (omega arith)
    loop-Within (suc fuel) s c h enough =
        on_decision-Within fuel (loop col host policy m fuel) (loop-Within fuel) s
          (decide_round col host policy m s) c h (decide_round-asks s) (decide_round-IsGrounded s)
          enough
