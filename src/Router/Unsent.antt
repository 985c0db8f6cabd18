-- ===== src/Router/Unsent.antt =====
-- A plan or a recorded decision calls no collector (minority_prophet/evidence_router.py).
use minority_prophet_gate.Base.{
  ℕ, Bool, ◌≡◌, inl, inr, true, false, List, [], ◌∷◌, ◌==◌, arith, Dict, Outcome, ok, raised,
  Outcome-cases, Bool-cases,
}
use minority_prophet_gate.Request.Challenge.{Host, EvidenceRequest, verify_evidence_request}
use minority_prophet_gate.Audit.Event.{RoutingError, Entry}
use minority_prophet_gate.Audit.Interface.{AuditLog}
use minority_prophet_gate.Router.Types.{EvidenceDispatch, Digests, Details}
use minority_prophet_gate.Router.Plan.{
  append_new, note_received, note_planned, note_all, note_plan, plan_groups, plan_received, plan,
  group, Group,
}
use minority_prophet_gate.Router.Collect.{GateOutcome, decision_entry, record_gate_decision}
use minority_prophet_gate.Router.Calls.{log_after}
use minority_prophet_gate.Router.Once.{Once, append-Once}

module _ {L : Type 0} (log : AuditLog Details L) (k : ℕ) (calls : List ℕ) where
  append_new-Once :
      (known : Outcome RoutingError Bool) (entry : Entry Details) (l : L)
      → Once log k l calls
      → Once log k (append_new log known entry l).1 calls
  unfolding append_new
  append_new-Once (raised e) entry l h = h
  append_new-Once (ok true) entry l h = h
  append_new-Once (ok false) entry l h = elim (Outcome-cases (log.append entry l)) [
    | inr (e, eq) ↦ rw (eq, append_new) h
    | inl (m, eq) ↦ rw (eq, append_new) (append-Once log k entry l m calls eq h)
  ]

  note_all-Once :
      (ds : List EvidenceDispatch) (l : L)
      → Once log k l calls
      → Once log k (note_all log ds l).1 calls
  unfolding note_all note_planned
  note_all-Once [] l h = h
  note_all-Once (d ∷ ds) l h =
      let here = append_new-Once _ _ l h in
      let (out, m) = note_planned log d l in
      elim (Outcome-cases out) [
        | inr (e, eq) ↦ rw (eq, note_all) here
        | inl (u, eq) ↦ rw (eq, note_all) (note_all-Once ds m here)
      ]

  note_plan-Once :
      (ds : List EvidenceDispatch) (l : L)
      → Once log k l calls
      → Once log k (note_plan log ds l).1 calls
  unfolding note_plan
  note_plan-Once ds l h =
      let here = note_all-Once ds l h in
      elim (Outcome-cases (note_all log ds l).0) [
        | inr (e, eq) ↦ rw (eq, note_plan) here
        | inl (u, eq) ↦ rw (eq, note_plan) here
      ]

  module _ (hash : Digests) (host : Host) (before : ℕ → ℕ → Bool) (domain : ℕ)
      (r : EvidenceRequest) where
    plan_groups-Once :
        (gs : Outcome RoutingError (Dict Group)) (l : L)
        → Once log k l calls
        → Once log k (plan_groups log hash before domain r gs l).1 calls
    unfolding plan_groups
    plan_groups-Once (raised e) l h = h
    plan_groups-Once (ok []) l h = h
    plan_groups-Once (ok (g ∷ gs)) l h = note_plan-Once _ l h

    pub plan-Once :
        (l : L) → Once log k l calls → Once log k (plan log hash before domain r host l).1 calls
    unfolding plan plan_received note_received
    plan-Once l h = elim (Outcome-cases (verify_evidence_request host r)) [
      | inr (e, eq) ↦ rw (eq, plan) h
      | inl (u, eq) ↦ elim (Bool-cases (domain == 0)) [
        | inl nameless ↦ rw (eq, nameless, plan) h
        | inr named ↦
            let here = append_new-Once _ _ l h in
            let (out, m) = note_received log r l in
            elim (Outcome-cases out) [
              | inr (e, fq) ↦ rw (eq, named, fq, plan, plan_received) here
              | inl (v, fq) ↦
                  rw (eq, named, fq, plan, plan_received)
                    (plan_groups-Once (group r.payload.requirements []) m here)
            ]
      ]
    ]

    pub decision-Once :
        (o : GateOutcome) (l : L)
        → Once log k l calls
        → Once log k (log_after (record_gate_decision log host r o l) l) calls
    unfolding record_gate_decision
    decision-Once o l h = elim (Outcome-cases (record_gate_decision log host r o l)) [
      | inr (e, eq) ↦ rw eq h
      | inl (m, eq) ↦
          let q : log.append (decision_entry r o) l ≡ ok m = ground arith in
          rw eq (append-Once log k (decision_entry r o) l m calls q h)
    ]
