-- ===== src/Router/Collect.antt =====
-- evidence_router.py: `record_gate_decision` and `collect`, and a caller that makes any calls in turn.
use minority_prophet_gate.Base.{
  ℕ, Bool, true, false, not, Option, none, some, List, [], ◌∷◌, ◌==◌, same, Outcome, ok, raised,
  ◌>>=◌, ◌>>◌, raise_if,
}
use minority_prophet_gate.GateTypes.{GateAction}
use minority_prophet_gate.Request.Challenge.{Host, EvidenceRequest, verify_evidence_request}
use minority_prophet_gate.Audit.Event.{
  RoutingError, Entry, has_challenge, request_refused, outcome_unknown, outcome_route_required,
  outcome_unbound, outcome_recorded,
}
use minority_prophet_gate.Audit.Interface.{AuditLog, gate_reassessed}
use minority_prophet_gate.Router.Types.{
  EvidenceDispatch, Digests, EvidenceCollectionResult, Details, of_decision,
}
use minority_prophet_gate.Router.Plan.{plan}
use minority_prophet_gate.Router.Site.{Site, RouterState, Answer}
use minority_prophet_gate.Router.Dispatch.{dispatch}

-- A decision as `record_gate_decision` reads it: its action, its route where that is a text, and the
-- challenge that its diagnostics name.
pub record GateOutcome : Type 0 where
  pub action : GateAction
  pub route : Option ℕ
  pub returned_for_challenge_id : Option ℕ

abbrev pub is_final : GateAction → Bool
is_final (GateAction.other _) = false
is_final _ = true

abbrev pub grants : GateAction → Bool
grants GateAction.proceed = true
grants _ = false

-- The text of an action.
abbrev pub action_text : GateAction → ℕ
action_text GateAction.proceed = 1
action_text GateAction.block = 2
action_text GateAction.escalate = 3
action_text GateAction.request_evidence = 4
action_text (GateAction.other t) = t

abbrev pub no_route : Option ℕ → Bool
no_route none = true
no_route (some t) = t == 0

abbrev pub route_text : Option ℕ → ℕ
route_text none = 0
route_text (some t) = t

abbrev pub decision_entry : EvidenceRequest → GateOutcome → Entry Details
decision_entry r o = record {
  event_type = gate_reassessed;
  challenge_id = r.challenge_id;
  dispatch_id = none;
  route_id = none;
  details =
      of_decision (action_text o.action) (route_text o.route) r.payload.round (grants o.action);
}

abbrev pub refused_request : EvidenceRequest → Host → Outcome RoutingError (Unit {0})
refused_request r host = elim (verify_evidence_request host r) [
  | ok _ ↦ ok tt
  | raised e ↦ raised (request_refused e)
]

module _ {L : Type 0} (log : AuditLog Details L) where
  unfoldable pub record_gate_decision :
      Host → EvidenceRequest → GateOutcome → L → Outcome RoutingError L
  unfolding has_challenge verify_evidence_request
  record_gate_decision host r o l = do
    refused_request r host
    raise_if (not (is_final o.action)) outcome_unknown
    raise_if (no_route o.route) outcome_route_required
    raise_if (not (same o.returned_for_challenge_id (some r.challenge_id))) outcome_unbound
    es ← log.events l
    raise_if (has_challenge gate_reassessed r.challenge_id es) outcome_recorded
    log.append (decision_entry r o) l

module _ {L W : Type 0} (log : AuditLog Details L) (hash : Digests) where
  -- `tuple(self.dispatch(dispatch) for dispatch in …)`
  unfoldable pub dispatch_all :
      Site log W
      → List EvidenceDispatch
      → RouterState L W
      → Answer L W (List EvidenceCollectionResult)
  unfolding dispatch
  dispatch_all site [] s = (ok [], s)
  dispatch_all site (d ∷ ds) s =
      let (r, s') = dispatch log hash site d s in
      elim r [
        | raised e ↦ (raised e, s')
        | ok x ↦
            let (rest, s'') = dispatch_all site ds s' in
            elim rest [ raised e ↦ (raised e, s'') | ok xs ↦ (ok (x ∷ xs), s'') ]
      ]

  unfoldable pub dispatch_planned :
      Site log W
      → Outcome RoutingError (List EvidenceDispatch)
      → RouterState L W
      → Answer L W (List EvidenceCollectionResult)
  unfolding dispatch_all
  dispatch_planned site (raised e) s = (raised e, s)
  dispatch_planned site (ok ds) s = dispatch_all site ds s

  unfoldable pub collect :
      Host
      → (ℕ → ℕ → Bool)
      → Site log W
      → ℕ
      → EvidenceRequest
      → RouterState L W
      → Answer L W (List EvidenceCollectionResult)
  unfolding dispatch_planned plan
  collect host before site domain r s =
      let (ds, l) = plan log hash before domain r host s.log in
      dispatch_planned site ds (record s { log = l })
