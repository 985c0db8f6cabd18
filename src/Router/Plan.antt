-- ===== src/Router/Plan.antt =====
-- evidence_router.py: `plan`. Texts are ordered by a parameter.
use minority_prophet_gate.Base.{
  ℕ, suc, ◌+◌, ◌-◌, ◌*◌, ◌/◌, ◌%◌, Bool, false, not, none, some, List, [], ◌∷◌, ◌++◌, ◌==◌, ltb,
  leb, length, if◌then◌else◌, Dict, lookup, insert, Outcome, ok, raised, ◌>>=◌,
}
use minority_prophet_gate.Request.Policy.{
  CollectorRoute, EvidenceRequirement, same_route, requirement_ids,
}
use minority_prophet_gate.Request.Challenge.{Host, EvidenceRequest, verify_evidence_request}
use minority_prophet_gate.Audit.Event.{
  RoutingError, request_refused, domain_required, route_conflict, division_by_zero, Entry, has,
  has_challenge,
}
use minority_prophet_gate.Audit.Interface.{AuditLog, challenge_received, route_planned}
use minority_prophet_gate.Router.Types.{
  ℤ, pos, minus, DispatchPayload, EvidenceDispatch, Digests, Details, of_challenge, of_route,
}

abbrev pub Group : Type 0
Group = CollectorRoute × List EvidenceRequirement

-- `grouped.setdefault(route.route_id, (route, []))[1].append(requirement)`, unless the route differs.
unfoldable pub add_requirement :
    EvidenceRequirement → Dict Group → Outcome RoutingError (Dict Group)
add_requirement q grouped =
    let route = q.collector_route in
    elim (lookup route.route_id grouped) [
      | none ↦ ok (insert route.route_id (route, q ∷ []) grouped)
      | some g ↦
          if not (same_route g.0 route)
          then raised route_conflict
          else ok (insert route.route_id (g.0, g.1 ++ q ∷ []) grouped)
    ]

unfoldable pub group : List EvidenceRequirement → Dict Group → Outcome RoutingError (Dict Group)
unfolding add_requirement
group [] grouped = ok grouped
group (q ∷ qs) grouped = add_requirement q grouped >>= group qs

-- `sorted(grouped)`
unfoldable pub place : (ℕ → ℕ → Bool) → ℕ × Group → Dict Group → Dict Group
place before g [] = g ∷ []
place before g (h ∷ hs) =
    let rest = place before g hs in if before g.0 h.0 then g ∷ h ∷ hs else h ∷ rest

unfoldable pub by_route : (ℕ → ℕ → Bool) → Dict Group → Dict Group
unfolding place
by_route before [] = []
by_route before (g ∷ gs) = place before g (by_route before gs)

-- `divmod(max_items - wanted, routes)` and `route_item_cap`: for a negative numerator the quotient is
-- that of the deficit, rounded away from 0.
unfoldable pub route_item_cap : ℕ → ℕ → ℕ → ℕ → ℕ → ℤ
route_item_cap max_items wanted routes index size =
    if leb wanted max_items
    then pos (
        size
        + (max_items - wanted) / routes
        + (if ltb index ((max_items - wanted) % routes) then 1 else 0))
    else let deficit = wanted - max_items in
      let quotient = (deficit + (routes - 1)) / routes in
      minus (size + (if ltb index (quotient * routes - deficit) then 1 else 0)) quotient

module _ (hash : Digests) (domain : ℕ) (r : EvidenceRequest) where
  abbrev pub dispatch_payload : Group → ℤ → DispatchPayload
  dispatch_payload g cap = record {
    challenge_id = r.challenge_id;
    action_digest = r.payload.action_digest;
    decision_subject = r.payload.decision_subject;
    policy_id = r.payload.policy_id;
    collection_round = r.payload.round;
    requester_control_domain = domain;
    route = g.0;
    requirements = g.1;
    max_evidence_items = cap;
  }

  abbrev pub dispatch_of : Group → ℤ → EvidenceDispatch
  dispatch_of g cap = record {
    dispatch_id = hash.dispatch_digest (dispatch_payload g cap);
    payload = dispatch_payload g cap;
    grants_protected_action_authority = false;
  }

  -- The dispatches of the routes from `index` on, of `routes` in all.
  unfoldable pub dispatches : ℕ → ℕ → Dict Group → List EvidenceDispatch
  unfolding route_item_cap
  dispatches routes index [] = []
  dispatches routes index (g ∷ gs) =
      dispatch_of g.1 (
        route_item_cap r.payload.max_evidence_items (length r.payload.requirements) routes index
          (length g.1.1))
      ∷ dispatches routes (suc index) gs

abbrev pub planned_entry : EvidenceDispatch → Entry Details
planned_entry d =
    let route = d.payload.route in
    record {
      event_type = route_planned;
      challenge_id = d.payload.challenge_id;
      dispatch_id = some d.dispatch_id;
      route_id = some route.route_id;
      details =
          of_route route.collector_kind route.capability route.output_role
            (requirement_ids d.payload.requirements) route.allowed_actions
            route.requires_independence;
    }

abbrev pub received_entry : EvidenceRequest → Entry Details
received_entry r = record {
  event_type = challenge_received;
  challenge_id = r.challenge_id;
  dispatch_id = none;
  route_id = none;
  details =
      of_challenge r.payload.action_digest r.payload.policy_id r.payload.round
        r.payload.reason_code;
}

module _ {L : Type 0} (log : AuditLog Details L) where
  -- An entry is appended unless the log has one like it. What raises ends the call; what was
  -- appended before stays.
  unfoldable pub append_new :
      Outcome RoutingError Bool → Entry Details → L → Outcome RoutingError (Unit {0}) × L
  append_new (raised e) entry l = (raised e, l)
  append_new (ok known) entry l =
      if known
      then (ok tt, l)
      else elim (log.append entry l) [ ok m ↦ (ok tt, m) | raised e ↦ (raised e, l) ]

  unfoldable pub note_received : EvidenceRequest → L → Outcome RoutingError (Unit {0}) × L
  unfolding append_new has_challenge
  note_received r l =
      append_new (log.events l >>= λ es. ok (has_challenge challenge_received r.challenge_id es))
        (received_entry r) l

  unfoldable pub note_planned : EvidenceDispatch → L → Outcome RoutingError (Unit {0}) × L
  unfolding append_new has
  note_planned d l =
      append_new (log.events l >>= λ es. ok (has route_planned d.dispatch_id es)) (planned_entry d)
        l

  unfoldable pub note_all : List EvidenceDispatch → L → Outcome RoutingError (Unit {0}) × L
  unfolding note_planned
  note_all [] l = (ok tt, l)
  note_all (d ∷ ds) l =
      let (out, m) = note_planned d l in
      elim out [ ok _ ↦ note_all ds m | raised e ↦ (raised e, m) ]

  -- The dispatches of the groups, each noted in the log.
  unfoldable pub note_plan :
      List EvidenceDispatch → L → Outcome RoutingError (List EvidenceDispatch) × L
  unfolding note_all
  note_plan ds l =
      let (out, m) = note_all ds l in elim out [ ok _ ↦ (ok ds, m) | raised e ↦ (raised e, m) ]

  module _ (hash : Digests) (before : ℕ → ℕ → Bool) (domain : ℕ) (r : EvidenceRequest) where
    unfoldable pub plan_groups :
        Outcome RoutingError (Dict Group) → L → Outcome RoutingError (List EvidenceDispatch) × L
    unfolding by_route dispatches note_plan
    plan_groups (raised e) l = (raised e, l)
    plan_groups (ok []) l = (raised division_by_zero, l)
    plan_groups (ok (g ∷ gs)) l =
        note_plan (dispatches hash domain r (length (g ∷ gs)) 0 (by_route before (g ∷ gs))) l

    unfoldable pub plan_received :
        Outcome RoutingError (Unit {0}) → L → Outcome RoutingError (List EvidenceDispatch) × L
    unfolding plan_groups group
    plan_received (raised e) l = (raised e, l)
    plan_received (ok _) l = plan_groups (group r.payload.requirements []) l

    unfoldable pub plan : Host → L → Outcome RoutingError (List EvidenceDispatch) × L
    unfolding plan_received note_received
    plan host l = elim (verify_evidence_request host r) [
      | raised e ↦ (raised (request_refused e), l)
      | ok _ ↦
          if domain == 0
          then (raised domain_required, l)
          else (let (out, m) = note_received r l in plan_received out m)
    ]
